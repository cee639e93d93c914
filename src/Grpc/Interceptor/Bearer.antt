-- ===== src/Grpc/Interceptor/Bearer.antt =====
-- The Bearer token of a request.
use reinhardt_cloud.Base.{
  String, Option, none, some, ◌≡◌, ◌↔◌, inl, inr, refl, sym, ap, ◌∙◌, arith, string_eq, nat_eq,
  nat_beq_iff, ◌==◌, ==_refl, if◌then◌else◌, Bool-cases, text_append,
}
use reinhardt_cloud.Base.Result.{ok}
use reinhardt_cloud.Base.Text.{Text}
use reinhardt_cloud.Grpc.Interceptor.Defs.{strip_prefix, Jwt, bearer_text, bearer_value}
use mathlib.Core.Option.{some-injective}
use Prim.Native.String.append
use Prim.Native.Char.{code}
use text.Mathlib.TextEquality.{Char-path}

strip_prefix-eq_some : (p s t : String) → strip_prefix p s ≡ some t → s ≡ text_append p t
unfolding strip_prefix
strip_prefix-eq_some String.[] s t h = some-injective s t h ∙ sym (append.nil t)
strip_prefix-eq_some (String.◌∷◌ c p) String.[] t h = absurd (ground (arith, h))
strip_prefix-eq_some (String.◌∷◌ c p) (String.◌∷◌ d s) t h = elim (Bool-cases (code c == code d)) [
  | inl same ↦
      let first = Char-path c d ((nat_beq_iff (code c) (code d)).0 same) in
      let rest = strip_prefix-eq_some p s t (rw same at h) in
      ap (λ x. String.◌∷◌ x s) (sym first) ∙ ap (String.◌∷◌ c) rest ∙ sym (append.cons c p t)
  | inr other ↦ absurd (ground (arith, h, other))
]

strip_prefix-append : (p t : String) → strip_prefix p (text_append p t) ≡ some t
unfolding strip_prefix
strip_prefix-append String.[] t = ap some (append.nil t)
strip_prefix-append (String.◌∷◌ c p) t =
    ap (strip_prefix (String.◌∷◌ c p)) (append.cons c p t)
    ∙ ap (λ b. if b then strip_prefix p (text_append p t) else none) (==_refl (code c))
    ∙ strip_prefix-append p t

bearer_text-eq_ok :
    (message : String) (o : Option String) (token : String)
    → bearer_text message o ≡ ok token
    → o ≡ some (text_append "Bearer " token)
bearer_text-eq_ok message none token h = absurd (ground (arith, h))
bearer_text-eq_ok message (some s) token h =
    ap some (strip_prefix-eq_some "Bearer " s token (ground (arith, h)))

bearer_text-append :
    (message token : String) → bearer_text message (some (text_append "Bearer " token)) ≡ ok token
bearer_text-append message token = rw (strip_prefix-append "Bearer " token, bearer_text) refl

module _ {E : Type 0} (jwt : Jwt E) where
  -- the request carries the token after the word Bearer
  abbrev pub IsBearer : Option Text → String → Type 0
  IsBearer authorization token =
      (v : Text) × ((authorization ≡ some v) × (jwt.to_str v ≡ some (text_append "Bearer " token)))

  pub bearer_value_iff :
      (message : String) (o : Option Text) (token : String)
      → (bearer_value jwt message o ≡ ok token) ↔ IsBearer o token
  bearer_value_iff message none token =
      (λ h. absurd (ground (arith, h)), λ (v, (has, text)). absurd (ground (arith, has)))
  bearer_value_iff message (some w) token = (
    λ h. (w, (refl, bearer_text-eq_ok message (jwt.to_str w) token h)),
    λ (v, (has, text)).
        ap (λ u. bearer_text message (jwt.to_str u)) (some-injective w v has)
        ∙ ap (bearer_text message) text
        ∙ bearer_text-append message token,
  )
