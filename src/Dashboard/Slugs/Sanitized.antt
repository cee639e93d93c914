-- ===== src/Dashboard/Slugs/Sanitized.antt =====
-- Every name becomes a slug that passes.
use reinhardt_cloud.Base.{
  ℕ, zero, suc, ◌≤◌, ◌≡◌, ◌≢◌, ◌⊎◌, inr, refl, Bool, true, false, [], ◌∷◌, ◌++◌, length, take, All,
  All-append, arith, if_intro, length-take, ◌||◌, ◌==◌, nat_eq, if◌then◌else◌, ltb,
}
use reinhardt_cloud.Base.Result.{ok}
use reinhardt_cloud.Base.Text.{
  Text, dash, last, is_ascii_lowercase, is_ascii_uppercase, is_ascii_digit, is_ascii_alphanumeric,
  to_ascii_lowercase,
}
use reinhardt_cloud.Dashboard.Slugs.Defs.{
  validate_slug, lower_char, lowered, collapse, trim_end, shortened, or_user, user_prefix,
  sanitize_username_to_slug,
}
use reinhardt_cloud.Dashboard.Slugs.Label.{
  IsDigit, IsSlugByte, IsLabel, validate_slug_lem, is_ascii_digit_iff,
}

abbrev AreBytes : Text → Type 0
AreBytes s = All IsSlugByte s

-- no dash at the start, and none at the end
abbrev Starts : Text → Type 0
Starts [] = Unit
Starts (c ∷ cs) = c ≢ 45

abbrev Ends : Text → Type 0
Ends [] = Unit
Ends (c ∷ cs) = last c cs ≢ 45

lowercase-IsSlugByte : (c : ℕ) → is_ascii_alphanumeric c ≡ true → IsSlugByte (to_ascii_lowercase c)
unfolding is_ascii_alphanumeric to_ascii_lowercase is_ascii_lowercase is_ascii_uppercase
    is_ascii_digit
lowercase-IsSlugByte c h = ground arith

lower_char-AreBytes : (c : ℕ) → AreBytes (lower_char c)
unfolding lower_char
lower_char-AreBytes c =
    if_intro AreBytes (is_ascii_alphanumeric c) (λ h. (lowercase-IsSlugByte c h, tt))
      (λ _.
        if_intro AreBytes ((c == 45) || (c == 95) || (c == 46) || (c == 32))
          (λ _. (inr (inr refl), tt)) (λ _. tt))

lowered-AreBytes : (s : Text) → AreBytes (lowered s)
unfolding lowered
lowered-AreBytes [] = tt
lowered-AreBytes (c ∷ cs) =
    All-append IsSlugByte (lower_char c) (lowered cs) (lower_char-AreBytes c) (lowered-AreBytes cs)

collapse-AreBytes : (b : Bool) (s : Text) → AreBytes s → AreBytes (collapse b s)
unfolding collapse
collapse-AreBytes b [] h = tt
collapse-AreBytes b (c ∷ cs) h =
    if_intro AreBytes (c == dash)
      (λ _.
        if_intro AreBytes b (λ _. collapse-AreBytes true cs h.1)
          (λ _. (h.0, collapse-AreBytes true cs h.1)))
      (λ _. (h.0, collapse-AreBytes false cs h.1))

collapse-Starts : (s : Text) → Starts (collapse true s)
unfolding collapse
collapse-Starts [] = tt
collapse-Starts (c ∷ cs) =
    if_intro Starts (c == dash) (λ _. collapse-Starts cs) (λ other. ground arith)

-- one step of the trimming
abbrev trim_step : ℕ → Text → Text
trim_step c r = elim r [ [] ↦ if c == dash then [] else c ∷ [] | ◌∷◌ d ds ↦ c ∷ d ∷ ds ]

trim_step-AreBytes : (c : ℕ) (r : Text) → IsSlugByte c → AreBytes r → AreBytes (trim_step c r)
trim_step-AreBytes c [] hc hr = if_intro AreBytes (c == dash) (λ _. tt) (λ _. (hc, tt))
trim_step-AreBytes c (d ∷ ds) hc hr = (hc, hr)

trim_step-Ends : (c : ℕ) (r : Text) → Ends r → Ends (trim_step c r)
unfolding last
trim_step-Ends c [] h = if_intro Ends (c == dash) (λ _. tt) (λ other. ground arith)
trim_step-Ends c (d ∷ ds) h = h

trim_step-Starts : (c : ℕ) (r : Text) → c ≢ 45 → Starts (trim_step c r)
trim_step-Starts c [] h = if_intro Starts (c == dash) (λ _. tt) (λ _. h)
trim_step-Starts c (d ∷ ds) h = h

trim_step-length : (c : ℕ) (r : Text) → length (trim_step c r) ≤ suc (length r)
trim_step-length c [] = ground arith
trim_step-length c (d ∷ ds) = ground arith

trim_end-AreBytes : (s : Text) → AreBytes s → AreBytes (trim_end s)
unfolding trim_end
trim_end-AreBytes [] h = tt
trim_end-AreBytes (c ∷ cs) h = trim_step-AreBytes c (trim_end cs) h.0 (trim_end-AreBytes cs h.1)

trim_end-Ends : (s : Text) → Ends (trim_end s)
unfolding trim_end
trim_end-Ends [] = tt
trim_end-Ends (c ∷ cs) = trim_step-Ends c (trim_end cs) (trim_end-Ends cs)

trim_end-Starts : (s : Text) → Starts s → Starts (trim_end s)
unfolding trim_end
trim_end-Starts [] h = tt
trim_end-Starts (c ∷ cs) h = trim_step-Starts c (trim_end cs) h

length-trim_end : (s : Text) → length (trim_end s) ≤ length s
unfolding trim_end
length-trim_end [] = ground arith
length-trim_end (c ∷ cs) = omega (arith, trim_step-length c (trim_end cs), length-trim_end cs)

take-AreBytes : (n : ℕ) (s : Text) → AreBytes s → AreBytes (take n s)
take-AreBytes zero s h = tt
take-AreBytes (suc n) [] h = tt
take-AreBytes (suc n) (c ∷ cs) h = (h.0, take-AreBytes n cs h.1)

take-Starts : (n : ℕ) (s : Text) → Starts s → Starts (take n s)
take-Starts zero s h = tt
take-Starts (suc n) [] h = tt
take-Starts (suc n) (c ∷ cs) h = h

-- a text that is a label, once it is not empty and does not start with a digit
record IsTrimmed (s : Text) : Type 0 where
  bytes : AreBytes s
  starts : Starts s
  ends : Ends s

record IsShort (s : Text) : Type 0 where
  trimmed : IsTrimmed s
  short : length s ≤ 63

shortened-IsShort : (s : Text) → IsTrimmed s → IsShort (shortened s)
unfolding shortened
shortened-IsShort s h =
    if_intro IsShort (ltb 63 (length s))
      (λ _. record {
        trimmed = record {
          bytes = trim_end-AreBytes (take 63 s) (take-AreBytes 63 s h.bytes);
          starts = trim_end-Starts (take 63 s) (take-Starts 63 s h.starts);
          ends = trim_end-Ends (take 63 s);
        };
        short = omega (arith, length-trim_end (take 63 s), length-take 63 s);
      })
      (λ fits. record { trimmed = h; short = ground arith })

-- the first eight characters of an identifier: hexadecimal digits
abbrev pub IsHex : ℕ → Type 0
IsHex c = IsDigit c ⊎ ((97 ≤ c) × (c ≤ 102))

abbrev pub IsHexSuffix : Text → Type 0
IsHexSuffix suffix = (length suffix ≡ 8) × All IsHex suffix

last-All : (P : ℕ → Type 0) (c : ℕ) (cs : Text) → P c → All P cs → P (last c cs)
unfolding last
last-All P c [] p h = p
last-All P c (d ∷ ds) p h = last-All P d ds h.0 h.1

short-IsLabel : (c : ℕ) (cs : Text) → IsShort (c ∷ cs) → is_ascii_digit c ≡ false → IsLabel (c ∷ cs)
short-IsLabel c cs h other =
    let first : IsSlugByte c = h.trimmed.bytes.0 in
    let final : IsSlugByte (last c cs) = last-All IsSlugByte c cs first h.trimmed.bytes.1 in
    (
      h.short,
      ground (arith, is_ascii_digit_iff c, h.trimmed.starts),
      ground (arith, h.trimmed.ends),
      h.trimmed.bytes,
    )

hex-AreBytes : (s : Text) → All IsHex s → AreBytes s
hex-AreBytes [] h = tt
hex-AreBytes (c ∷ cs) h = (ground arith, hex-AreBytes cs h.1)

user_prefix-AreBytes : AreBytes user_prefix
user_prefix-AreBytes =
    (ground arith, (ground arith, (ground arith, (ground arith, (inr (inr refl), tt)))))

user-IsLabel : (suffix : Text) → IsHexSuffix suffix → IsLabel (user_prefix ++ suffix)
unfolding last
user-IsLabel [] h = absurd (ground arith)
user-IsLabel (c ∷ cs) h =
    let final : IsHex (last c cs) = last-All IsHex c cs h.1.0 h.1.1 in
    (
      ground arith,
      ground arith,
      ground arith,
      All-append IsSlugByte user_prefix (c ∷ cs) user_prefix-AreBytes (hex-AreBytes (c ∷ cs) h.1),
    )

or_user-IsLabel : (suffix s : Text) → IsHexSuffix suffix → IsShort s → IsLabel (or_user suffix s)
unfolding or_user
or_user-IsLabel suffix [] hex h = user-IsLabel suffix hex
or_user-IsLabel suffix (c ∷ cs) hex h =
    if_intro IsLabel (is_ascii_digit c) (λ _. user-IsLabel suffix hex)
      (λ other. short-IsLabel c cs h other)

-- Whatever the name, the slug that is made of it passes the validation, given that the generated
-- identifier begins with eight hexadecimal digits in lower case.
pub sanitize_username_to_slug_lem :
    (suffix username : Text)
    → IsHexSuffix suffix
    → validate_slug (sanitize_username_to_slug suffix username) ≡ ok tt
unfolding sanitize_username_to_slug
sanitize_username_to_slug_lem suffix username hex =
    let collapsed = collapse true (lowered username) in
    (validate_slug_lem (sanitize_username_to_slug suffix username)).1 (
      or_user-IsLabel suffix (shortened (trim_end collapsed)) hex (
        shortened-IsShort (trim_end collapsed) (record {
          bytes =
              trim_end-AreBytes collapsed
                (collapse-AreBytes true (lowered username) (lowered-AreBytes username));
          starts = trim_end-Starts collapsed (collapse-Starts (lowered username));
          ends = trim_end-Ends collapsed;
        })))
