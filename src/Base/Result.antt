-- ===== src/Base/Result.antt =====
-- Fallible results, `std::result::Result`.
use mathlib.Core.Path.{◌≡◌, refl, sym, ap, ◌∙◌}
use mathlib.Core.Logic.{◌⊎◌, ◌↔◌, inl, inr}
use native.Mathlib.Omega.{arith}

pub data Result {ℓ κ} (A : Type ℓ) (E : Type κ) : Type (ℓ ⊔ κ) where
  ok : A → Result A E
  err : E → Result A E

-- `?` and `and_then`
infixl 5 ◌>>=◌ ◌>>◌
abbrev pub ◌>>=◌ {ℓ ℓ' κ} :
    {A : Type ℓ} {B : Type ℓ'} {E : Type κ} → Result A E → (A → Result B E) → Result B E
ok a >>= f = f a
err e >>= f = err e

abbrev pub ◌>>◌ {ℓ κ} : {B : Type ℓ} {E : Type κ} → Result (Unit {0}) E → Result B E → Result B E
m >> k = m >>= λ _. k

abbrev pub map_err {ℓ κ κ'} :
    {A : Type ℓ} {E : Type κ} {F : Type κ'} → (E → F) → Result A E → Result A F
map_err f (ok a) = ok a
map_err f (err e) = err (f e)

abbrev pub map_ok {ℓ ℓ' κ} :
    {A : Type ℓ} {B : Type ℓ'} {E : Type κ} → (A → B) → Result A E → Result B E
map_ok f (ok a) = ok (f a)
map_ok f (err e) = err e

module _ {ℓ κ} {A : Type ℓ} {E : Type κ} where
  pub ok≢err : (a : A) (e : E) → ¬ (ok a ≡ err e)
  ok≢err a e h = ground (arith, h)

  pub ok-injective : (a b : A) → Path (Result A E) (ok a) (ok b) → a ≡ b
  ok-injective a b h = ground (arith, h)

-- a chain that succeeds succeeded at each step
pub bind-eq_ok {ℓ ℓ' κ} :
    {A : Type ℓ} {B : Type ℓ'} {E : Type κ} (m : Result A E) (f : A → Result B E) (b : B)
    → (m >>= f) ≡ ok b
    → (a : A) × ((m ≡ ok a) × (f a ≡ ok b))
bind-eq_ok (ok a) f b h = (a, (refl, h))
bind-eq_ok (err e) f b h = absurd (ground (arith, h))

-- and a chain succeeds whose steps do
pub ok-bind {ℓ ℓ' κ} :
    {A : Type ℓ} {B : Type ℓ'} {E : Type κ} (m : Result A E) (f : A → Result B E) (a : A) (b : B)
    → m ≡ ok a
    → f a ≡ ok b
    → (m >>= f) ≡ ok b
ok-bind m f a b h k = ap (λ n. n >>= f) h ∙ k

pub map_err-eq_ok {ℓ κ κ'} :
    {A : Type ℓ} {E : Type κ} {F : Type κ'} (f : E → F) (m : Result A E) (a : A)
    → (map_err f m ≡ ok a) ↔ (m ≡ ok a)
map_err-eq_ok f (ok b) a = (λ h. ap ok (ok-injective b a h), λ h. ap ok (ok-injective b a h))
map_err-eq_ok f (err e) a = (λ h. absurd (ok≢err a (f e) (sym h)), λ h. absurd (ok≢err a e (sym h)))

-- to split on a computed result and keep the equation
pub Result-cases {ℓ κ} :
    {A : Type ℓ} {E : Type κ} (r : Result A E) → ((a : A) × (r ≡ ok a)) ⊎ ((e : E) × (r ≡ err e))
Result-cases (ok a) = inl (a, refl)
Result-cases (err e) = inr (e, refl)
