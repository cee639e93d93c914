-- ===== src/Dashboard/Slugs/Label.antt =====
-- What `validate_slug` accepts: the labels of DNS-1123 that start with a letter.
use reinhardt_cloud.Base.{
  ℕ, String, ◌≤◌, ◌≡◌, ◌↔◌, ◌⊎◌, refl, Bool, true, false, not, ◌||◌, [], ◌∷◌, length, All, all,
  arith, if◌then◌else◌, ltb,
}
use reinhardt_cloud.Base.Result.{Result, ok, err}
use reinhardt_cloud.Base.Text.{Text, last, is_ascii_lowercase, is_ascii_digit}
use reinhardt_cloud.Dashboard.Slugs.Defs.{validate_slug, is_slug_byte}

abbrev pub IsLetter : ℕ → Type 0
IsLetter b = (97 ≤ b) × (b ≤ 122)

abbrev pub IsDigit : ℕ → Type 0
IsDigit b = (48 ≤ b) × (b ≤ 57)

abbrev pub IsSlugByte : ℕ → Type 0
IsSlugByte b = IsLetter b ⊎ IsDigit b ⊎ (b ≡ 45)

-- one to 63 letters, digits and dashes, the first a letter and the last not a dash
abbrev pub IsLabel : Text → Type 0
IsLabel [] = ⊥
IsLabel (first ∷ rest) =
    (length (first ∷ rest) ≤ 63)
    × IsLetter first
    × (IsLetter (last first rest) ⊎ IsDigit (last first rest))
    × All IsSlugByte (first ∷ rest)

pub is_ascii_lowercase_iff : (b : ℕ) → (is_ascii_lowercase b ≡ true) ↔ IsLetter b
unfolding is_ascii_lowercase
is_ascii_lowercase_iff b = ground arith

pub is_ascii_digit_iff : (b : ℕ) → (is_ascii_digit b ≡ true) ↔ IsDigit b
unfolding is_ascii_digit
is_ascii_digit_iff b = ground arith

pub is_slug_byte_iff : (b : ℕ) → (is_slug_byte b ≡ true) ↔ IsSlugByte b
unfolding is_slug_byte
is_slug_byte_iff b = ground (arith, is_ascii_lowercase_iff b, is_ascii_digit_iff b)

all_iff : (s : Text) → (all is_slug_byte s ≡ true) ↔ All IsSlugByte s
all_iff [] = (λ _. tt, λ _. refl)
all_iff (b ∷ s) = (
  λ h. ground (arith, is_slug_byte_iff b, all_iff s),
  λ h. ground (arith, is_slug_byte_iff b, all_iff s),
)

-- the tests on a slug that is not empty, one after the other
tests_passed :
    (long lower ends valid : Bool) (a b c d : String)
    → (Path
        (Result (Unit {0}) String)
        (if long
          then err a
          else if not lower
          then err b
          else if not ends
          then err c
          else if not valid
          then err d
          else ok tt)
        (ok tt))
      ↔ ((long ≡ false) × (lower ≡ true) × (ends ≡ true) × (valid ≡ true))
tests_passed true lower ends valid a b c d = ground arith
tests_passed false false ends valid a b c d = ground arith
tests_passed false true false valid a b c d = ground arith
tests_passed false true true false a b c d = ground arith
tests_passed false true true true a b c d = ground arith

ends_iff : (b : ℕ) → ((is_ascii_lowercase b || is_ascii_digit b) ≡ true) ↔ (IsLetter b ⊎ IsDigit b)
ends_iff b = ground (arith, is_ascii_lowercase_iff b, is_ascii_digit_iff b)

-- A slug passes exactly if it has one to 63 characters, all of them lower-case letters, digits and
-- dashes, starts with a letter and does not end with a dash.
pub validate_slug_lem : (s : Text) → (validate_slug s ≡ ok tt) ↔ IsLabel s
unfolding validate_slug
validate_slug_lem [] = (λ e. ground arith, λ no. absurd no)
validate_slug_lem (first ∷ rest) =
    let tests =
      tests_passed (ltb 63 (length (first ∷ rest))) (is_ascii_lowercase first)
        (is_ascii_lowercase (last first rest) || is_ascii_digit (last first rest))
        (all is_slug_byte (first ∷ rest)) _ _ _ _ in
    (
      λ passed.
          let (short, lower, ends, valid) = tests.0 passed in
          (
            ground arith,
            (is_ascii_lowercase_iff first).0 lower,
            (ends_iff (last first rest)).0 ends,
            (all_iff (first ∷ rest)).0 valid,
          ),
      λ label.
          let (short, letter, ends, valid) = label in
          tests.1 (
            ground arith,
            (is_ascii_lowercase_iff first).1 letter,
            (ends_iff (last first rest)).1 ends,
            (all_iff (first ∷ rest)).1 valid,
          ),
    )
