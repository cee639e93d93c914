-- ===== src/Types/Label.antt =====
-- What a DNS-1123 label is, and that `validate_dns_1123_label` accepts labels and nothing else.
use reinhardt_cloud.Base.{
  ℕ, ◌≤◌, ◌≡◌, ◌↔◌, ◌⊎◌, refl, Bool, true, false, not, [], ◌∷◌, ◌++◌, length, All, all, arith,
  nat_eq, if◌then◌else◌, ltb,
}
use reinhardt_cloud.Base.Result.{Result, ok, err}
use reinhardt_cloud.Base.Text.{Text, last, is_ascii_lowercase, is_ascii_digit}
use reinhardt_cloud.Types.Validation.{
  validate_dns_1123_label, is_dns_1123_alphanumeric, is_label_byte,
}

abbrev pub IsAlphanumeric : ℕ → Type 0
IsAlphanumeric b = ((97 ≤ b) × (b ≤ 122)) ⊎ ((48 ≤ b) × (b ≤ 57))

abbrev pub IsLabelByte : ℕ → Type 0
IsLabelByte b = IsAlphanumeric b ⊎ (b ≡ 45)

-- one to 63 lower-case letters, digits and dashes, without a dash at an end
abbrev pub IsDnsLabel : Text → Type 0
IsDnsLabel [] = ⊥
IsDnsLabel (first ∷ rest) =
    (length (first ∷ rest) ≤ 63)
    × IsAlphanumeric first
    × IsAlphanumeric (last first rest)
    × All IsLabelByte (first ∷ rest)

pub IsAlphanumeric-iff : (b : ℕ) → (is_dns_1123_alphanumeric b ≡ true) ↔ IsAlphanumeric b
unfolding is_dns_1123_alphanumeric is_ascii_lowercase is_ascii_digit
IsAlphanumeric-iff b = ground arith

pub IsLabelByte-iff : (b : ℕ) → (is_label_byte b ≡ true) ↔ IsLabelByte b
IsLabelByte-iff b = ground (arith, IsAlphanumeric-iff b)

-- a test of every byte, and what it tests
pub all_iff {ℓ} :
    (p : ℕ → Bool) (P : ℕ → Type ℓ) (s : Text)
    → ((b : ℕ) → (p b ≡ true) ↔ P b)
    → (all p s ≡ true) ↔ All P s
all_iff p P [] h = (λ _. tt, λ _. refl)
all_iff p P (b ∷ s) h =
    (λ e. ground (arith, h b, all_iff p P s h), λ e. ground (arith, h b, all_iff p P s h))

pub last-All {ℓ} : (P : ℕ → Type ℓ) (c : ℕ) (s : Text) → All P (c ∷ s) → P (last c s)
unfolding last
last-All P c [] h = h.0
last-All P c (d ∷ ds) h = last-All P d ds h.1

pub last-append : (c : ℕ) (s : Text) (d : ℕ) (ds : Text) → last c (s ++ (d ∷ ds)) ≡ last d ds
unfolding last
last-append c [] d ds = refl
last-append c (x ∷ s) d ds = last-append x s d ds

-- Four tests, one after the other, each of which ends with its error.
pub tests_passed {ℓ} :
    {E : Type ℓ} (long first_ok last_ok valid : Bool) (a b c d : E)
    → (Path
        (Result (Unit {0}) E)
        (if long
          then err a
          else if not first_ok
          then err b
          else if not last_ok
          then err c
          else if not valid
          then err d
          else ok tt)
        (ok tt))
      ↔ ((long ≡ false) × (first_ok ≡ true) × (last_ok ≡ true) × (valid ≡ true))
tests_passed true first_ok last_ok valid a b c d = ground arith
tests_passed false false last_ok valid a b c d = ground arith
tests_passed false true false valid a b c d = ground arith
tests_passed false true true false a b c d = ground arith
tests_passed false true true true a b c d = ground arith

pub validate_dns_1123_label_iff : (s : Text) → (validate_dns_1123_label s ≡ ok tt) ↔ IsDnsLabel s
unfolding validate_dns_1123_label
validate_dns_1123_label_iff [] = (λ e. ground arith, λ no. absurd no)
validate_dns_1123_label_iff (first ∷ rest) =
    let tests =
      tests_passed (ltb 63 (length (first ∷ rest))) (is_dns_1123_alphanumeric first)
        (is_dns_1123_alphanumeric (last first rest)) (all is_label_byte (first ∷ rest)) _ _ _ _ in
    let bytes = all_iff is_label_byte IsLabelByte (first ∷ rest) IsLabelByte-iff in
    (
      λ passed.
          let (short, a, z, valid) = tests.0 passed in
          (
            ground arith,
            (IsAlphanumeric-iff first).0 a,
            (IsAlphanumeric-iff (last first rest)).0 z,
            bytes.0 valid,
          ),
      λ label.
          let (short, a, z, valid) = label in
          tests.1 (
            ground arith,
            (IsAlphanumeric-iff first).1 a,
            (IsAlphanumeric-iff (last first rest)).1 z,
            bytes.1 valid,
          ),
    )
