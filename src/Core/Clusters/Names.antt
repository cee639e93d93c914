-- ===== src/Core/Clusters/Names.antt =====
-- The names of clusters are the DNS-1123 labels.
use reinhardt_cloud.Base.{
  ℕ, ◌≡◌, ◌↔◌, Bool, true, false, not, ◌||◌, [], ◌∷◌, length, all, arith, nat_eq, ◌==◌,
  if◌then◌else◌, ltb,
}
use reinhardt_cloud.Base.Result.{Result, ok, err}
use reinhardt_cloud.Base.Text.{Text, dash, last, is_ascii_lowercase, is_ascii_digit}
use reinhardt_cloud.Types.Validation.{validate_dns_1123_label}
use reinhardt_cloud.Types.Label.{
  IsLabelByte, IsDnsLabel, all_iff, last-All, validate_dns_1123_label_iff,
}
use reinhardt_cloud.Core.Clusters.{validate_cluster_name, is_name_char}

name_char_iff : (b : ℕ) → (is_name_char b ≡ true) ↔ IsLabelByte b
unfolding is_name_char is_ascii_lowercase is_ascii_digit
name_char_iff b = ground arith

cluster_tests :
    (long valid dashed : Bool) {E : Type 0} (a b c : E)
    → (Path
        (Result (Unit {0}) E)
        (if long then err a else if not valid then err b else if dashed then err c else ok tt)
        (ok tt))
      ↔ ((long ≡ false) × (valid ≡ true) × (dashed ≡ false))
cluster_tests true valid dashed a b c = ground arith
cluster_tests false false dashed a b c = ground arith
cluster_tests false true true a b c = ground arith
cluster_tests false true false a b c = ground arith

validate_cluster_name_iff : (s : Text) → (validate_cluster_name s ≡ ok tt) ↔ IsDnsLabel s
unfolding validate_cluster_name
validate_cluster_name_iff [] = (λ e. ground arith, λ no. absurd no)
validate_cluster_name_iff (first ∷ rest) =
    let tests =
      cluster_tests (ltb 63 (length (first ∷ rest))) (all is_name_char (first ∷ rest))
        ((first == dash) || (last first rest == dash)) _ _ _ in
    let bytes = all_iff is_name_char IsLabelByte (first ∷ rest) name_char_iff in
    (
      λ passed.
          let (short, valid, plain) = tests.0 passed in
          let all_bytes = bytes.0 valid in
          let last_byte = last-All IsLabelByte first rest all_bytes in
          (ground arith, ground (arith, all_bytes.0), ground (arith, last_byte), all_bytes),
      λ label.
          let (short, a, z, valid) = label in
          tests.1 (ground arith, bytes.1 valid, ground (arith, a, z)),
    )

-- A text is accepted as the name of a cluster exactly if it is accepted as a DNS-1123 label, though
-- the two functions test in different orders and give different errors.
pub validate_cluster_name-validate_dns_1123_label :
    (s : Text) → (validate_cluster_name s ≡ ok tt) ↔ (validate_dns_1123_label s ≡ ok tt)
validate_cluster_name-validate_dns_1123_label s =
    let cluster = validate_cluster_name_iff s in
    let label = validate_dns_1123_label_iff s in
    (λ e. label.1 (cluster.0 e), λ e. cluster.1 (label.0 e))
