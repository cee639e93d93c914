-- ===== src/Types/Validation.antt =====
-- crates/reinhardt-cloud-types/src/validation.rs: DNS-1123 labels.
use reinhardt_cloud.Base.{
  ℕ, String, Bool, not, ◌||◌, [], ◌∷◌, length, all, ltb, nat_eq, ◌==◌, if◌then◌else◌,
}
use reinhardt_cloud.Base.Result.{Result, ok, err}
use reinhardt_cloud.Base.Text.{Text, dash, last, is_ascii_lowercase, is_ascii_digit}

-- `ValidationError`, by its message
pub record ValidationError : Type 0 where
  pub message : String

abbrev pub dns_1123_label_max_length : ℕ
dns_1123_label_max_length = 63

unfoldable pub is_dns_1123_alphanumeric : ℕ → Bool
unfolding is_ascii_lowercase is_ascii_digit
is_dns_1123_alphanumeric b = is_ascii_lowercase b || is_ascii_digit b

-- the test of the loop
abbrev pub is_label_byte : ℕ → Bool
is_label_byte b = is_dns_1123_alphanumeric b || (b == dash)

abbrev invalid : String → Result (Unit {0}) ValidationError
invalid message = err (record { message = message })

unfoldable pub validate_dns_1123_label : Text → Result (Unit {0}) ValidationError
unfolding is_dns_1123_alphanumeric last
validate_dns_1123_label [] = invalid "must not be empty"
validate_dns_1123_label (first ∷ rest) =
    if ltb dns_1123_label_max_length (length (first ∷ rest))
    then invalid "must be at most {DNS_1123_LABEL_MAX_LENGTH} characters, got {}"
    else if not (is_dns_1123_alphanumeric first)
    then invalid "must start with a lowercase alphanumeric character"
    else if not (is_dns_1123_alphanumeric (last first rest))
    then invalid "must end with a lowercase alphanumeric character"
    else if not (all is_label_byte (first ∷ rest))
    then invalid "must contain only lowercase alphanumeric characters and hyphens"
    else ok tt
