-- ===== src/Types/Infrastructure.antt =====
-- crates/reinhardt-cloud-types/src/crd/infrastructure.rs: the resources that an application asks of
-- its cloud, which end as texts of a Terraform file. A text is its bytes. A space that is not ASCII
-- fails the tests on bytes, so `trim().is_empty()` looks for ASCII spaces.
pub mod Safe
use reinhardt_cloud.Base.{
  ℕ, String, Bool, true, false, not, ◌&&◌, ◌||◌, Option, none, some, List, [], ◌∷◌, ◌++◌, all, any,
  ltb, nat_eq, string_eq, ◌==◌, if◌then◌else◌,
}
use reinhardt_cloud.Base.Result.{Result, ok, err}
use reinhardt_cloud.Base.Text.{Text, dash, between, is_ascii_alphanumeric}
use reinhardt_cloud.Types.Validation.{ValidationError}

-- `trim().is_empty()`
abbrev pub is_empty_trimmed : Text → Bool
is_empty_trimmed value = all (λ b. between 9 13 b || (b == 32)) value

-- the bytes that a name may have: letters, digits, `_` and `-`
abbrev pub is_name_byte : ℕ → Bool
is_name_byte b = is_ascii_alphanumeric b || (b == 95) || (b == dash)

unfoldable pub is_safe_terraform_name : Text → Bool
unfolding is_ascii_alphanumeric
is_safe_terraform_name value = not (is_empty_trimmed value) && all is_name_byte value

-- letters, digits, `.`, `_` and `-`
abbrev pub is_provider_byte : ℕ → Bool
is_provider_byte b = is_ascii_alphanumeric b || (b == 46) || (b == 95) || (b == dash)

unfoldable pub is_safe_provider_value : Text → Bool
unfolding is_ascii_alphanumeric
is_safe_provider_value value = not (is_empty_trimmed value) && all is_provider_byte value

-- letters, digits, `.` and `-`
abbrev pub is_host_byte : ℕ → Bool
is_host_byte b = is_ascii_alphanumeric b || (b == 46) || (b == dash)

unfoldable pub is_safe_dns_host : Text → Bool
unfolding is_ascii_alphanumeric
is_safe_dns_host value = not (is_empty_trimmed value) && all is_host_byte value

-- a control character, a quote, a backslash, a brace or a dollar
abbrev pub is_hcl_byte : ℕ → Bool
is_hcl_byte b =
    ltb b 32 || (b == 127) || (b == 34) || (b == 92) || (b == 123) || (b == 125) || (b == 36)

unfoldable pub is_safe_hcl_string : Text → Bool
is_safe_hcl_string value = not (any is_hcl_byte value)

-- `errors.push` unless the test is passed
abbrev pub require : Bool → String → List ValidationError
require true message = []
require false message = record { message = message } ∷ []

-- the same of a field that is given
abbrev pub require_some : (Text → Bool) → Option Text → String → List ValidationError
require_some test none message = []
require_some test (some value) message = require (test value) message

-- `if errors.is_empty()`
abbrev pub report : List ValidationError → Result (Unit {0}) (List ValidationError)
report [] = ok tt
report (e ∷ es) = err (e ∷ es)

-- `if let Err(errs)` and `errors.extend(errs)`
abbrev pub extended_by : Result (Unit {0}) (List ValidationError) → List ValidationError
extended_by (ok u) = []
extended_by (err errs) = errs

abbrev pub for_each :
    {A : Type 0} → (A → Result (Unit {0}) (List ValidationError)) → List A → List ValidationError
for_each validate [] = []
for_each validate (a ∷ rest) = extended_by (validate a) ++ for_each validate rest

-- `if let Some(..)`
abbrev pub of_option : {A : Type 0} → Option A → List A
of_option none = []
of_option (some a) = a ∷ []

abbrev pub of_list : {A : Type 0} → Option (List A) → List A
of_list none = []
of_list (some items) = items

pub record PostgresSpec : Type 0 where
  pub tier : Option Text
  pub version : Option Text
  pub backup_retention_days : Option ℕ

-- `days == 0` of the days that are given
abbrev pub retention_errors : Option ℕ → List ValidationError
retention_errors none = []
retention_errors (some days) =
    require (not (days == 0)) "infrastructure.postgres.backup_retention_days must be > 0"

pub record BucketSpec : Type 0 where
  pub name : Text
  pub public : Bool

pub record DnsRecordSpec : Type 0 where
  pub host : Text
  pub record_type : String

pub record SecretSpec : Type 0 where
  pub name : Text
  pub description : Option Text

pub record InfrastructureSpec : Type 0 where
  pub postgres : Option PostgresSpec
  pub buckets : Option (List BucketSpec)
  pub dns : Option (List DnsRecordSpec)
  pub secrets : Option (List SecretSpec)

unfoldable pub postgres_errors : PostgresSpec → List ValidationError
unfolding is_safe_provider_value
postgres_errors p =
    require_some is_safe_provider_value p.tier "infrastructure.postgres.tier must contain only {}"
    ++ (require_some is_safe_provider_value p.version
          "infrastructure.postgres.version must contain only {}"
        ++ retention_errors p.backup_retention_days)

unfoldable pub bucket_errors : BucketSpec → List ValidationError
unfolding is_safe_terraform_name
bucket_errors b =
    require (is_safe_terraform_name b.name) "infrastructure.buckets[].name must contain only {}"

-- `valid_types.contains(..)`
abbrev pub is_record_type : String → Bool
is_record_type t = (t == "A") || (t == "CNAME") || (t == "TXT")

unfoldable pub record_errors : DnsRecordSpec → List ValidationError
unfolding is_safe_dns_host
record_errors r =
    require (is_safe_dns_host r.host) "infrastructure.dns[].host must contain only {}"
    ++ require (is_record_type r.record_type) "infrastructure.dns[].type must be one of {:?}"

unfoldable pub secret_errors : SecretSpec → List ValidationError
unfolding is_safe_terraform_name is_safe_hcl_string
secret_errors s =
    require (is_safe_terraform_name s.name) "infrastructure.secrets[].name must contain only {}"
    ++ require_some is_safe_hcl_string s.description
        "infrastructure.secrets[].description must not contain HCL metacharacters or control characters"

-- `InfrastructureSpec::validate`, with the `validate` of each resource
unfoldable pub validate : InfrastructureSpec → Result (Unit {0}) (List ValidationError)
unfolding postgres_errors bucket_errors record_errors secret_errors
validate spec = report (
    for_each (λ p. report (postgres_errors p)) (of_option spec.postgres)
    ++ (for_each (λ b. report (bucket_errors b)) (of_list spec.buckets)
        ++ (for_each (λ r. report (record_errors r)) (of_list spec.dns)
            ++ for_each (λ s. report (secret_errors s)) (of_list spec.secrets))))
