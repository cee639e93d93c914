-- ===== src/Types/Infrastructure/Safe.antt =====
-- What the validation keeps out of a Terraform file.
use reinhardt_cloud.Base.{
  ℕ, ◌≤◌, ◌<◌, String, Bool, true, false, not, Option, none, some, List, [], ◌∷◌, ◌≡◌, ◌≢◌, ◌⊎◌,
  refl, arith, All, append-nil_iff, all, any, nat_eq, string_eq, ◌==◌, eq_iff,
}
use reinhardt_cloud.Base.Result.{ok}
use reinhardt_cloud.Base.Text.{
  Text, is_ascii_alphanumeric, is_ascii_lowercase, is_ascii_uppercase, is_ascii_digit,
}
use reinhardt_cloud.Types.Validation.{ValidationError}
use reinhardt_cloud.Types.Infrastructure.{
  is_name_byte, is_safe_terraform_name, is_provider_byte, is_safe_provider_value, is_host_byte,
  is_safe_dns_host, is_hcl_byte, is_safe_hcl_string, require, require_some, report, extended_by,
  for_each, of_option, of_list, PostgresSpec, BucketSpec, DnsRecordSpec, SecretSpec,
  InfrastructureSpec, retention_errors, postgres_errors, bucket_errors, is_record_type,
  record_errors, secret_errors, validate,
}

-- no ASCII control character, quote, backslash, brace or dollar; the bytes from 128 on, of which the
-- control characters beyond ASCII are made, are left in
abbrev pub IsPlain : ℕ → Type 0
IsPlain b = (32 ≤ b) × ((b ≢ 127) × ((b ≢ 34) × ((b ≢ 92) × ((b ≢ 123) × ((b ≢ 125) × (b ≢ 36))))))

-- none of these, and an ASCII character
abbrev pub IsPlainAscii : ℕ → Type 0
IsPlainAscii b = IsPlain b × (b < 128)

name-IsPlainAscii : (b : ℕ) → is_name_byte b ≡ true → IsPlainAscii b
unfolding is_ascii_alphanumeric is_ascii_lowercase is_ascii_uppercase is_ascii_digit
name-IsPlainAscii b h = ground (arith, h)

provider-IsPlainAscii : (b : ℕ) → is_provider_byte b ≡ true → IsPlainAscii b
unfolding is_ascii_alphanumeric is_ascii_lowercase is_ascii_uppercase is_ascii_digit
provider-IsPlainAscii b h = ground (arith, h)

host-IsPlainAscii : (b : ℕ) → is_host_byte b ≡ true → IsPlainAscii b
unfolding is_ascii_alphanumeric is_ascii_lowercase is_ascii_uppercase is_ascii_digit
host-IsPlainAscii b h = ground (arith, h)

hcl-IsPlain : (b : ℕ) → is_hcl_byte b ≡ false → IsPlain b
hcl-IsPlain b h = ground (arith, h)

all-IsPlainAscii :
    (p : ℕ → Bool)
    → ((b : ℕ) → p b ≡ true → IsPlainAscii b)
    → (s : Text) → all p s ≡ true
    → All IsPlainAscii s
all-IsPlainAscii p plain [] h = tt
all-IsPlainAscii p plain (b ∷ s) h =
    (plain b (ground (arith, h)), all-IsPlainAscii p plain s (ground (arith, h)))

any-IsPlain : (s : Text) → any is_hcl_byte s ≡ false → All IsPlain s
any-IsPlain [] h = tt
any-IsPlain (b ∷ s) h = (hcl-IsPlain b (ground (arith, h)), any-IsPlain s (ground (arith, h)))

name_lem : (s : Text) → is_safe_terraform_name s ≡ true → All IsPlainAscii s
unfolding is_safe_terraform_name
name_lem s h = all-IsPlainAscii is_name_byte name-IsPlainAscii s (ground (arith, h))

provider_lem : (s : Text) → is_safe_provider_value s ≡ true → All IsPlainAscii s
unfolding is_safe_provider_value
provider_lem s h = all-IsPlainAscii is_provider_byte provider-IsPlainAscii s (ground (arith, h))

host_lem : (s : Text) → is_safe_dns_host s ≡ true → All IsPlainAscii s
unfolding is_safe_dns_host
host_lem s h = all-IsPlainAscii is_host_byte host-IsPlainAscii s (ground (arith, h))

hcl_lem : (s : Text) → is_safe_hcl_string s ≡ true → All IsPlain s
unfolding is_safe_hcl_string
hcl_lem s h = any-IsPlain s (ground (arith, h))

require-nil : (b : Bool) (message : String) → require b message ≡ [] → b ≡ true
require-nil true message h = refl
require-nil false message h = absurd (ground (arith, h))

-- a text that is given is made of such bytes
abbrev pub IsIfGiven : (ℕ → Type 0) → Option Text → Type 0
IsIfGiven P none = Unit {0}
IsIfGiven P (some s) = All P s

require_some-nil :
    (P : ℕ → Type 0) (test : Text → Bool)
    → ((s : Text) → test s ≡ true → All P s)
    → (o : Option Text) (message : String) → require_some test o message ≡ []
    → IsIfGiven P o
require_some-nil P test plain none message h = tt
require_some-nil P test plain (some s) message h = plain s (require-nil (test s) message h)

-- the backups, if they are asked for, are kept for a day at least
abbrev pub IsKept : Option ℕ → Type 0
IsKept none = Unit {0}
IsKept (some days) = 1 ≤ days

retention-nil : (o : Option ℕ) → retention_errors o ≡ [] → IsKept o
retention-nil none h = tt
retention-nil (some days) h = ground (arith, require-nil (not (days == 0)) _ h)

abbrev pub IsPlainPostgres : PostgresSpec → Type 0
IsPlainPostgres p =
    IsIfGiven IsPlainAscii p.tier
    × (IsIfGiven IsPlainAscii p.version × IsKept p.backup_retention_days)

abbrev pub IsPlainRecord : DnsRecordSpec → Type 0
IsPlainRecord r =
    All IsPlainAscii r.host
    × ((r.record_type ≡ "A") ⊎ ((r.record_type ≡ "CNAME") ⊎ (r.record_type ≡ "TXT")))

abbrev pub IsPlainSecret : SecretSpec → Type 0
IsPlainSecret s = All IsPlainAscii s.name × IsIfGiven IsPlain s.description

postgres-nil : (p : PostgresSpec) → postgres_errors p ≡ [] → IsPlainPostgres p
unfolding postgres_errors
postgres-nil p h =
    let (a, h') = (append-nil_iff (require_some is_safe_provider_value p.tier _) _).0 h in
    let (b, c) = (append-nil_iff (require_some is_safe_provider_value p.version _) _).0 h' in
    (
      require_some-nil IsPlainAscii is_safe_provider_value provider_lem p.tier _ a,
      (
        require_some-nil IsPlainAscii is_safe_provider_value provider_lem p.version _ b,
        retention-nil p.backup_retention_days c,
      ),
    )

bucket-nil : (b : BucketSpec) → bucket_errors b ≡ [] → All IsPlainAscii b.name
unfolding bucket_errors
bucket-nil b h = name_lem b.name (require-nil (is_safe_terraform_name b.name) _ h)

record_type-cases :
    (t : String) → is_record_type t ≡ true → (t ≡ "A") ⊎ ((t ≡ "CNAME") ⊎ (t ≡ "TXT"))
record_type-cases t h = ground (arith, h, eq_iff t "A", eq_iff t "CNAME", eq_iff t "TXT")

record-nil : (r : DnsRecordSpec) → record_errors r ≡ [] → IsPlainRecord r
unfolding record_errors
record-nil r h =
    let (a, b) = (append-nil_iff (require (is_safe_dns_host r.host) _) _).0 h in
    (
      host_lem r.host (require-nil (is_safe_dns_host r.host) _ a),
      record_type-cases r.record_type (require-nil (is_record_type r.record_type) _ b),
    )

secret-nil : (s : SecretSpec) → secret_errors s ≡ [] → IsPlainSecret s
unfolding secret_errors
secret-nil s h =
    let (a, b) = (append-nil_iff (require (is_safe_terraform_name s.name) _) _).0 h in
    (
      name_lem s.name (require-nil (is_safe_terraform_name s.name) _ a),
      require_some-nil IsPlain is_safe_hcl_string hcl_lem s.description _ b,
    )

report-nil : (es : List ValidationError) → extended_by (report es) ≡ [] → es ≡ []
report-nil [] h = refl
report-nil (e ∷ es) h = h

report-eq_ok : (es : List ValidationError) → report es ≡ ok tt → es ≡ []
report-eq_ok [] h = refl
report-eq_ok (e ∷ es) h = absurd (ground (arith, h))

for_each-nil :
    {A : Type 0} (errors : A → List ValidationError) (P : A → Type 0)
    → ((a : A) → errors a ≡ [] → P a)
    → (items : List A) → for_each (λ a. report (errors a)) items ≡ []
    → All P items
for_each-nil errors P fine [] h = tt
for_each-nil errors P fine (a ∷ rest) h =
    let (here, there) = (append-nil_iff (extended_by (report (errors a))) _).0 h in
    (fine a (report-nil (errors a) here), for_each-nil errors P fine rest there)

-- what ends in a Terraform file
abbrev pub IsPlainSpec : InfrastructureSpec → Type 0
IsPlainSpec spec =
    All IsPlainPostgres (of_option spec.postgres)
    × (All (λ b. All IsPlainAscii b.name) (of_list spec.buckets)
        × (All IsPlainRecord (of_list spec.dns) × All IsPlainSecret (of_list spec.secrets)))

-- In an infrastructure that passes the validation every tier, version, name and host is ASCII, and
-- neither they nor any description have an ASCII control character, a quote, a backslash, a brace or
-- a dollar; each record is of type A, CNAME or TXT; and backups that are asked for are kept for a day
-- at least. A description may hold other characters that are not ASCII.
pub validate-IsPlain : (spec : InfrastructureSpec) → validate spec ≡ ok tt → IsPlainSpec spec
unfolding validate
validate-IsPlain spec h =
    let none_left = report-eq_ok _ h in
    let (p, h1) =
      (append-nil_iff (for_each (λ p. report (postgres_errors p)) (of_option spec.postgres)) _).0
        none_left in
    let (b, h2) =
      (append-nil_iff (for_each (λ b. report (bucket_errors b)) (of_list spec.buckets)) _).0 h1 in
    let (r, s) =
      (append-nil_iff (for_each (λ r. report (record_errors r)) (of_list spec.dns)) _).0 h2 in
    (
      for_each-nil postgres_errors IsPlainPostgres postgres-nil (of_option spec.postgres) p,
      (
        for_each-nil bucket_errors (λ b. All IsPlainAscii b.name) bucket-nil (of_list spec.buckets)
            b,
        (
          for_each-nil record_errors IsPlainRecord record-nil (of_list spec.dns) r,
          for_each-nil secret_errors IsPlainSecret secret-nil (of_list spec.secrets) s,
        ),
      ),
    )
