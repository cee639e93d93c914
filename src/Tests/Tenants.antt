-- ===== src/Tests/Tenants.antt =====
-- Tenants, slugs and names of clusters.
use reinhardt_cloud.Base.{◌≡◌, ◌≤◌, ◌↔◌, arith, none, some, [], ◌∷◌, ◌++◌, length}
use reinhardt_cloud.Base.Result.{ok}
use reinhardt_cloud.Base.Text.{Text, dash, last}
use reinhardt_cloud.Types.Label.{IsDnsLabel}
use reinhardt_cloud.Types.Tenant.{TenantRef, namespace, validate}
use reinhardt_cloud.Types.Tenant.Namespace.{IsTeam, validate_iff, namespace-shared}
use reinhardt_cloud.Dashboard.Slugs.Label.{IsLabel, validate_slug_lem}
use reinhardt_cloud.Dashboard.Slugs.Tenants.{validate-validate_slug}

-- "acme" and "web"
abbrev acme : Text
acme = 97 ∷ 99 ∷ 109 ∷ 101 ∷ []

abbrev web : Text
web = 119 ∷ 101 ∷ 98 ∷ []

abbrev tenant : TenantRef
tenant = record { organization = acme; team = some web }

validate_iff_example :
    ((validate tenant ≡ ok tt)
      ↔ (IsDnsLabel acme × IsTeam (some web) × (length (namespace tenant) ≤ 63)))
    × (validate tenant ≡ ok tt → IsDnsLabel (namespace tenant))
validate_iff_example = validate_iff tenant

acme-IsDnsLabel : IsDnsLabel acme
unfolding last
acme-IsDnsLabel = ground arith

web-IsDnsLabel : IsDnsLabel web
unfolding last
web-IsDnsLabel = ground arith

short : length (namespace tenant) ≤ 63
unfolding namespace
short = ground arith

tenant_passes : validate tenant ≡ ok tt
tenant_passes = (validate_iff tenant).0.1 (acme-IsDnsLabel, web-IsDnsLabel, short)

namespace-shared_example :
    (validate (record { organization = acme ++ dash ∷ web; team = none }) ≡ ok tt)
    × (namespace (record { organization = acme ++ dash ∷ web; team = none }) ≡ namespace tenant)
    × (Path TenantRef (record { organization = acme ++ dash ∷ web; team = none }) tenant → ⊥)
namespace-shared_example = namespace-shared acme web tenant_passes

acme-IsLabel : IsLabel acme
unfolding last
acme-IsLabel = ground arith

validate-validate_slug_example :
    (validate (record { organization = acme; team = none }) ≡ ok tt) ↔ (length acme ≤ 56)
validate-validate_slug_example =
    validate-validate_slug acme ((validate_slug_lem acme).1 acme-IsLabel)
