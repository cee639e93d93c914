-- ===== src/Types/Tenant.antt =====
-- crates/reinhardt-cloud-types/src/crd/tenant.rs: the tenant that owns a project.
pub mod Namespace
use reinhardt_cloud.Base.{String, Option, none, some, List, [], ◌∷◌, ◌++◌}
use reinhardt_cloud.Base.Result.{Result, ok, err}
use reinhardt_cloud.Base.Text.{Text, dash}
use reinhardt_cloud.Types.Validation.{ValidationError, validate_dns_1123_label}

pub record TenantRef : Type 0 where
  pub organization : Text
  pub team : Option Text

-- "tenant-"
abbrev pub tenant_namespace_prefix : Text
tenant_namespace_prefix = 116 ∷ 101 ∷ 110 ∷ 97 ∷ 110 ∷ 116 ∷ dash ∷ []

unfoldable pub namespace : TenantRef → Text
namespace t = elim t.team [
  | none ↦ tenant_namespace_prefix ++ t.organization
  | some team ↦ tenant_namespace_prefix ++ t.organization ++ dash ∷ team
]

-- the error of a check, under another message
abbrev pub noted : String → Result (Unit {0}) ValidationError → List ValidationError
noted message (ok u) = []
noted message (err e) = record { message = message } ∷ []

-- the checks of the two slugs
unfoldable pub slug_errors : TenantRef → List ValidationError
unfolding validate_dns_1123_label
slug_errors t =
    noted "tenant.organization {}" (validate_dns_1123_label t.organization) ++ elim t.team [
      | none ↦ List.[]
      | some team ↦ noted "tenant.team {}" (validate_dns_1123_label team)
    ]

unfoldable pub validate : TenantRef → Result (Unit {0}) (List ValidationError)
unfolding namespace slug_errors validate_dns_1123_label
validate t = elim (slug_errors t) [
  | [] ↦ elim (noted "tenant namespace {} ({})" (validate_dns_1123_label (namespace t))) [
    | [] ↦ ok tt
    | ◌∷◌ e es ↦ err (e ∷ es)
  ]
  | ◌∷◌ e es ↦ err (e ∷ es)
]
