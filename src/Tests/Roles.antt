-- ===== src/Tests/Roles.antt =====
-- An organization with one member.
use reinhardt_cloud.Base.{true, none, some, List, [], ◌∷◌, find?, string_eq, ◌==◌, ◌≡◌, refl, inl}
use reinhardt_cloud.Base.Result.{ok, err}
use reinhardt_cloud.Base.Text.{to_ascii_lowercase, is_ascii_uppercase}
use reinhardt_cloud.Dashboard.Roles.Defs
use reinhardt_cloud.Dashboard.Roles.Defs.{
  can, allowed, as_db_str, from_db_str, role_named, text_beq, rank,
}
use reinhardt_cloud.Dashboard.Roles.Guard.{
  Organization, OrganizationMembership, access_denied, resolve_org_by_slug, resolve_membership_role,
  require_permission_for_org,
}
use reinhardt_cloud.Dashboard.Roles.Granted.{
  IsGranted, require_permission_for_org-IsGranted, require_permission_for_org-denied,
}

outranks : can Defs.admin Defs.viewer ≡ true
unfolding can rank
outranks = refl

reads : allowed Defs.viewer Defs.logs_read ≡ true
unfolding allowed
reads = refl

abbrev organizations : List Organization
organizations = record { id = some 5; slug = "acme" } ∷ []

abbrev members : List OrganizationMembership
members = record { user_id = 1; organization_id = 5; role = as_db_str Defs.developer } ∷ []

let_through :
    require_permission_for_org
      (some organizations)
      (some members)
      (some members)
      1
      "acme"
      Defs.logs_read
    ≡ ok 5
unfolding require_permission_for_org resolve_org_by_slug resolve_membership_role from_db_str
    role_named text_beq as_db_str allowed to_ascii_lowercase is_ascii_uppercase
let_through = refl

require_permission_for_org-IsGranted_example :
    IsGranted (some organizations) (some members) (some members) 1 "acme" Defs.logs_read 5
require_permission_for_org-IsGranted_example =
    require_permission_for_org-IsGranted (some organizations) (some members) (some members) 1 "acme"
      Defs.logs_read 5 let_through

nowhere : find? (λ (o : Organization). o.slug == "other") organizations ≡ none
nowhere = refl

require_permission_for_org-denied_example :
    require_permission_for_org
      (some organizations)
      (some members)
      (some members)
      1
      "other"
      Defs.logs_read
    ≡ err access_denied
require_permission_for_org-denied_example =
    require_permission_for_org-denied (some organizations) (some members) (some members) 1 "other"
      Defs.logs_read organizations members refl refl (inl nowhere)
