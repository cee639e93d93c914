-- ===== src/Dashboard/Roles/Guard.antt =====
-- The guard of the views. A table is the list of its rows as one query finds them, or nothing if the
-- query fails; two queries of a table may find different rows.
use reinhardt_cloud.Base.{
  ℕ, String, Bool, ◌&&◌, Option, none, some, List, find?, nat_eq, string_eq, ◌==◌, if◌then◌else◌,
}
use reinhardt_cloud.Base.Result.{Result, ok, err, ◌>>=◌}
use reinhardt_cloud.Base.Text.{Text}
use reinhardt_cloud.Types.Basic.{Uuid}
use reinhardt_cloud.Dashboard.Roles.Defs.{MembershipRole, Action, from_db_str, allowed}

pub record Organization : Type 0 where
  pub id : Option ℕ
  pub slug : String

pub record OrganizationMembership : Type 0 where
  pub user_id : Uuid
  pub organization_id : ℕ
  pub role : Text

-- the errors that the guard gives, with their messages
pub data AppError : Type 0 where
  authorization : String → AppError
  internal : String → AppError

abbrev pub Table : Type 0 → Type 0
Table A = Option (List A)

-- `objects().filter(..).first()`, whose failure becomes an internal error
abbrev pub first : {A : Type 0} → Table A → (A → Bool) → Result (Option A) AppError
first none p = err (internal "Internal server error")
first (some rows) p = ok (find? p rows)

abbrev pub is_membership : Uuid → ℕ → OrganizationMembership → Bool
is_membership user_id organization_id m =
    (m.user_id == user_id) && (m.organization_id == organization_id)

-- `ok_or_else`
abbrev pub ok_or : {A : Type 0} → AppError → Option A → Result A AppError
ok_or e none = err e
ok_or e (some a) = ok a

abbrev pub access_denied : AppError
access_denied = authorization "Organization not found or access denied"

unfoldable pub resolve_org_by_slug :
    Table Organization → Table OrganizationMembership → Uuid → String → Result ℕ AppError
resolve_org_by_slug organizations memberships user_id slug = do
  found ← first organizations (λ org. org.slug == slug)
  org ← ok_or access_denied found
  org_id ← ok_or (internal "Internal server error") org.id
  membership ← first memberships (is_membership user_id org_id)
  member ← ok_or access_denied membership
  ok org_id

-- the role of a membership that was found
abbrev pub role_of : Option OrganizationMembership → Result (Option MembershipRole) AppError
role_of none = ok none
role_of (some m) = elim (from_db_str m.role) [
  | none ↦ err (internal "Internal server error")
  | some role ↦ ok (some role)
]

unfoldable pub resolve_membership_role :
    Table OrganizationMembership → Uuid → ℕ → Result (Option MembershipRole) AppError
unfolding from_db_str
resolve_membership_role memberships user_id organization_id = do
  membership ← first memberships (is_membership user_id organization_id)
  role_of membership

-- the last test
abbrev pub permit : MembershipRole → Action → ℕ → Result ℕ AppError
permit role action organization_id =
    if allowed role action
    then ok organization_id
    else err (authorization "Role '{}' is not permitted to perform this action")

-- the memberships are queried twice
unfoldable pub require_permission_for_org :
    Table Organization
    → Table OrganizationMembership
    → Table OrganizationMembership
    → Uuid
    → String
    → Action
    → Result ℕ AppError
unfolding resolve_org_by_slug resolve_membership_role allowed
require_permission_for_org organizations memberships memberships' user_id org_slug action = do
  organization_id ← resolve_org_by_slug organizations memberships user_id org_slug
  found ← resolve_membership_role memberships' user_id organization_id
  role ← ok_or (authorization "User is not a member of the target organization") found
  permit role action organization_id
