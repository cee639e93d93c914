-- ===== src/Dashboard/Roles/Defs.antt =====
-- The roles, the actions, and the matrix of the two.
use reinhardt_cloud.Base.{
  ℕ, leb, Bool, true, false, ◌&&◌, Option, none, some, [], ◌∷◌, map, nat_eq, ◌==◌, if◌then◌else◌,
}
use reinhardt_cloud.Base.Text.{Text, to_ascii_lowercase}

pub data MembershipRole : Type 0 where
  viewer developer admin owner : MembershipRole

-- the numbers of the variants, by which the derived order compares
unfoldable pub rank : MembershipRole → ℕ
rank viewer = 0
rank developer = 1
rank admin = 2
rank owner = 3

unfoldable pub can : MembershipRole → MembershipRole → Bool
unfolding rank
can role required = leb (rank required) (rank role)

-- equality of texts, as `match` tests it
unfoldable pub text_beq : Text → Text → Bool
text_beq [] [] = true
text_beq [] (d ∷ ds) = false
text_beq (c ∷ cs) [] = false
text_beq (c ∷ cs) (d ∷ ds) = (c == d) && text_beq cs ds

-- "owner", "admin", "developer" and "viewer"
unfoldable pub as_db_str : MembershipRole → Text
as_db_str owner = 111 ∷ 119 ∷ 110 ∷ 101 ∷ 114 ∷ []
as_db_str admin = 97 ∷ 100 ∷ 109 ∷ 105 ∷ 110 ∷ []
as_db_str developer = 100 ∷ 101 ∷ 118 ∷ 101 ∷ 108 ∷ 111 ∷ 112 ∷ 101 ∷ 114 ∷ []
as_db_str viewer = 118 ∷ 105 ∷ 101 ∷ 119 ∷ 101 ∷ 114 ∷ []

-- the arms of the `match` are the texts of `as_db_str`
unfoldable pub role_named : Text → Option MembershipRole
unfolding text_beq as_db_str
role_named s =
    if text_beq s (as_db_str owner)
    then some owner
    else if text_beq s (as_db_str admin)
    then some admin
    else if text_beq s (as_db_str developer)
    then some developer
    else if text_beq s (as_db_str viewer)
    then some viewer
    else none

unfoldable pub from_db_str : Text → Option MembershipRole
unfolding to_ascii_lowercase role_named
from_db_str s = role_named (map to_ascii_lowercase s)

pub data Action : Type 0 where
  org_read org_update org_delete : Action
  member_invite member_remove member_change_role : Action
  cluster_create cluster_read cluster_update cluster_delete : Action
  deployment_create deployment_read deployment_update deployment_delete : Action
  logs_read : Action

unfoldable pub allowed : MembershipRole → Action → Bool
allowed owner action = true
allowed admin org_delete = false
allowed admin action = true
allowed developer org_read = true
allowed developer org_update = false
allowed developer org_delete = false
allowed developer member_invite = false
allowed developer member_remove = false
allowed developer member_change_role = false
allowed developer cluster_create = true
allowed developer cluster_read = true
allowed developer cluster_update = true
allowed developer cluster_delete = true
allowed developer deployment_create = true
allowed developer deployment_read = true
allowed developer deployment_update = true
allowed developer deployment_delete = true
allowed developer logs_read = true
allowed viewer org_read = true
allowed viewer cluster_read = true
allowed viewer deployment_read = true
allowed viewer logs_read = true
allowed viewer org_update = false
allowed viewer org_delete = false
allowed viewer member_invite = false
allowed viewer member_remove = false
allowed viewer member_change_role = false
allowed viewer cluster_create = false
allowed viewer cluster_update = false
allowed viewer cluster_delete = false
allowed viewer deployment_create = false
allowed viewer deployment_update = false
allowed viewer deployment_delete = false
