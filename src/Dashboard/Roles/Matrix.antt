-- ===== src/Dashboard/Roles/Matrix.antt =====
-- The matrix follows the order of the roles, and the names of roles are read back.
use reinhardt_cloud.Base.{ℕ, true, some, [], ◌∷◌, map, ◌≡◌, refl, ap, arith}
use reinhardt_cloud.Base.Text.{Text, to_ascii_lowercase, is_ascii_uppercase}
use reinhardt_cloud.Dashboard.Roles.Defs.{
  MembershipRole, viewer, developer, admin, owner, rank, can, Action, allowed, as_db_str, text_beq,
  role_named, from_db_str,
}

-- A role that is at least another may do whatever the other may do.
pub allowed-can :
    (role required : MembershipRole) (action : Action)
    → can role required ≡ true
    → allowed required action ≡ true
    → allowed role action ≡ true
unfolding allowed can rank
allowed-can role required action h a = ground (arith, h, a)

lower_twice : (c : ℕ) → to_ascii_lowercase (to_ascii_lowercase c) ≡ to_ascii_lowercase c
unfolding to_ascii_lowercase is_ascii_uppercase
lower_twice c = ground arith

lowered_twice :
    (s : Text) → map to_ascii_lowercase (map to_ascii_lowercase s) ≡ map to_ascii_lowercase s
lowered_twice [] = refl
lowered_twice (c ∷ s) = rw (lower_twice c) (ap (λ l. to_ascii_lowercase c ∷ l) (lowered_twice s))

read_back : (role : MembershipRole) → from_db_str (as_db_str role) ≡ some role
unfolding from_db_str as_db_str role_named text_beq to_ascii_lowercase is_ascii_uppercase
read_back viewer = refl
read_back developer = refl
read_back admin = refl
read_back owner = refl

-- The stored form of a role is read back as the role, and upper or lower case makes no difference to
-- how a text is read.
pub from_db_str-as_db_str :
    (role : MembershipRole) (s : Text)
    → (from_db_str (as_db_str role) ≡ some role)
      × (from_db_str (map to_ascii_lowercase s) ≡ from_db_str s)
unfolding from_db_str
from_db_str-as_db_str role s = (read_back role, ap role_named (lowered_twice s))
