-- ===== src/Dashboard/Slugs/Tenants.antt =====
-- The organizations of the dashboard as tenants of the operator.
use reinhardt_cloud.Base.{◌≤◌, ◌≡◌, ◌↔◌, none, [], ◌∷◌, length, All-imp, inl, arith}
use reinhardt_cloud.Base.Result.{ok}
use reinhardt_cloud.Base.Text.{Text}
use reinhardt_cloud.Types.Label.{IsLabelByte, IsDnsLabel}
use reinhardt_cloud.Types.Tenant.{namespace, validate}
use reinhardt_cloud.Types.Tenant.Namespace.{validate_iff}
use reinhardt_cloud.Dashboard.Slugs.Defs.{validate_slug}
use reinhardt_cloud.Dashboard.Slugs.Label.{IsLabel, IsSlugByte, validate_slug_lem}

IsLabel-IsDnsLabel : (s : Text) → IsLabel s → IsDnsLabel s
IsLabel-IsDnsLabel [] none_there = absurd none_there
IsLabel-IsDnsLabel (first ∷ rest) (short, letter, ends, bytes) = (
  short,
  inl letter,
  ends,
  All-imp IsSlugByte IsLabelByte (first ∷ rest) (λ b h. ground (arith, h)) bytes,
)

-- The tenant of an organization whose slug the dashboard accepts, without a team, is valid exactly
-- if the slug has 56 characters at most. The dashboard accepts slugs of up to 63.
pub validate-validate_slug :
    (s : Text)
    → validate_slug s ≡ ok tt
    → (validate (record { organization = s; team = none }) ≡ ok tt) ↔ (length s ≤ 56)
unfolding namespace
validate-validate_slug s h =
    let label = IsLabel-IsDnsLabel s ((validate_slug_lem s).0 h) in
    let valid = (validate_iff (record { organization = s; team = none })).0 in
    (
      λ e. let (_, _, short) = valid.0 e in omega (arith, short),
      λ short. valid.1 (label, tt, omega (arith, short)),
    )
