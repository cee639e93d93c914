-- ===== src/Types/Tenant/Namespace.antt =====
-- Which tenants are valid, and which share a namespace.
use mathlib.Core.List.{append_assoc}
use reinhardt_cloud.Base.{
  append-nil_iff, ℕ, ◌≤◌, ◌≡◌, ◌↔◌, refl, sym, ap, subst, inr, Option, none, some, List, [], ◌∷◌,
  ◌++◌, length, String, All, All-append, arith,
}
use reinhardt_cloud.Base.Result.{Result, ok, err}
use reinhardt_cloud.Base.Text.{Text, dash, last}
use reinhardt_cloud.Types.Validation.{ValidationError, validate_dns_1123_label}
use reinhardt_cloud.Types.Label.{
  IsAlphanumeric, IsLabelByte, IsDnsLabel, last-append, validate_dns_1123_label_iff,
}
use reinhardt_cloud.Types.Tenant.{
  TenantRef, tenant_namespace_prefix, namespace, noted, slug_errors, validate,
}

-- the slug of the team, if there is one, is a label
abbrev pub IsTeam : Option Text → Type 0
IsTeam none = Unit
IsTeam (some team) = IsDnsLabel team

noted-nil :
    (message : String) (r : Result (Unit {0}) ValidationError)
    → (noted message r ≡ []) ↔ (r ≡ ok tt)
noted-nil message (ok tt) = (λ _. refl, λ _. refl)
noted-nil message (err e) = (λ h. absurd (ground (arith, h)), λ h. absurd (ground (arith, h)))

noted_iff :
    (message : String) (s : Text) → (noted message (validate_dns_1123_label s) ≡ []) ↔ IsDnsLabel s
noted_iff message s =
    let empty = noted-nil message (validate_dns_1123_label s) in
    let label = validate_dns_1123_label_iff s in
    (λ h. label.0 (empty.0 h), λ h. empty.1 (label.1 h))

-- a text after the prefix, or after a slug and a dash: its bytes and its last one
label-append :
    (c : ℕ) (pre s : Text)
    → IsAlphanumeric c
    → All IsLabelByte (c ∷ pre)
    → IsDnsLabel s
    → length ((c ∷ pre) ++ s) ≤ 63
    → IsDnsLabel ((c ∷ pre) ++ s)
label-append c pre [] a bytes none_there short = absurd none_there
label-append c pre (d ∷ ds) a bytes (_, _, z, rest) short = (
  short,
  a,
  subst IsAlphanumeric (sym (last-append c pre d ds)) z,
  All-append IsLabelByte (c ∷ pre) (d ∷ ds) bytes rest,
)

-- the errors of the team's slug
abbrev team_errors : Option Text → List ValidationError
team_errors o = elim o [
  | none ↦ List.[]
  | some team ↦ noted "tenant.team {}" (validate_dns_1123_label team)
]

IsTeam-iff : (o : Option Text) → (team_errors o ≡ []) ↔ IsTeam o
IsTeam-iff none = (λ _. tt, λ _. refl)
IsTeam-iff (some team) = noted_iff "tenant.team {}" team

slug_errors_iff :
    (t : TenantRef) → (slug_errors t ≡ []) ↔ (IsDnsLabel t.organization × IsTeam t.team)
unfolding slug_errors
slug_errors_iff t =
    let both =
      append-nil_iff (noted "tenant.organization {}" (validate_dns_1123_label t.organization))
        (team_errors t.team) in
    let own = noted_iff "tenant.organization {}" t.organization in
    let team = IsTeam-iff t.team in
    (λ h. let (a, b) = both.0 h in (own.0 a, team.0 b), λ h. both.1 (own.1 h.0, team.1 h.1))

-- what is made of the two lists of errors
checked_iff :
    (es fs : List ValidationError)
    → (Path
        (Result (Unit {0}) (List ValidationError))
        (elim es [
          | [] ↦ elim fs [ [] ↦ ok tt | ◌∷◌ e rest ↦ err (e ∷ rest) ]
          | ◌∷◌ e rest ↦ err (e ∷ rest)
        ])
        (ok tt))
      ↔ ((es ≡ []) × (fs ≡ []))
checked_iff [] [] = (λ _. (refl, refl), λ _. refl)
checked_iff [] (f ∷ fs) = ground arith
checked_iff (e ∷ es) fs = ground arith

prefix-IsLabelByte : All IsLabelByte tenant_namespace_prefix
prefix-IsLabelByte = ground arith

label-bytes : (s : Text) → IsDnsLabel s → All IsLabelByte s
label-bytes [] none_there = absurd none_there
label-bytes (d ∷ ds) (_, _, _, bytes) = bytes

-- the prefix after its first byte
abbrev rest_of_prefix : Text
rest_of_prefix = 101 ∷ 110 ∷ 97 ∷ 110 ∷ 116 ∷ dash ∷ []

namespace-IsDnsLabel :
    (org : Text) (team : Option Text)
    → IsDnsLabel org
    → IsTeam team
    → length (namespace (record { organization = org; team = team })) ≤ 63
    → IsDnsLabel (namespace (record { organization = org; team = team }))
unfolding namespace
namespace-IsDnsLabel org none own team short =
    label-append 116 rest_of_prefix org (ground arith) prefix-IsLabelByte own short
namespace-IsDnsLabel org (some team) own label short =
    let joined : org ++ (dash ∷ []) ++ team ≡ org ++ dash ∷ team =
      append_assoc org (dash ∷ []) team in
    let bytes =
      All-append IsLabelByte tenant_namespace_prefix (org ++ (dash ∷ [])) prefix-IsLabelByte
        (All-append IsLabelByte org (dash ∷ []) (label-bytes org own) (inr refl, tt)) in
    subst (λ l. IsDnsLabel (tenant_namespace_prefix ++ l)) joined
      (label-append 116 (rest_of_prefix ++ org ++ (dash ∷ [])) team (ground arith) bytes label
        (subst (λ l. length (tenant_namespace_prefix ++ l) ≤ 63) (sym joined) short))

short_of :
    (org : Text) (team : Option Text)
    → IsDnsLabel (namespace (record { organization = org; team = team }))
    → length (namespace (record { organization = org; team = team })) ≤ 63
unfolding namespace
short_of org none (short, _, _, _) = short
short_of org (some team) (short, _, _, _) = short

-- A tenant is valid exactly if the slugs of its organization and of its team, if it has one, are
-- DNS-1123 labels and the namespace has 63 characters at most; then the namespace is a label too.
pub validate_iff :
    (t : TenantRef)
    → ((validate t ≡ ok tt)
        ↔ (IsDnsLabel t.organization × IsTeam t.team × (length (namespace t) ≤ 63)))
      × (validate t ≡ ok tt → IsDnsLabel (namespace t))
unfolding validate
validate_iff t =
    let lists =
      checked_iff (slug_errors t)
        (noted "tenant namespace {} ({})" (validate_dns_1123_label (namespace t))) in
    let slugs = slug_errors_iff t in
    let whole = noted_iff "tenant namespace {} ({})" (namespace t) in
    let labelled : validate t ≡ ok tt → IsDnsLabel (namespace t) = λ h. whole.0 (lists.0 h).1 in
    (
      (
        λ h.
            let (own, team) = slugs.0 (lists.0 h).0 in
            (own, team, short_of t.organization t.team (labelled h)),
        λ h.
            let (own, team, short) = h in
            lists.1 (
              slugs.1 (own, team),
              whole.1 (namespace-IsDnsLabel t.organization t.team own team short),
            ),
      ),
      labelled,
    )

-- a label, a dash and a label are a label, if it is short enough
join-IsDnsLabel :
    (a b : Text)
    → IsDnsLabel a
    → IsDnsLabel b
    → length (a ++ dash ∷ b) ≤ 63
    → IsDnsLabel (a ++ dash ∷ b)
unfolding last
join-IsDnsLabel [] b none_there lb short = absurd none_there
join-IsDnsLabel (c ∷ cs) [] la none_there short = absurd none_there
join-IsDnsLabel (c ∷ cs) (d ∷ ds) (short_a, a, z, bytes) (short_b, b, y, others) short = (
  short,
  a,
  subst IsAlphanumeric (sym (last-append c cs dash (d ∷ ds))) y,
  All-append IsLabelByte (c ∷ cs) (dash ∷ d ∷ ds) bytes (inr refl, others),
)

-- Wherever a team of an organization is a valid tenant, the organization whose slug is the two slugs
-- with a dash between them is a valid tenant too, is another tenant, and has the same namespace.
pub namespace-shared :
    (a b : Text)
    → validate (record { organization = a; team = some b }) ≡ ok tt
    → (validate (record { organization = a ++ dash ∷ b; team = none }) ≡ ok tt)
      × (namespace (record { organization = a ++ dash ∷ b; team = none })
          ≡ namespace (record { organization = a; team = some b }))
      × (Path TenantRef
            (record { organization = a ++ dash ∷ b; team = none })
            (record { organization = a; team = some b })
          → ⊥)
unfolding namespace
namespace-shared a b h =
    let (own, team, short) = (validate_iff (record { organization = a; team = some b })).0.0 h in
    (
      (validate_iff (record { organization = a ++ dash ∷ b; team = none })).0.1
          (join-IsDnsLabel a b own team (omega (arith, short)), tt, short),
      refl,
      λ e. absurd (ground (arith, ap (λ t. t.team) e)),
    )
