-- ===== src/Dashboard/Roles/Granted.antt =====
-- What a permission that is granted rests on, and what a refusal tells.
use reinhardt_cloud.Base.{
  ℕ, String, Bool, true, Option, none, some, List, find?, ◌≡◌, ◌⊎◌, refl, ◌∙◌, ap, subst, inl, inr,
  arith, string_eq, ◌==◌,
}
use reinhardt_cloud.Base.Result.{ok, err, bind-eq_ok, ok-injective}
use reinhardt_cloud.Types.Basic.{Uuid}
use reinhardt_cloud.Dashboard.Roles.Defs.{MembershipRole, Action, from_db_str, allowed}
use reinhardt_cloud.Dashboard.Roles.Guard.{
  Organization, OrganizationMembership, AppError, authorization, internal, Table, first,
  is_membership, ok_or, access_denied, resolve_org_by_slug, role_of, resolve_membership_role,
  permit, require_permission_for_org,
}

-- the first row of a table that passes a test
abbrev pub Finds : {A : Type 0} → Table A → (A → Bool) → A → Type 0
Finds {A} t p a = (rows : List A) × ((t ≡ some rows) × (find? p rows ≡ some a))

first-eq_ok :
    {A : Type 0} (t : Table A) (p : A → Bool) (a : A) → first t p ≡ ok (some a) → Finds t p a
first-eq_ok none p a h = absurd (ground (arith, h))
first-eq_ok (some rows) p a h = (rows, (refl, ok-injective _ _ h))

ok_or-eq_ok : {A : Type 0} (e : AppError) (o : Option A) (a : A) → ok_or e o ≡ ok a → o ≡ some a
ok_or-eq_ok e none a h = absurd (ground (arith, h))
ok_or-eq_ok e (some b) a h = ap some (ok-injective b a h)

role_of-eq_ok :
    (o : Option OrganizationMembership) (role : MembershipRole)
    → role_of o ≡ ok (some role)
    → (m : OrganizationMembership) × ((o ≡ some m) × (from_db_str m.role ≡ some role))
role_of-eq_ok none role h = absurd (ground (arith, h))
role_of-eq_ok (some m) role h = (m, (refl, ground (arith, h)))

permit-eq_ok :
    (role : MembershipRole) (action : Action) (organization_id id : ℕ)
    → permit role action organization_id ≡ ok id
    → (organization_id ≡ id) × (allowed role action ≡ true)
permit-eq_ok role action organization_id id h = ground (arith, h)

module _ (organizations : Table Organization)
    (memberships memberships' : Table OrganizationMembership) (user_id : Uuid) (org_slug : String)
    (action : Action) where
  -- the organization has the slug, the user is a member of it with this role, and the role may act
  abbrev pub IsGranted : ℕ → Type 0
  IsGranted id =
      (org : Organization) × ((Finds organizations (λ o. o.slug == org_slug) org
          × (org.id ≡ some id))
        × ((m : OrganizationMembership) × (Finds memberships' (is_membership user_id id) m
              × ((role : MembershipRole) × ((from_db_str m.role ≡ some role)
                    × (allowed role action ≡ true))))))

  resolved :
      (id : ℕ)
      → resolve_org_by_slug organizations memberships user_id org_slug ≡ ok id
      → (org : Organization) × (Finds organizations (λ o. o.slug == org_slug) org
          × (org.id ≡ some id))
  unfolding resolve_org_by_slug
  resolved id h =
      let (found, (a, h1)) = bind-eq_ok (first organizations (λ o. o.slug == org_slug)) _ id h in
      let (org, (b, h2)) = bind-eq_ok (ok_or access_denied found) _ id h1 in
      let (org_id, (c, h3)) =
        bind-eq_ok (ok_or (internal "Internal server error") org.id) _ id h2 in
      let (membership, (_, h4)) =
        bind-eq_ok (first memberships (is_membership user_id org_id)) _ id h3 in
      let (member, (_, h5)) = bind-eq_ok (ok_or access_denied membership) _ id h4 in
      let there =
        subst (λ o. first organizations (λ o. o.slug == org_slug) ≡ ok o)
          (ok_or-eq_ok access_denied found org b) a in
      (
        org,
        (
          first-eq_ok organizations (λ o. o.slug == org_slug) org there,
          ok_or-eq_ok _ org.id org_id c ∙ ap some (ok-injective org_id id h5),
        ),
      )

  -- The guard lets a request through, with the number of an organization, only if that organization
  -- has the slug of the request and the user has a membership in it whose role may do the action.
  pub require_permission_for_org-IsGranted :
      (id : ℕ)
      → require_permission_for_org organizations memberships memberships' user_id org_slug action
        ≡ ok id
      → IsGranted id
  unfolding require_permission_for_org resolve_membership_role
  require_permission_for_org-IsGranted id h =
      let (org_id, (a, h1)) =
        bind-eq_ok (resolve_org_by_slug organizations memberships user_id org_slug) _ id h in
      let (found, (b, h2)) =
        bind-eq_ok (resolve_membership_role memberships' user_id org_id) _ id h1 in
      let (role, (c, h3)) =
        bind-eq_ok (ok_or (authorization "User is not a member of the target organization") found) _
          id h2 in
      let (same, may) = permit-eq_ok role action org_id id h3 in
      let (org, org_found) = resolved id (a ∙ ap ok same) in
      let (membership, (d, e)) =
        bind-eq_ok (first memberships' (is_membership user_id org_id)) role_of found b in
      let (m, (at, named)) =
        role_of-eq_ok membership role (e ∙ ap ok (ok_or-eq_ok _ found role c)) in
      let member = first-eq_ok memberships' (is_membership user_id org_id) m (d ∙ ap ok at) in
      (
        org,
        (
          org_found,
          (
            m,
            (
              subst (λ i. Finds memberships' (is_membership user_id i) m) same member,
              (role, (named, may)),
            ),
          ),
        ),
      )

  -- Whoever asks for an organization that does not exist gets the same refusal as one who asks for an
  -- organization without being a member of it.
  pub require_permission_for_org-denied :
      (rows : List Organization) (members : List OrganizationMembership)
      → organizations ≡ some rows
      → memberships ≡ some members
      → (find? (λ o. o.slug == org_slug) rows ≡ none)
        ⊎ ((org : Organization) × ((id : ℕ) × ((find? (λ o. o.slug == org_slug) rows ≡ some org)
                × (org.id ≡ some id)
                × (find? (is_membership user_id id) members ≡ none))))
      → require_permission_for_org organizations memberships memberships' user_id org_slug action
        ≡ err access_denied
  unfolding require_permission_for_org resolve_org_by_slug
  require_permission_for_org-denied rows members o m (inl unknown) =
      rw (o, unknown, require_permission_for_org) refl
  require_permission_for_org-denied rows members o m (inr (org, (id, (found, has_id, stranger)))) =
      rw (o, found, has_id, m, stranger, require_permission_for_org) refl
