-- ===== src/Operator/Status/Steady.antt =====
-- A reconciliation that finds nothing new writes the status that is there.
use reinhardt_cloud.Base.{
  String, Bool, true, false, Option, none, some, List, [], ◌∷◌, ◌≡◌, refl, ap, ◌∙◌, subst, ◌==◌,
  ==_refl, if◌then◌else◌, All, arith, Bool-cases, if_intro, inl, inr,
}
use reinhardt_cloud.Base.Int.{ℤ}
use reinhardt_cloud.Types.Crd.{
  ConditionType, ready, degraded, migration_ready, condition_type_eq, type_beq, type_beq_iff,
  ConditionStatus, is_true, is_false, condition_status_eq, ProjectCondition, ProjectStatus, Project,
}
use reinhardt_cloud.Operator.Conditions.{
  Conditions, find_condition, conditions_of, build_condition, transition_time,
  should_update_transition_time, upsert_project_condition, upsert_all, upsert_present,
  HasDistinctTypes,
}
use reinhardt_cloud.Operator.Status.Defs.{
  MigrationGateState, is_failed, Clock, ready_condition, migration_condition, degraded_failed,
  degraded_cleared, settle_degraded, own_conditions, build_status, condition_status, reason,
  message, ready_reason, ready_message,
}
use reinhardt_cloud.Operator.Status.Found.{AreOfChildren, find-upsert_all_own, degraded_after}
use reinhardt_cloud.Operator.Status.Verdict.{find-build_status}

-- an upsert of conditions that are all there
upsert_all_present :
    (children : List ProjectCondition) (cs : Conditions)
    → All (λ c. find_condition c.type cs ≡ some c) children
    → upsert_all children cs ≡ cs
unfolding upsert_all
upsert_all_present [] cs h = refl
upsert_all_present (c ∷ children) cs h =
    ap (upsert_all children) (upsert_present c cs h.0) ∙ upsert_all_present children cs h.1

still_found :
    (d : ProjectCondition) (cs l : List ProjectCondition)
    → find_condition d.type cs ≡ none
    → All (λ c. find_condition c.type cs ≡ some c) l
    → All (λ c. find_condition c.type (d ∷ cs) ≡ some c) l
unfolding find_condition
still_found d cs [] gone h = tt
still_found d cs (c ∷ l) gone h = (
  elim (Bool-cases (d.type == c.type)) [
    | inl same ↦
        let gone_too : find_condition c.type cs ≡ none =
          subst (λ t. find_condition t cs ≡ none) ((type_beq_iff d.type c.type).0 same) gone in
        absurd (ground (arith, gone_too, h.0))
    | inr other ↦ rw other h.0
  ],
  still_found d cs l gone h.1,
)

distinct_found :
    (cs : List ProjectCondition)
    → HasDistinctTypes cs
    → All (λ c. find_condition c.type cs ≡ some c) cs
unfolding HasDistinctTypes find_condition
distinct_found [] h = tt
distinct_found (d ∷ cs) h =
    (rw (==_refl d.type) refl, still_found d cs cs h.0 (distinct_found cs h.1))

-- the children are all found after they were written
children_found :
    (children l : List ProjectCondition) (cs : Conditions)
    → HasDistinctTypes children
    → All (λ c. find_condition c.type children ≡ some c) l
    → All (λ c. find_condition c.type (upsert_all children cs) ≡ some c) l
children_found children [] cs d h = tt
children_found children (c ∷ l) cs d h =
    (find-upsert_all_own children c.type cs c d h.0, children_found children l cs d h.1)

-- a condition of the same status keeps its time
same_time :
    (c : ProjectCondition) (now : String)
    → transition_time (some c) c.status now ≡ c.last_transition_time
unfolding transition_time should_update_transition_time
same_time c now = rw (==_refl c.status) refl

abbrev pub with_status : Project → ProjectStatus → Project
with_status app status = record app { status = some status }

-- a condition that is built again is the one that is there
again :
    (app : Project) (s : ProjectStatus) (t : ConditionType) (status : ConditionStatus)
    (r m now later : String)
    → find_condition t s.conditions ≡ some (build_condition app t status r m now)
    → build_condition (with_status app s) t status r m later ≡ build_condition app t status r m now
unfolding build_condition
again app s t status r m now later found =
    let c = build_condition app t status r m now in
    let e : transition_time (find_condition t s.conditions) status later ≡ c.last_transition_time =
      rw found (same_time c later) in
    λ i. record c { last_transition_time = e i }

-- which branch of a conditional is taken
first_branch {ℓ} : {A : Type ℓ} (f : Bool) (a b : A) → f ≡ true → (if f then a else b) ≡ a
first_branch f a b h = rw h refl

second_branch {ℓ} :
    {A : Type ℓ} (f r : Bool) (a b c : A)
    → f ≡ false
    → r ≡ true
    → (if f then a else (if r then b else c)) ≡ b
second_branch f r a b c live up = rw (live, up) refl

module _ (app : Project) (is_ready : Bool) (ready_replicas : ℤ) (state : MigrationGateState)
    (children : List ProjectCondition) (clock later : Clock) (own : AreOfChildren children) where
  -- the status written first, its conditions, and the project that has it
  abbrev first : ProjectStatus
  first = build_status app is_ready ready_replicas state children clock

  abbrev next : Project
  next = with_status app first

  ready_kept :
      upsert_project_condition (ready_condition next is_ready state later) first.conditions
      ≡ first.conditions
  unfolding type_beq build_condition
  ready_kept =
      let found =
        find-build_status app is_ready ready_replicas state children clock ready own.not_ready in
      let same =
        again app first ready (if is_ready then is_true else is_false) (ready_reason is_ready state)
          (ready_message is_ready state) (clock ready) (later ready) found in
      ap (λ c. upsert_project_condition c first.conditions) same
      ∙ upsert_present (ready_condition app is_ready state clock) first.conditions found

  migration_kept :
      upsert_project_condition (migration_condition next state later) first.conditions
      ≡ first.conditions
  unfolding type_beq build_condition
  migration_kept =
      let found =
        find-build_status app is_ready ready_replicas state children clock migration_ready
          own.not_migration in
      let same =
        again app first migration_ready (condition_status state) (reason state) (message state)
          (clock migration_ready) (later migration_ready) found in
      ap (λ c. upsert_project_condition c first.conditions) same
      ∙ upsert_present (migration_condition app state clock) first.conditions found

  degraded_found :
      find_condition degraded first.conditions ≡ degraded_after app is_ready clock state
  unfolding type_beq
  degraded_found =
      find-build_status app is_ready ready_replicas state children clock degraded own.not_degraded

  -- after a failed migration
  failed_kept :
      find_condition degraded first.conditions ≡ some (degraded_failed app clock)
      → upsert_project_condition (degraded_failed next later) first.conditions ≡ first.conditions
  unfolding build_condition
  failed_kept found =
      ap (λ c. upsert_project_condition c first.conditions)
        (again app first degraded is_true "MigrationFailed"
          "Migration failed for the target deployment revision" (clock degraded) (later degraded)
          found)
      ∙ upsert_present (degraded_failed app clock) first.conditions found

  -- a condition that was cleared before
  cleared_again :
      (e : ProjectCondition)
      → degraded_cleared next is_ready state later (degraded_cleared app is_ready state clock e)
        ≡ degraded_cleared app is_ready state clock e
  cleared_again e =
      let c = degraded_cleared app is_ready state clock e in
      λ i. record c { last_transition_time = same_time c (later degraded) i }

  cleared_kept :
      (old now : Option ProjectCondition)
      → find_condition degraded first.conditions ≡ now
      → now ≡ elim old [ none ↦ none | some e ↦ some (degraded_cleared app is_ready state clock e) ]
      → elim now [
        | none ↦ first.conditions
        | some existing ↦
            upsert_project_condition
              (degraded_cleared next is_ready state later existing)
              first.conditions
      ]
        ≡ first.conditions
  cleared_kept none now found h = rw h refl
  cleared_kept (some e) now found h = rw h (
      ap (λ c. upsert_project_condition c first.conditions) (cleared_again e)
      ∙ upsert_present (degraded_cleared app is_ready state clock e) first.conditions (found ∙ h))

  degraded_kept : settle_degraded next is_ready state later first.conditions ≡ first.conditions
  unfolding settle_degraded
  degraded_kept =
      let old = find_condition degraded (conditions_of app) in
      if_intro (λ cs. cs ≡ first.conditions) (is_failed state)
        (λ broken. failed_kept (degraded_found ∙ first_branch (is_failed state) _ _ broken))
        (λ live.
          if_intro (λ cs. cs ≡ first.conditions) is_ready
            (λ up.
              cleared_kept old (find_condition degraded first.conditions) refl
                (degraded_found ∙ second_branch (is_failed state) is_ready _ _ _ live up))
            (λ down. refl))

  own_kept : own_conditions next is_ready state later ≡ first.conditions
  unfolding own_conditions
  own_kept =
      ap
        (λ cs.
          settle_degraded next is_ready state later
            (upsert_project_condition (migration_condition next state later) cs))
        ready_kept
      ∙ ap (settle_degraded next is_ready state later) migration_kept
      ∙ degraded_kept

  -- A status that was written, with the conditions of the sub-resources of distinct types that are
  -- not the operator's own, is written again unchanged, at whatever time, when the readiness, the
  -- migration and the sub-resources are the same: no transition time moves.
  pub build_status-again :
      HasDistinctTypes children
      → build_status next is_ready ready_replicas state children later ≡ first
  unfolding build_status
  build_status-again distinct =
      let found : All (λ c. find_condition c.type first.conditions ≡ some c) children =
        children_found children children (own_conditions app is_ready state clock) distinct
          (distinct_found children distinct) in
      let same : upsert_all children (own_conditions next is_ready state later) ≡ first.conditions =
        ap (upsert_all children) own_kept ∙ upsert_all_present children first.conditions found in
      λ i. record first { conditions = same i }
