-- ===== src/Operator/Status/Found.antt =====
-- Which condition is found in the status that `build_status` gives.
use reinhardt_cloud.Base.{
  Bool, false, Option, none, some, List, [], ◌∷◌, ◌≡◌, refl, ap, ◌==◌, ◌∙◌, if◌then◌else◌, arith,
  Bool-cases, inl, inr, if_intro, subst,
}
use reinhardt_cloud.Base.Int.{ℤ}
use reinhardt_cloud.Types.Crd.{
  ConditionType, ready, degraded, migration_ready, condition_type_eq, type_beq, type_beq_iff,
  ProjectCondition, Project,
}
use reinhardt_cloud.Operator.Conditions.{
  Conditions, find_condition, conditions_of, build_condition, upsert_project_condition, upsert_all,
  find-upsert, HasDistinctTypes, upsert-HasDistinctTypes,
}
use reinhardt_cloud.Operator.Status.Defs.{
  MigrationGateState, not_required, running, succeeded, failed, is_failed, Clock, ready_condition,
  migration_condition, degraded_failed, degraded_cleared, settle_degraded, own_conditions,
  build_status,
}

-- the sub-resources leave the operator's own conditions alone
pub record AreOfChildren (children : List ProjectCondition) : Type 0 where
  pub not_ready : find_condition ready children ≡ none
  pub not_migration : find_condition migration_ready children ≡ none
  pub not_degraded : find_condition degraded children ≡ none

pub find-upsert_all_other :
    (children : List ProjectCondition) (t : ConditionType) (cs : Conditions)
    → find_condition t children ≡ none
    → find_condition t (upsert_all children cs) ≡ find_condition t cs
unfolding find_condition upsert_all
find-upsert_all_other [] t cs h = refl
find-upsert_all_other (c ∷ children) t cs h = elim (Bool-cases (c.type == t)) [
  | inl same ↦ absurd (ground (arith, same))
  | inr other ↦
      let found : find_condition t (upsert_project_condition c cs) ≡ find_condition t cs =
        ground (arith, find-upsert c t cs, other) in
      find-upsert_all_other children t (upsert_project_condition c cs) (rw other at h) ∙ found
]

pub find-upsert_all_own :
    (children : List ProjectCondition) (t : ConditionType) (cs : Conditions) (c : ProjectCondition)
    → HasDistinctTypes children
    → find_condition t children ≡ some c
    → find_condition t (upsert_all children cs) ≡ some c
unfolding find_condition upsert_all HasDistinctTypes
find-upsert_all_own [] t cs c d h = absurd (ground arith)
find-upsert_all_own (e ∷ children) t cs c d h = elim (Bool-cases (e.type == t)) [
  | inl same ↦
      let gone : find_condition t children ≡ none =
        subst (λ u. find_condition u children ≡ none) ((type_beq_iff e.type t).0 same) d.0 in
      find-upsert_all_other children t (upsert_project_condition e cs) gone
      ∙ ground (arith, find-upsert e t cs, same)
  | inr other ↦ find-upsert_all_own children t (upsert_project_condition e cs) c d.1 (rw other at h)
]

pub upsert_all-HasDistinctTypes :
    (children : List ProjectCondition) (cs : Conditions)
    → HasDistinctTypes cs
    → HasDistinctTypes (upsert_all children cs)
unfolding upsert_all
upsert_all-HasDistinctTypes [] cs h = h
upsert_all-HasDistinctTypes (c ∷ children) cs h =
    upsert_all-HasDistinctTypes children (upsert_project_condition c cs)
      (upsert-HasDistinctTypes c cs h)

module _ (app : Project) (is_ready : Bool) (clock : Clock) where
  -- the condition `Degraded`, after it is settled
  abbrev pub degraded_after : MigrationGateState → Option ProjectCondition
  degraded_after state =
      let old = find_condition degraded (conditions_of app) in
      if is_failed state
      then some (degraded_failed app clock)
      else (if is_ready
          then elim old [
            | none ↦ none
            | some e ↦ some (degraded_cleared app is_ready state clock e)
          ]
          else old)

  -- a list that is left as it is
  untouched :
      (t : ConditionType) (cs : Conditions) (o : Option ProjectCondition)
      → find_condition degraded cs ≡ o
      → find_condition t cs ≡ (if degraded == t then o else find_condition t cs)
  untouched t cs o h = elim (Bool-cases (degraded == t)) [
    | inl same ↦ rw same (subst (λ u. find_condition u cs ≡ o) ((type_beq_iff degraded t).0 same) h)
    | inr other ↦ rw other refl
  ]

  find-cleared :
      (state : MigrationGateState) (t : ConditionType) (cs : Conditions)
      (o : Option ProjectCondition)
      → find_condition degraded cs ≡ o
      → find_condition t (elim o [
        | none ↦ cs
        | some e ↦ upsert_project_condition (degraded_cleared app is_ready state clock e) cs
      ])
        ≡ (if degraded == t
            then elim o [
              | none ↦ none
              | some e ↦ some (degraded_cleared app is_ready state clock e)
            ]
            else find_condition t cs)
  find-cleared state t cs none h = untouched t cs none h
  find-cleared state t cs (some e) h =
      find-upsert (degraded_cleared app is_ready state clock e) t cs

  find-settle_live :
      (state : MigrationGateState) (t : ConditionType) (cs : Conditions)
      → find_condition degraded cs ≡ find_condition degraded (conditions_of app)
      → is_failed state ≡ false
      → find_condition t (settle_degraded app is_ready state clock cs)
        ≡ (if degraded == t then degraded_after state else find_condition t cs)
  unfolding settle_degraded
  find-settle_live state t cs h live = elim (Bool-cases is_ready) [
    | inl up ↦
        rw (live, up) (find-cleared state t cs (find_condition degraded (conditions_of app)) h)
    | inr down ↦ rw (live, down) (untouched t cs (find_condition degraded (conditions_of app)) h)
  ]

  find-settle :
      (state : MigrationGateState) (t : ConditionType) (cs : Conditions)
      → find_condition degraded cs ≡ find_condition degraded (conditions_of app)
      → find_condition t (settle_degraded app is_ready state clock cs)
        ≡ (if degraded == t then degraded_after state else find_condition t cs)
  unfolding settle_degraded build_condition
  find-settle failed t cs h = find-upsert (degraded_failed app clock) t cs
  find-settle not_required t cs h = find-settle_live not_required t cs h refl
  find-settle running t cs h = find-settle_live running t cs h refl
  find-settle succeeded t cs h = find-settle_live succeeded t cs h refl

  -- the first two conditions that are written
  abbrev written : MigrationGateState → Conditions
  written state =
      upsert_project_condition (migration_condition app state clock)
        (upsert_project_condition (ready_condition app is_ready state clock) (conditions_of app))

  find-written :
      (state : MigrationGateState) (t : ConditionType)
      → find_condition t (written state) ≡ (
          if migration_ready == t
          then some (migration_condition app state clock)
          else (if ready == t
              then some (ready_condition app is_ready state clock)
              else find_condition t (conditions_of app)))
  unfolding build_condition
  find-written state t =
      find-upsert (migration_condition app state clock) t _
      ∙ ap (λ o. if migration_ready == t then some (migration_condition app state clock) else o)
          (find-upsert (ready_condition app is_ready state clock) t (conditions_of app))

  written-degraded :
      (state : MigrationGateState)
      → find_condition degraded (written state) ≡ find_condition degraded (conditions_of app)
  unfolding type_beq
  written-degraded state = find-written state degraded

  -- The operator's own conditions: those it writes, and the others as they were.
  pub find-own :
      (state : MigrationGateState) (t : ConditionType)
      → find_condition t (own_conditions app is_ready state clock) ≡ (
          if degraded == t
          then degraded_after state
          else (if migration_ready == t
              then some (migration_condition app state clock)
              else (if ready == t
                  then some (ready_condition app is_ready state clock)
                  else find_condition t (conditions_of app))))
  unfolding own_conditions
  find-own state t =
      find-settle state t (written state) (written-degraded state)
      ∙ ap (λ o. if degraded == t then degraded_after state else o) (find-written state t)

  cleared-HasDistinctTypes :
      (state : MigrationGateState) (cs : Conditions)
      → HasDistinctTypes cs
      → (o : Option ProjectCondition)
      → HasDistinctTypes (elim o [
        | none ↦ cs
        | some e ↦ upsert_project_condition (degraded_cleared app is_ready state clock e) cs
      ])
  cleared-HasDistinctTypes state cs h none = h
  cleared-HasDistinctTypes state cs h (some e) =
      upsert-HasDistinctTypes (degraded_cleared app is_ready state clock e) cs h

  settle-HasDistinctTypes :
      (state : MigrationGateState) (cs : Conditions)
      → HasDistinctTypes cs
      → HasDistinctTypes (settle_degraded app is_ready state clock cs)
  unfolding settle_degraded
  settle-HasDistinctTypes state cs h =
      if_intro HasDistinctTypes (is_failed state)
        (λ _. upsert-HasDistinctTypes (degraded_failed app clock) cs h)
        (λ _.
          if_intro HasDistinctTypes is_ready
            (λ _. cleared-HasDistinctTypes state cs h (find_condition degraded (conditions_of app)))
            (λ _. h))

  own-HasDistinctTypes :
      (state : MigrationGateState)
      → HasDistinctTypes (conditions_of app)
      → HasDistinctTypes (own_conditions app is_ready state clock)
  unfolding own_conditions
  own-HasDistinctTypes state h = settle-HasDistinctTypes state (written state) (
      upsert-HasDistinctTypes (migration_condition app state clock) _
        (upsert-HasDistinctTypes (ready_condition app is_ready state clock) _ h))

-- A status keeps the types of its conditions distinct, those of the sub-resources included.
pub build_status-HasDistinctTypes :
    (app : Project) (is_ready : Bool) (ready_replicas : ℤ) (state : MigrationGateState)
    (children : List ProjectCondition) (clock : Clock)
    → HasDistinctTypes (conditions_of app)
    → HasDistinctTypes (build_status app is_ready ready_replicas state children clock).conditions
unfolding build_status
build_status-HasDistinctTypes app is_ready ready_replicas state children clock h =
    upsert_all-HasDistinctTypes children _ (own-HasDistinctTypes app is_ready clock state h)
