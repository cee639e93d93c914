-- ===== src/Operator/Status/Verdict.antt =====
-- What the conditions in a written status say, and since when.
use mathlib.Core.Option
use mathlib.Core.Option.{some-injective}
use reinhardt_cloud.Base.{
  String, Bool, true, false, Option, none, some, List, ◌≡◌, ◌≢◌, refl, ap, sym, ◌==◌, ◌∙◌,
  if◌then◌else◌, arith, Bool-cases, inl, inr, subst, ==_refl, if_intro,
}
use reinhardt_cloud.Base.Int.{ℤ}
use reinhardt_cloud.Types.Crd.{
  ConditionType, ready, progressing, degraded, migration_ready, database_ready, cache_ready,
  worker_ready, ingress_ready, tls_ready, autoscaler_ready, condition_type_eq, condition_status_eq,
  type_beq, ConditionStatus, is_true, is_false, ProjectCondition, Project, running_phase,
}
use reinhardt_cloud.Operator.Conditions.{
  status_at, Conditions, find_condition, conditions_of, build_condition, transition_time,
  should_update_transition_time,
}
use reinhardt_cloud.Operator.Status.Defs.{
  MigrationGateState, failed, is_failed, Clock, phase_of, condition_status, ready_condition,
  migration_condition, degraded_failed, degraded_cleared, own_conditions, build_status,
}
use reinhardt_cloud.Operator.Status.Found.{
  AreOfChildren, find-upsert_all_other, degraded_after, find-own,
}

branch_status :
    (f r : Bool) (old : Option ProjectCondition) (c : ProjectCondition)
    (clear : ProjectCondition → ProjectCondition)
    → c.status ≡ is_true
    → ((e : ProjectCondition) → (clear e).status ≡ is_false)
    → Option.map (λ d. d.status) (if f then some c else (if r then Option.map clear old else old))
      ≡ (if f
          then some is_true
          else (if r
              then Option.map (λ _. is_false) (Option.map (λ d. d.status) old)
              else Option.map (λ d. d.status) old))
branch_status true r old c clear sc se = ap some sc
branch_status false true none c clear sc se = refl
branch_status false true (some e) c clear sc se = ap some (se e)
branch_status false false old c clear sc se = refl

never_true :
    (f r : Bool) (o : Option ConditionStatus)
    → f ≡ false
    → r ≡ true
    → (if f then some is_true else (if r then Option.map (λ _. is_false) o else o)) ≢ some is_true
never_true true r o live up e = absurd (ground arith)
never_true false false o live up e = absurd (ground arith)
never_true false true none live up e = absurd (ground arith)
never_true false true (some s) live up e = absurd (ground arith)

module _ (app : Project) (is_ready : Bool) (ready_replicas : ℤ) (state : MigrationGateState)
    (children : List ProjectCondition) (clock : Clock) where
  abbrev pub after : Conditions
  after = (build_status app is_ready ready_replicas state children clock).conditions

  -- what is found at a type that no sub-resource has
  pub find-build_status :
      (t : ConditionType)
      → find_condition t children ≡ none
      → find_condition t after ≡ (
          if degraded == t
          then degraded_after app is_ready clock state
          else (if migration_ready == t
              then some (migration_condition app state clock)
              else (if ready == t
                  then some (ready_condition app is_ready state clock)
                  else find_condition t (conditions_of app))))
  unfolding build_status
  find-build_status t h =
      find-upsert_all_other children t (own_conditions app is_ready state clock) h
      ∙ find-own app is_ready clock state t

  status-degraded : Option.map (λ c. c.status) (degraded_after app is_ready clock state) ≡ (
      if is_failed state
      then some is_true
      else (if is_ready
          then Option.map (λ _. is_false) (status_at degraded (conditions_of app))
          else status_at degraded (conditions_of app)))
  unfolding build_condition
  status-degraded =
      branch_status (is_failed state) is_ready (find_condition degraded (conditions_of app))
        (degraded_failed app clock) (degraded_cleared app is_ready state clock) refl (λ e. refl)

  -- If no sub-resource has a condition of the operator's own types, the status that is written has
  -- `Ready` true exactly for a ready project, `MigrationReady` as the migration's state has it, and
  -- `Degraded` true after a failed migration. A ready project whose migration did not fail has
  -- `Degraded` false if it had it before, and else does not have it; one that is not ready keeps it.
  pub build_status_lem :
      AreOfChildren children
      → (status_at ready after ≡ some (if is_ready then is_true else is_false))
        × (status_at migration_ready after ≡ some (condition_status state))
        × (status_at degraded after ≡ (
            if is_failed state
            then some is_true
            else (if is_ready
                then Option.map (λ _. is_false) (status_at degraded (conditions_of app))
                else status_at degraded (conditions_of app))))
  unfolding build_condition type_beq
  build_status_lem own = (
    ap (Option.map (λ c. c.status)) (find-build_status ready own.not_ready),
    ap (Option.map (λ c. c.status)) (find-build_status migration_ready own.not_migration),
    ap (Option.map (λ c. c.status)) (find-build_status degraded own.not_degraded) ∙ status-degraded,
  )

  -- If the written phase is `Running` and no sub-resource has a condition of the operator's own
  -- types, the project is ready, its migration did not fail, `Ready` is true and `Degraded` is not.
  pub build_status-running :
      AreOfChildren children
      → (build_status app is_ready ready_replicas state children clock).phase ≡ some running_phase
      → (is_ready ≡ true)
        × (state ≢ failed)
        × (status_at ready after ≡ some is_true)
        × (status_at degraded after ≢ some is_true)
  unfolding build_status phase_of
  build_status-running own phase =
      let (at_ready, at_migration, at_degraded) = build_status_lem own in
      let up : is_ready ≡ true = ground arith in
      let live : is_failed state ≡ false = ground arith in
      (
        up,
        λ e. absurd (ground (arith, e)),
        at_ready ∙ ap (λ b. some (if b then is_true else is_false)) up,
        λ e.
            never_true (is_failed state) is_ready (status_at degraded (conditions_of app)) live up
              (sym at_degraded ∙ e),
      )

-- The time that a condition of a status has, by the conditions before: that of the condition of its
-- type if it has the same status, and else the time now.
abbrev pub time_after : Option ProjectCondition → ConditionStatus → String → Option String
time_after none status now = some now
time_after (some before) status now =
    if before.status == status then before.last_transition_time else some now

pub transition_time_lem :
    (o : Option ProjectCondition) (status : ConditionStatus) (now : String)
    → transition_time o status now ≡ time_after o status now
unfolding transition_time should_update_transition_time
transition_time_lem none status now = refl
transition_time_lem (some before) status now = elim (Bool-cases (before.status == status)) [
  | inl same ↦ rw same refl
  | inr other ↦ rw other refl
]

-- a condition that stays has its own time
kept_time :
    (o : Option ProjectCondition) (c : ProjectCondition) (now : String)
    → o ≡ some c
    → c.last_transition_time ≡ time_after o c.status now
kept_time none c now h = absurd (ground arith)
kept_time (some d) c now h =
    subst (λ u. c.last_transition_time ≡ time_after (some u) c.status now)
      (sym (some-injective d c h)) (rw (==_refl c.status) refl)

-- a condition that is written has the time of its status
dated :
    (o : Option ProjectCondition) (b c : ProjectCondition) (now : String)
    → b.last_transition_time ≡ time_after o b.status now
    → some b ≡ some c
    → c.last_transition_time ≡ time_after o c.status now
dated o b c now h e =
    subst (λ u. u.last_transition_time ≡ time_after o u.status now) (some-injective b c e) h

module _ (app : Project) (is_ready : Bool) (ready_replicas : ℤ) (state : MigrationGateState)
    (children : List ProjectCondition) (clock : Clock) where
  cleared_time :
      (o : Option ProjectCondition) (c : ProjectCondition)
      → elim o [ none ↦ none | some e ↦ some (degraded_cleared app is_ready state clock e) ]
        ≡ some c
      → c.last_transition_time ≡ time_after o c.status (clock degraded)
  cleared_time none c h = absurd (ground arith)
  cleared_time (some e) c h =
      dated (some e) (degraded_cleared app is_ready state clock e) c (clock degraded)
        (transition_time_lem (some e) is_false (clock degraded)) h

  degraded_time :
      (c : ProjectCondition)
      → degraded_after app is_ready clock state ≡ some c
      → c.last_transition_time
        ≡ time_after (find_condition degraded (conditions_of app)) c.status (clock degraded)
  unfolding build_condition
  degraded_time c =
      let old = find_condition degraded (conditions_of app) in
      let P : Option ProjectCondition → Type 0 =
        λ x. x ≡ some c → c.last_transition_time ≡ time_after old c.status (clock degraded) in
      if_intro P (is_failed state)
        (λ _.
          dated old (degraded_failed app clock) c (clock degraded)
            (transition_time_lem old is_true (clock degraded)))
        (λ _. if_intro P is_ready (λ _. cleared_time old c) (λ _. kept_time old c (clock degraded)))

  build_status-kept :
      (t : ConditionType)
      → (degraded == t) ≡ false
      → (migration_ready == t) ≡ false
      → (ready == t) ≡ false
      → (c : ProjectCondition) → find_condition t children ≡ none
      → find_condition t (after app is_ready ready_replicas state children clock) ≡ some c
      → c.last_transition_time
        ≡ time_after (find_condition t (conditions_of app)) c.status (clock t)
  build_status-kept t nd nm nr c h found =
      let now = find-build_status app is_ready ready_replicas state children clock t h in
      kept_time (find_condition t (conditions_of app)) c (clock t)
        (sym (rw (nd, nm, nr) at now) ∙ found)

  -- In the status that is written, a condition whose type no sub-resource has keeps the time of the
  -- condition of its type before if its status is still the same, and otherwise has the time now.
  pub build_status-time :
      (t : ConditionType) (c : ProjectCondition)
      → find_condition t children ≡ none
      → find_condition t (after app is_ready ready_replicas state children clock) ≡ some c
      → c.last_transition_time
        ≡ time_after (find_condition t (conditions_of app)) c.status (clock t)
  unfolding type_beq build_condition
  build_status-time ready c h found =
      let old = find_condition ready (conditions_of app) in
      let now = find-build_status app is_ready ready_replicas state children clock ready h in
      dated old (ready_condition app is_ready state clock) c (clock ready)
        (transition_time_lem old (if is_ready then is_true else is_false) (clock ready))
        (sym now ∙ found)
  build_status-time migration_ready c h found =
      let old = find_condition migration_ready (conditions_of app) in
      let now =
        find-build_status app is_ready ready_replicas state children clock migration_ready h in
      dated old (migration_condition app state clock) c (clock migration_ready)
        (transition_time_lem old (condition_status state) (clock migration_ready)) (sym now ∙ found)
  build_status-time degraded c h found =
      degraded_time c (
        sym (find-build_status app is_ready ready_replicas state children clock degraded h) ∙ found)
  build_status-time progressing c h found = build_status-kept progressing refl refl refl c h found
  build_status-time database_ready c h found =
      build_status-kept database_ready refl refl refl c h found
  build_status-time cache_ready c h found = build_status-kept cache_ready refl refl refl c h found
  build_status-time worker_ready c h found = build_status-kept worker_ready refl refl refl c h found
  build_status-time ingress_ready c h found =
      build_status-kept ingress_ready refl refl refl c h found
  build_status-time tls_ready c h found = build_status-kept tls_ready refl refl refl c h found
  build_status-time autoscaler_ready c h found =
      build_status-kept autoscaler_ready refl refl refl c h found
