-- ===== src/Operator/SourceBuild/Exclusive.antt =====
-- A status patch of a build never says that it progresses and that it is degraded.
use mathlib.Core.Option
use reinhardt_cloud.Base.{
  String, false, ◌&&◌, Option, none, some, [], ◌∷◌, any, ◌≡◌, ◌≢◌, refl, sym, ◌∙◌, ◌==◌,
  if◌then◌else◌, arith, Bool-cases, inl, inr,
}
use reinhardt_cloud.Base.Int.{ℤ}
use reinhardt_cloud.Types.Crd.{
  ConditionType, progressing, degraded, condition_type_eq, type_beq, type_beq_iff, ConditionStatus,
  is_true, is_false, condition_status_eq, status_beq, status_beq_iff, ProjectCondition,
  deploying_phase, degraded_phase, BuildStatus, Project,
}
use reinhardt_cloud.Operator.Conditions.{
  status_at, Conditions, find_condition, conditions_of, upsert_project_condition, find-upsert,
}
use reinhardt_cloud.Operator.SourceBuild.Defs.{
  JobBuildState, job_running, job_succeeded, job_failed,
}
use reinhardt_cloud.Operator.SourceBuild.Patch.{
  build_condition, preserve_transition_time, has_condition_status, companion_build_condition,
  StatusPatch, patched_phase, upsert_companion, build_status_patch, transition_build_status,
  build_decision_from_job_state,
}

-- a status that no condition of a type has is not found
absent :
    (t : ConditionType) (s : ConditionStatus) (cs : Conditions)
    → any (λ c. (c.type == t) && (c.status == s)) cs ≡ false
    → status_at t cs ≢ some s
unfolding find_condition
absent t s [] h e = absurd (ground arith)
absent t s (c ∷ cs) h e =
    ground (arith, type_beq_iff c.type t, status_beq_iff c.status s, absent t s cs)

absent_status :
    (app : Project) (t : ConditionType) (s : ConditionStatus)
    → has_condition_status app t s ≡ false
    → status_at t (conditions_of app) ≢ some s
unfolding has_condition_status
absent_status app t s h = absent t s (conditions_of app) h

pub status-upsert :
    (c : ProjectCondition) (t : ConditionType) (cs : Conditions)
    → status_at t (upsert_project_condition c cs)
      ≡ (if c.type == t then some c.status else status_at t cs)
status-upsert c t cs = elim (Bool-cases (c.type == t)) [
  | inl same ↦ ground (arith, find-upsert c t cs, same)
  | inr other ↦ ground (arith, find-upsert c t cs, other)
]

module _ (app : Project) (reason message : String) (generation : Option ℤ) (now now' : String) where
  abbrev progress : ProjectCondition
  progress = build_condition progressing is_true reason message generation now

  abbrev failure : ProjectCondition
  failure = build_condition degraded is_true reason message generation now

  abbrev patched : ProjectCondition → Conditions
  patched c =
      upsert_companion app (companion_build_condition app c now')
        (upsert_project_condition (preserve_transition_time app c) (conditions_of app))

  -- `Degraded` is cleared, if it was true
  cleared :
      (status_at progressing (
          upsert_project_condition
            (preserve_transition_time app
              (build_condition degraded is_false reason message generation now'))
            (upsert_project_condition (preserve_transition_time app progress) (conditions_of app)))
        ≡ some is_true)
      × (status_at degraded (
            upsert_project_condition
              (preserve_transition_time app
                (build_condition degraded is_false reason message generation now'))
              (upsert_project_condition
                (preserve_transition_time app progress)
                (conditions_of app)))
          ≡ some is_false)
  unfolding preserve_transition_time type_beq
  cleared = (
    status-upsert _ progressing _ ∙ status-upsert _ progressing (conditions_of app),
    status-upsert _ degraded _,
  )

  alone :
      has_condition_status app degraded is_true ≡ false
      → (status_at progressing
            (upsert_project_condition (preserve_transition_time app progress) (conditions_of app))
          ≡ some is_true)
        × (status_at degraded
              (upsert_project_condition (preserve_transition_time app progress) (conditions_of app))
            ≢ some is_true)
  unfolding preserve_transition_time type_beq
  alone h = (
    status-upsert _ progressing (conditions_of app),
    λ e. absent_status app degraded is_true h (
        sym (status-upsert (preserve_transition_time app progress) degraded (conditions_of app))
        ∙ e),
  )

  progress-patched :
      (status_at progressing (patched progress) ≡ some is_true)
      × (status_at degraded (patched progress) ≢ some is_true)
  unfolding companion_build_condition upsert_companion type_beq status_beq
  progress-patched = elim (Bool-cases (has_condition_status app degraded is_true)) [
    | inl was ↦ rw was (cleared.0, λ e. absurd (ground (arith, cleared.1, e)))
    | inr not_was ↦ rw not_was (alone not_was)
  ]

  failure-patched :
      (status_at degraded (patched failure) ≡ some is_true)
      × (status_at progressing (patched failure) ≡ some is_false)
  unfolding companion_build_condition upsert_companion preserve_transition_time type_beq status_beq
  failure-patched = (
    status-upsert _ degraded _ ∙ status-upsert _ degraded (conditions_of app),
    status-upsert _ progressing _,
  )

-- the patch that follows a decision, if there is one
abbrev pub patch_of : Project → BuildStatus → JobBuildState → String → String → Option StatusPatch
patch_of app build job_state now now' =
    Option.map (λ p. build_status_patch app p.0 p.1 now')
      (build_decision_from_job_state app build job_state now).1

-- what a patch says for each state of the job
abbrev pub Reports : JobBuildState → Option StatusPatch → Type 0
Reports job_running none = ⊥
Reports job_running (some p) =
    (p.phase ≡ some deploying_phase)
    × (status_at progressing p.conditions ≡ some is_true)
    × (status_at degraded p.conditions ≢ some is_true)
Reports job_succeeded none = Unit
Reports job_succeeded (some p) = ⊥
Reports (job_failed reason message) none = ⊥
Reports (job_failed reason message) (some p) =
    (p.phase ≡ some degraded_phase)
    × (status_at degraded p.conditions ≡ some is_true)
    × (status_at progressing p.conditions ≡ some is_false)

-- While the job of a build runs, the patched status is deploying and says that it progresses and not
-- that it is degraded, whatever it said before; once the job has failed, it is degraded and says
-- that it is degraded and does not progress; after a success nothing is patched.
pub patch_of-Reports :
    (app : Project) (build : BuildStatus) (job_state : JobBuildState) (now now' : String)
    → Reports job_state (patch_of app build job_state now now')
unfolding build_decision_from_job_state build_status_patch transition_build_status patched_phase
patch_of-Reports app build job_running now now' =
    let (progresses, not_degraded) =
      progress-patched app "BuildRunning" "Kaniko build Job is still running" app.generation now
        now' in
    (refl, progresses, not_degraded)
patch_of-Reports app build job_succeeded now now' = tt
patch_of-Reports app build (job_failed reason message) now now' =
    let (is_degraded, stopped) =
      failure-patched app "BuildFailed" message app.generation now now' in
    (refl, is_degraded, stopped)
