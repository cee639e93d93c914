-- ===== src/Operator/SourceBuild/Patch.antt =====
-- The status patches of a build. `now` is what `Utc::now().to_rfc3339()` gives.
use reinhardt_cloud.Base.{
  String, Bool, ◌&&◌, ◌||◌, Option, none, some, [], ◌∷◌, any, ◌==◌, string_eq, if◌then◌else◌,
}
use reinhardt_cloud.Base.Int.{ℤ}
use reinhardt_cloud.Types.Crd.{
  ConditionType, progressing, degraded, condition_type_eq, ConditionStatus, is_true, is_false,
  condition_status_eq, ProjectCondition, ProjectPhase, deploying_phase, degraded_phase, BuildPhase,
  pending, running, succeeded, failed, BuildStatus, Project,
}
use reinhardt_cloud.Operator.Conditions.{Conditions, conditions_of, upsert_project_condition}
use reinhardt_cloud.Operator.SourceBuild.Defs.{
  BuildDecision, waiting, build_succeeded, build_failed, build_requeue_secs, JobBuildState,
  job_running, job_succeeded, job_failed, build_of, filter_option, is_phase, or_else,
}

abbrev pub build_condition :
    ConditionType → ConditionStatus → String → String → Option ℤ → String → ProjectCondition
build_condition type status reason message observed_generation now = record {
  type = type;
  status = status;
  reason = reason;
  message = message;
  last_transition_time = some now;
  observed_generation = observed_generation;
}

-- `upsert_condition`, a copy of the function of reconciler.rs
abbrev pub upsert_condition : ProjectCondition → Conditions → Conditions
upsert_condition next conditions = upsert_project_condition next conditions

-- the first condition of a type that has a status
unfoldable pub find_status : ConditionType → ConditionStatus → Conditions → Option ProjectCondition
find_status type status [] = none
find_status type status (c ∷ cs) =
    if (c.type == type) && (c.status == status) then some c else find_status type status cs

-- the early return leaves the condition as it is
unfoldable pub preserve_transition_time : Project → ProjectCondition → ProjectCondition
unfolding find_status
preserve_transition_time app condition = record condition {
  last_transition_time = elim (find_status condition.type condition.status (conditions_of app)) [
    | none ↦ condition.last_transition_time
    | some existing ↦ existing.last_transition_time
  ];
}

unfoldable pub has_condition_status : Project → ConditionType → ConditionStatus → Bool
has_condition_status app type status =
    any (λ c. (c.type == type) && (c.status == status)) (conditions_of app)

unfoldable pub companion_build_condition :
    Project → ProjectCondition → String → Option ProjectCondition
unfolding has_condition_status
companion_build_condition app condition now =
    let should_clear_degraded =
      (condition.type == progressing)
      && (condition.status == is_true)
      && has_condition_status app degraded is_true in
    let should_clear_progressing = (condition.type == degraded) && (condition.status == is_true) in
    let should_clear_degraded_after_success =
      (condition.type == progressing)
      && (condition.status == is_false)
      && (condition.reason == "BuildSucceeded") in
    if should_clear_degraded || should_clear_degraded_after_success
    then some (
        build_condition degraded is_false condition.reason condition.message
          condition.observed_generation now)
    else if should_clear_progressing
    then some (
        build_condition progressing is_false condition.reason condition.message
          condition.observed_generation now)
    else none

-- the fields of the merge patch; one that is absent is not patched
pub record StatusPatch : Type 0 where
  pub build : BuildStatus
  pub conditions : Conditions
  pub observed_generation : Option ℤ
  pub phase : Option ProjectPhase

unfoldable pub patched_phase : BuildPhase → Option ProjectPhase
patched_phase pending = some deploying_phase
patched_phase running = some deploying_phase
patched_phase failed = some degraded_phase
patched_phase succeeded = none

-- with the companion, if there is one
unfoldable pub upsert_companion : Project → Option ProjectCondition → Conditions → Conditions
unfolding preserve_transition_time
upsert_companion app none conditions = conditions
upsert_companion app (some companion) conditions =
    upsert_condition (preserve_transition_time app companion) conditions

unfoldable pub build_status_patch : Project → BuildStatus → ProjectCondition → String → StatusPatch
unfolding companion_build_condition preserve_transition_time upsert_companion patched_phase
build_status_patch app build condition now = record {
  build = build;
  conditions =
      upsert_companion app (companion_build_condition app condition now)
        (upsert_condition (preserve_transition_time app condition) (conditions_of app));
  observed_generation = app.generation;
  phase = patched_phase build.phase;
}

-- the time of the last transition of the stored build, if it is this build in this phase
unfoldable pub preserved_build_time : Project → BuildStatus → BuildPhase → Option String
unfolding is_phase
preserved_build_time app build phase =
    elim (filter_option
      (λ existing.
        is_phase existing.phase phase
        && (existing.trigger == build.trigger)
        && (existing.job_name == build.job_name))
      (build_of app)) [ none ↦ none | some existing ↦ existing.last_transition_time ]

unfoldable pub transition_build_status :
    Project → BuildStatus → BuildPhase → String → String → String → BuildStatus
unfolding preserved_build_time
transition_build_status app build phase reason message now = record build {
  phase = phase;
  reason = some reason;
  message = some message;
  last_transition_time = some (or_else now (preserved_build_time app build phase));
}

-- `BuildDecisionTransition`: the decision, and what to patch
abbrev pub Transition : Type 0
Transition = BuildDecision × Option (BuildStatus × ProjectCondition)

unfoldable pub build_decision_from_job_state :
    Project → BuildStatus → JobBuildState → String → Transition
unfolding transition_build_status
build_decision_from_job_state app build job_running now = (
  waiting build_requeue_secs,
  some (
    transition_build_status app build running "BuildRunning" "Kaniko build Job is still running"
        now,
    build_condition progressing is_true "BuildRunning" "Kaniko build Job is still running"
        app.generation now,
  ),
)
build_decision_from_job_state app build job_succeeded now = (
  build_succeeded (
      transition_build_status app build succeeded "BuildSucceeded" "Kaniko build Job succeeded"
        now),
  none,
)
build_decision_from_job_state app build (job_failed reason message) now =
    let status = transition_build_status app build failed reason message now in
    (
      build_failed status,
      some (status, build_condition degraded is_true "BuildFailed" message app.generation now),
    )
