-- ===== src/Operator/SourceBuild/Reconcile.antt =====
-- `reconcile_source_build`: the calls of the Kubernetes API around the decision on a build.
use reinhardt_cloud.Base.{
  String, Bool, true, false, Option, none, some, is_some, List, [], ◌∷◌, ◌++◌, if◌then◌else◌,
}
use reinhardt_cloud.Base.Result.{Result, ok, err}
use reinhardt_cloud.Types.Crd.{
  progressing, degraded, is_true, ProjectCondition, BuildStatus, failed, Project,
}
use reinhardt_cloud.Operator.Error.{Error}
use reinhardt_cloud.Operator.SourceBuild.Defs.{
  BuildDecision, no_build, build_failed, Job, active_build_status, blocking_failed_build_status,
  classify_job_state,
}
use reinhardt_cloud.Operator.SourceBuild.Patch.{
  build_condition, StatusPatch, build_status_patch, transition_build_status,
  build_decision_from_job_state,
}

-- what a call is to change
pub data Effect : Type 0 where
  created_job : String → Effect
  patched_status : StatusPatch → Effect
  cleared_annotations : Effect

-- A call that was made. One that failed may have taken effect all the same: an answer may be lost.
pub data Call : Type 0 where
  done failed_call : Effect → Call

-- the calls that were made, in order, and what comes of it; an error ends the function
abbrev pub Action : Type 0 → Type 0
Action A = List Call × Result A Error

abbrev pub pure : {A : Type 0} → A → Action A
pure a = ([], ok a)

-- a step that calls nothing that changes anything
abbrev pub lift : {A : Type 0} → Result A Error → Action A
lift r = ([], r)

-- a call that makes a change
abbrev pub perform : {A : Type 0} → Effect → Result A Error → Action A
perform e (ok a) = (done e ∷ [], ok a)
perform e (err x) = (failed_call e ∷ [], err x)

-- `?` and what follows
abbrev pub then_do : {A B : Type 0} → List Call → Result A Error → (A → Action B) → Action B
then_do es (ok a) f = (es ++ (f a).0, (f a).1)
then_do es (err e) f = (es, err e)

infixl 5 ◌>>=◌ ◌>>◌
abbrev pub ◌>>=◌ : {A B : Type 0} → Action A → (A → Action B) → Action B
m >>= f = then_do m.0 m.1 f

abbrev pub ◌>>◌ : {B : Type 0} → Action (Unit {0}) → Action B → Action B
m >> k = m >>= λ _. k

-- The answers of the Kubernetes API, with its errors as the operator's, and the job that
-- `build_job_for_status` would make of a build.
pub record Api : Type 0 where
  pub get_job : String → Result (Option Job) Error
  pub job_for : BuildStatus → Result Job Error
  pub create_job : Job → Result Job Error
  pub patch_status : StatusPatch → Result (Unit {0}) Error
  pub patch_annotations : Result (Unit {0}) Error

module _ (app : Project) (api : Api) (now : String) where
  unfoldable pub patch_build_status : BuildStatus → ProjectCondition → Action (Unit {0})
  unfolding build_status_patch
  patch_build_status build condition =
      let patch = build_status_patch app build condition now in
      perform (patched_status patch) (api.patch_status patch)

  abbrev pub clear_build_annotations : Action (Unit {0})
  clear_build_annotations = perform cleared_annotations api.patch_annotations

  -- the condition of a build that is accepted
  abbrev pub accepted : ProjectCondition
  accepted =
      build_condition progressing is_true "BuildPending" "Kaniko build Job has been accepted"
        app.generation now

  -- the status patch of a decision, if it has one
  abbrev pub patch_transition : Option (BuildStatus × ProjectCondition) → Action (Unit {0})
  patch_transition none = pure tt
  patch_transition (some p) = patch_build_status p.0 p.1

  -- once the job is there
  unfoldable pub watch_job : Bool → BuildStatus → Job → Action BuildDecision
  unfolding patch_build_status classify_job_state build_decision_from_job_state
  watch_job has_new_build build job =
      let transition = build_decision_from_job_state app build (classify_job_state job) now in
      do
        if has_new_build
            then patch_build_status build accepted >> clear_build_annotations
            else pure tt
        patch_transition transition.1
        pure transition.0

  -- the job of a build that is under way is gone
  unfoldable pub report_missing_job : BuildStatus → Action BuildDecision
  unfolding patch_build_status transition_build_status
  report_missing_job build =
      let message : String = "Kaniko build Job {job_name} is missing" in
      let status = transition_build_status app build failed "BuildJobMissing" message now in
      do
        patch_build_status status
            (build_condition degraded is_true "BuildJobMissing" message app.generation now)
        pure (build_failed status)

  unfoldable pub follow_build : Bool → BuildStatus → Option Job → Action BuildDecision
  unfolding watch_job report_missing_job
  follow_build has_new_build build (some job) = watch_job has_new_build build job
  follow_build true build none = do
    expected_job ← lift (api.job_for build)
    job ← perform (created_job build.job_name) (api.create_job expected_job)
    watch_job true build job
  follow_build false build none = report_missing_job build

  -- `new_build.or(active_build)`
  abbrev pub or_active : Option BuildStatus → Option BuildStatus
  or_active none = active_build_status app
  or_active (some build) = some build

  unfoldable pub decide_build : Option BuildStatus → Action BuildDecision
  unfolding blocking_failed_build_status active_build_status follow_build
  decide_build new_build = elim (blocking_failed_build_status app (is_some new_build)) [
    | some failed_build ↦ pure (build_failed failed_build)
    | none ↦ elim (or_active new_build) [
      | none ↦ pure no_build
      | some build ↦ do
        live_job ← lift (api.get_job build.job_name)
        follow_build (is_some new_build) build live_job
    ]
  ]

  -- `ignored_preview_request` and the result of `derive_new_build_status` are arguments
  unfoldable pub reconcile_source_build :
      Bool → Result (Option BuildStatus) Error → Action BuildDecision
  unfolding decide_build
  reconcile_source_build ignored_preview_request derived = do
    if ignored_preview_request then clear_build_annotations else pure tt
    new_build ← lift (if ignored_preview_request then ok none else derived)
    decide_build new_build
