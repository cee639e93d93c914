-- ===== src/Operator/SourceBuild/Defs.antt =====
-- The decision on a build, the status patch that goes with it, and what the gate does then.
use reinhardt_cloud.Base.{
  ℕ, String, Bool, true, false, ◌&&◌, ◌||◌, Option, none, some, List, [], ◌∷◌, ◌==◌, string_eq,
  nat_eq, ltb, if◌then◌else◌,
}
use reinhardt_cloud.Base.Int.{ℤ, pos, negsuc}
use reinhardt_cloud.Types.Crd.{
  condition_type_eq, condition_status_eq, BuildPhase, pending, running, succeeded, failed,
  production, preview, BuildStatus, Project,
}

abbrev pub build_requeue_secs : ℕ
build_requeue_secs = 10

pub data BuildDecision : Type 0 where
  no_build : BuildDecision
  -- requeue_after, in seconds
  waiting : ℕ → BuildDecision
  -- `Succeeded(BuildCompletion { status })`
  build_succeeded : BuildStatus → BuildDecision
  -- `Failed(BuildFailure { status })`
  build_failed : BuildStatus → BuildDecision

pub data JobBuildState : Type 0 where
  job_running job_succeeded : JobBuildState
  -- reason, message
  job_failed : String → String → JobBuildState

pub data SourceBuildGateAction : Type 0 where
  continue : SourceBuildGateAction
  requeue_gate : ℕ → SourceBuildGateAction
  update_production_image : BuildStatus → SourceBuildGateAction
  update_preview : BuildStatus → SourceBuildGateAction
  await_change : SourceBuildGateAction

unfoldable pub source_build_gate_action : BuildDecision → SourceBuildGateAction
source_build_gate_action no_build = continue
source_build_gate_action (waiting requeue_after) = requeue_gate requeue_after
source_build_gate_action (build_succeeded status) = elim status.target [
  | production ↦ update_production_image status
  | preview ↦ update_preview status
]
source_build_gate_action (build_failed status) = await_change

-- the build of the status, if there is one
abbrev pub build_of : Project → Option BuildStatus
build_of app = elim app.status [ none ↦ none | some status ↦ status.build ]

-- `Option::filter`
abbrev pub filter_option {ℓ} : {A : Type ℓ} → (A → Bool) → Option A → Option A
filter_option p none = none
filter_option p (some a) = if p a then some a else none

-- the place of a variant, by which the derived equality compares
abbrev pub phase_tag : BuildPhase → ℕ
phase_tag pending = 0
phase_tag running = 1
phase_tag succeeded = 2
phase_tag failed = 3

unfoldable pub is_phase : BuildPhase → BuildPhase → Bool
is_phase a b = phase_tag a == phase_tag b

unfoldable pub active_build_status : Project → Option BuildStatus
unfolding is_phase
active_build_status app =
    filter_option (λ b. is_phase b.phase pending || is_phase b.phase running) (build_of app)

unfoldable pub blocking_failed_build_status : Project → Bool → Option BuildStatus
unfolding is_phase
blocking_failed_build_status app has_new_build =
    if has_new_build then none else filter_option (λ b. is_phase b.phase failed) (build_of app)

-- what is read of a Kubernetes `Job`: the conditions of its status, with the type, the status, the
-- reason and the message of each, its counts, and the limit of its spec
pub record JobCondition : Type 0 where
  pub type : String
  pub status : String
  pub reason : Option String
  pub message : Option String

pub record JobStatus : Type 0 where
  pub succeeded_count : Option ℤ
  pub failed_count : Option ℤ
  pub conditions : Option (List JobCondition)

pub record Job : Type 0 where
  pub status : Option JobStatus
  pub backoff_limit : Option ℤ

-- `a > b` on `i32`
abbrev pub greater : ℤ → ℤ → Bool
greater (pos a) (pos b) = ltb b a
greater (pos a) (negsuc b) = true
greater (negsuc a) (pos b) = false
greater (negsuc a) (negsuc b) = ltb a b

abbrev pub or_else {ℓ} : {A : Type ℓ} → A → Option A → A
or_else d none = d
or_else d (some a) = a

unfoldable pub find_failed : List JobCondition → Option JobCondition
find_failed [] = none
find_failed (c ∷ cs) =
    if (c.type == "Failed") && (c.status == "True") then some c else find_failed cs

unfoldable pub classify_status : JobStatus → Option ℤ → JobBuildState
unfolding find_failed
classify_status status backoff_limit =
    if greater (or_else (pos 0) status.succeeded_count) (pos 0)
    then job_succeeded
    else elim (find_failed (or_else List.[] status.conditions)) [
      | some c ↦
          job_failed (or_else "JobFailed" c.reason)
            (or_else "Kaniko build Job reported a failed condition" c.message)
      | none ↦
          if greater (or_else (pos 0) status.failed_count) (or_else (pos 6) backoff_limit)
          then job_failed "BackoffLimitExceeded" "Kaniko build Job exceeded backoff limit"
          else job_running
    ]

unfoldable pub classify_job_state : Job → JobBuildState
unfolding classify_status
classify_job_state job = elim job.status [
  | none ↦ job_running
  | some status ↦ classify_status status job.backoff_limit
]
