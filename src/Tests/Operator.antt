-- ===== src/Tests/Operator.antt =====
-- A project that fails, recovers and fails again, and the status of one that gets ready.
use reinhardt_cloud.Base.{◌*◌, ◌^◌, min, true, none, some, List, [], ◌∷◌, ◌≡◌, ◌≢◌, refl, inr}
use reinhardt_cloud.Base.Int.{pos}
use reinhardt_cloud.Base.Map.{get}
use reinhardt_cloud.Base.Result.{ok, err}
use reinhardt_cloud.Operator.Error
use reinhardt_cloud.Operator.Error.{
  kube, api, other, wrapped, typed, finalizer, backoff_class, backoff_class-finalizer,
  dependency_not_ready,
}
use reinhardt_cloud.Operator.Backoff.Defs
use reinhardt_cloud.Operator.Backoff.Defs.{
  Object, Context, attempts, History, requeue, error_policy, compute_backoff, run,
}
use reinhardt_cloud.Operator.Backoff.Delay.{compute_backoff_lem}
use reinhardt_cloud.Operator.Backoff.History.{run-attempts, error_policy_lem, failures, base_of}
use reinhardt_cloud.Types.Crd
use reinhardt_cloud.Types.Crd.{ProjectCondition, ProjectStatus, Project}
use reinhardt_cloud.Operator.Conditions
use reinhardt_cloud.Operator.Conditions.{status_at, conditions_of, find_condition, HasDistinctTypes}
use reinhardt_cloud.Operator.Status.Defs as Written
use reinhardt_cloud.Operator.Status.Defs.{build_status}
use reinhardt_cloud.Operator.Status.Found.{AreOfChildren}
use reinhardt_cloud.Operator.Status.Steady.{with_status, build_status-again}
use reinhardt_cloud.Operator.Status.Verdict.{
  after, time_after, build_status-running, build_status-time,
}

-- an object of the namespace `prod`
abbrev web : Object
web = record { namespace = some "prod"; name = "web" }

abbrev fresh : Context
fresh = record { backoff_state = []; requeue_total = []; reconcile_total = [] }

-- the error of a missing dependency
abbrev missing : Error.Error
missing = kube (api 404)

-- two failures since the last success, the latest first
abbrev history : History
history =
    (web, err (typed missing))
    ∷ (web, err (typed missing))
    ∷ (web, ok (requeue 60))
    ∷ (web, err (typed missing))
    ∷ []

fresh-attempts : attempts (Defs.backoff_key web) fresh ≡ 0
unfolding attempts get
fresh-attempts = refl

missing_class : backoff_class missing ≡ dependency_not_ready
unfolding backoff_class Error.kube_status_class
missing_class = refl

two_failures : failures (Defs.backoff_key web) history ≡ 2
unfolding backoff_class Error.kube_status_class Error.nested_backoff_class
two_failures = refl

run-attempts_example :
    attempts (Defs.backoff_key web) (run history fresh)
    ≡ min (failures (Defs.backoff_key web) history) Defs.u32_max
run-attempts_example = run-attempts history fresh (Defs.backoff_key web) fresh-attempts

error_policy_lem_example :
    (error_policy web missing (run history fresh)).1
    ≡ requeue
        (min (base_of (backoff_class missing) * 2 ^ failures (Defs.backoff_key web) history) 600)
error_policy_lem_example =
    error_policy_lem history fresh web missing fresh-attempts (inr missing_class)

compute_backoff_lem_example : compute_backoff 30 3 ≡ 240
compute_backoff_lem_example = compute_backoff_lem 30 3

-- a project whose migration had failed
abbrev degraded_before : ProjectCondition
degraded_before = record {
  type = Crd.degraded;
  status = Crd.is_true;
  reason = "MigrationFailed";
  message = "Migration failed for the target deployment revision";
  last_transition_time = some "monday";
  observed_generation = some (pos 1);
}

abbrev before : ProjectStatus
before = record {
  phase = some Crd.degraded_phase;
  conditions = degraded_before ∷ [];
  observed_generation = some (pos 1);
  ready_replicas = some (pos 0);
  build = none;
  database = none;
  cache = none;
  redis_credentials_secret_uid = none;
  redis_credentials_secret_digest = none;
  worker = none;
  previews = [];
}

abbrev app : Project
app = record { name = "web"; generation = some (pos 2); has_database = true; status = some before }

abbrev child : ProjectCondition
child = record {
  type = Crd.tls_ready;
  status = Crd.is_true;
  reason = "TlsReady";
  message = "";
  last_transition_time = some "sunday";
  observed_generation = some (pos 2);
}

abbrev clock : Written.Clock
clock t = "tuesday"

abbrev written : List ProjectCondition
written = after app true (pos 1) Written.succeeded (child ∷ []) clock

of_children : AreOfChildren (child ∷ [])
unfolding find_condition Crd.type_beq
of_children = record { not_ready = refl; not_migration = refl; not_degraded = refl }

distinct_before : HasDistinctTypes (conditions_of app)
unfolding HasDistinctTypes find_condition
distinct_before = (refl, tt)

running_phase :
    (build_status app true (pos 1) Written.succeeded (child ∷ []) clock).phase
    ≡ some Crd.running_phase
unfolding build_status Written.phase_of
running_phase = refl

build_status-running_example :
    (true ≡ true)
    × (Written.succeeded ≢ Written.failed)
    × (status_at Crd.ready written ≡ some Crd.is_true)
    × (status_at Crd.degraded written ≢ some Crd.is_true)
build_status-running_example =
    build_status-running app true (pos 1) Written.succeeded (child ∷ []) clock of_children
      running_phase

-- the condition that the ready project writes over the one of the failure
abbrev cleared : ProjectCondition
cleared = Written.degraded_cleared app true Written.succeeded clock degraded_before

no_child : find_condition Crd.degraded (child ∷ []) ≡ none
unfolding find_condition Crd.type_beq
no_child = refl

cleared_found : find_condition Crd.degraded written ≡ some cleared
unfolding find_condition Crd.type_beq build_status Written.own_conditions Written.settle_degraded
    Conditions.upsert_all Conditions.upsert_project_condition Conditions.build_condition
cleared_found = refl

build_status-time_example :
    cleared.last_transition_time
    ≡ time_after (find_condition Crd.degraded (conditions_of app)) cleared.status "tuesday"
build_status-time_example =
    build_status-time app true (pos 1) Written.succeeded (child ∷ []) clock Crd.degraded cleared
      no_child cleared_found

distinct_child : HasDistinctTypes (child ∷ [])
unfolding HasDistinctTypes find_condition
distinct_child = (refl, tt)

abbrev next_clock : Written.Clock
next_clock t = "friday"

build_status-again_example :
    build_status
      (with_status app (build_status app true (pos 1) Written.succeeded (child ∷ []) clock))
      true
      (pos 1)
      Written.succeeded
      (child ∷ [])
      next_clock
    ≡ build_status app true (pos 1) Written.succeeded (child ∷ []) clock
build_status-again_example =
    build_status-again app true (pos 1) Written.succeeded (child ∷ []) clock next_clock of_children
      distinct_child
