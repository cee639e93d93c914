-- ===== src/Operator/Status/Defs.antt =====
-- The status that is written, from the object, its readiness and the state of its migration.
use reinhardt_cloud.Base.{String, Bool, true, false, none, some, List, if◌then◌else◌, text_append}
use reinhardt_cloud.Base.Int.{ℤ}
use reinhardt_cloud.Types.Crd.{
  ConditionType, ready, degraded, migration_ready, ConditionStatus, is_true, is_false,
  ProjectCondition, ProjectPhase, deploying_phase, running_phase, degraded_phase, resource_ready,
  ProjectStatus, Project,
}
use reinhardt_cloud.Operator.Conditions.{
  Conditions, find_condition, conditions_of, build_condition, upsert_project_condition, upsert_all,
  transition_time,
}

pub data MigrationGateState : Type 0 where
  not_required running succeeded failed : MigrationGateState

-- `migration_state == MigrationGateState::Failed`
abbrev pub is_failed : MigrationGateState → Bool
is_failed failed = true
is_failed _ = false

unfoldable pub condition_status : MigrationGateState → ConditionStatus
condition_status not_required = is_true
condition_status succeeded = is_true
condition_status running = is_false
condition_status failed = is_false

unfoldable pub reason : MigrationGateState → String
reason not_required = "MigrationNotRequired"
reason running = "MigrationRunning"
reason succeeded = "MigrationSucceeded"
reason failed = "MigrationFailed"

unfoldable pub message : MigrationGateState → String
message not_required = "No database migration is required for this project"
message running = "Waiting for the deployment revision migration to complete"
message succeeded = "Deployment revision migration completed successfully"
message failed = "Deployment revision migration failed; rollout is blocked"

-- what the clock reads when the condition of a type is built
abbrev pub Clock : Type 0
Clock = ConditionType → String

unfoldable pub phase_of : Bool → MigrationGateState → ProjectPhase
phase_of is_ready state =
    if is_failed state
    then degraded_phase
    else (if is_ready then running_phase else deploying_phase)

unfoldable pub ready_reason : Bool → MigrationGateState → String
ready_reason is_ready state =
    if is_ready
    then "ReconcileSuccess"
    else (if is_failed state then "MigrationFailed" else "ReconcileInProgress")

unfoldable pub ready_message : Bool → MigrationGateState → String
ready_message is_ready state =
    if is_ready
    then "Application is ready"
    else (if is_failed state
        then "Migration failed; rollout is blocked"
        else "Waiting for deployment rollout to complete")

-- the conditions of the readiness and of the migration
abbrev pub ready_condition : Project → Bool → MigrationGateState → Clock → ProjectCondition
ready_condition app is_ready state clock =
    build_condition app ready (if is_ready then is_true else is_false) (ready_reason is_ready state)
      (ready_message is_ready state) (clock ready)

abbrev pub migration_condition : Project → MigrationGateState → Clock → ProjectCondition
migration_condition app state clock =
    build_condition app migration_ready (condition_status state) (reason state) (message state)
      (clock migration_ready)

abbrev pub degraded_failed : Project → Clock → ProjectCondition
degraded_failed app clock =
    build_condition app degraded is_true "MigrationFailed"
      "Migration failed for the target deployment revision" (clock degraded)

-- the condition that a ready project writes over an existing one of type `Degraded`
abbrev pub degraded_cleared :
    Project → Bool → MigrationGateState → Clock → ProjectCondition → ProjectCondition
degraded_cleared app is_ready state clock existing = record {
  type = degraded;
  status = is_false;
  reason = ready_reason is_ready state;
  message = ready_message is_ready state;
  last_transition_time = transition_time (some existing) is_false (clock degraded);
  observed_generation = app.generation;
}

-- what happens to the condition `Degraded`
unfoldable pub settle_degraded :
    Project → Bool → MigrationGateState → Clock → Conditions → Conditions
settle_degraded app is_ready state clock conditions =
    if is_failed state
    then upsert_project_condition (degraded_failed app clock) conditions
    else (if is_ready
        then elim (find_condition degraded (conditions_of app)) [
          | none ↦ conditions
          | some existing ↦
              upsert_project_condition (degraded_cleared app is_ready state clock existing)
                conditions
        ]
        else conditions)

-- the conditions of the operator itself, before those of the sub-resources
unfoldable pub own_conditions : Project → Bool → MigrationGateState → Clock → Conditions
unfolding settle_degraded
own_conditions app is_ready state clock = settle_degraded app is_ready state clock (
    upsert_project_condition (migration_condition app state clock)
      (upsert_project_condition (ready_condition app is_ready state clock) (conditions_of app)))

-- a field of the existing status, or its default
abbrev pub from_status {ℓ} : {A : Type ℓ} → A → (ProjectStatus → A) → Project → A
from_status default field app = elim app.status [ none ↦ default | some s ↦ field s ]

unfoldable pub build_status :
    Project → Bool → ℤ → MigrationGateState → List ProjectCondition → Clock → ProjectStatus
unfolding phase_of own_conditions
build_status app is_ready ready_replicas state child_conditions clock = record {
  phase = some (phase_of is_ready state);
  conditions = upsert_all child_conditions (own_conditions app is_ready state clock);
  observed_generation = app.generation;
  ready_replicas = some ready_replicas;
  build = from_status none (λ s. s.build) app;
  database =
      (if app.has_database
        then some (record {
          phase = resource_ready;
          endpoint = none;
          credentials_secret = some (text_append app.name "-db-credentials");
        })
        else none);
  cache = none;
  redis_credentials_secret_uid = from_status none (λ s. s.redis_credentials_secret_uid) app;
  redis_credentials_secret_digest = from_status none (λ s. s.redis_credentials_secret_digest) app;
  worker = none;
  previews = from_status List.[] (λ s. s.previews) app;
}
