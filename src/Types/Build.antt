-- ===== src/Types/Build.antt =====
-- crates/reinhardt-cloud-types/src/build.rs: builds, their phases and their event stream.
use reinhardt_cloud.Base.{String, Bool, Option, List}
use reinhardt_cloud.Types.Basic.{Uuid, DateTime}

pub record EnvVar : Type 0 where
  pub key : String
  pub value : String

pub record BuildRequest : Type 0 where
  pub project_name : String
  pub image : String
  pub env_vars : List EnvVar
  pub dockerfile : Option String
  pub context_path : Option String

pub data BuildPhase : Type 0 where
  queued pulling building pushing finalizing : BuildPhase

-- `impl Display for BuildPhase`
unfoldable pub show_phase : BuildPhase → String
show_phase queued = "queued"
show_phase pulling = "pulling"
show_phase building = "building"
show_phase pushing = "pushing"
show_phase finalizing = "finalizing"

pub data BuildEvent : Type 0 where
  -- message, timestamp
  log : String → DateTime → BuildEvent
  phase_change : BuildPhase → DateTime → BuildEvent
  -- artifact_url, digest, timestamp
  artifact_ready : String → String → DateTime → BuildEvent
  -- message, timestamp
  error : String → DateTime → BuildEvent
  -- success, timestamp
  complete : Bool → DateTime → BuildEvent

pub record BuildStatus : Type 0 where
  pub build_id : Uuid
  pub project_name : String
  pub phase : BuildPhase
  pub completed : Bool
  pub success : Option Bool
  pub started_at : DateTime
  pub completed_at : Option DateTime
