-- ===== src/Grpc/Build/Proto.antt =====
-- crates/reinhardt-cloud-proto/proto/build.proto: the messages.
use reinhardt_cloud.Base.{String, Bool, Option, List}
use reinhardt_cloud.Base.Int.{ℤ}
use reinhardt_cloud.Grpc.Wire.{Timestamp}

-- the `oneof` of `BuildEvent`
pub data EventOneof : Type 0 where
  -- BuildLog: message, timestamp
  log : String → Option Timestamp → EventOneof
  -- BuildPhaseChange: phase (an i32), timestamp
  phase_change : ℤ → Option Timestamp → EventOneof
  -- BuildArtifactReady: artifact_url, digest, timestamp
  artifact_ready : String → String → Option Timestamp → EventOneof
  -- BuildError: message, timestamp
  error : String → Option Timestamp → EventOneof
  -- BuildComplete: success, timestamp
  complete : Bool → Option Timestamp → EventOneof

pub record PbBuildEvent : Type 0 where
  pub event : Option EventOneof

pub record PbBuildLog : Type 0 where
  pub message : String
  pub timestamp : Option Timestamp

pub record PbEnvVar : Type 0 where
  pub key : String
  pub value : String

pub record StartBuildRequest : Type 0 where
  pub project_name : String
  pub image : String
  pub env_vars : List PbEnvVar
  pub dockerfile : Option String
  pub context_path : Option String

pub record BuildStatusResponse : Type 0 where
  pub build_id : String
  pub project_name : String
  pub phase : ℤ
  pub completed : Bool
  pub success : Option Bool
  pub started_at : Option Timestamp
  pub completed_at : Option Timestamp
