-- ===== src/Types/Agent.antt =====
-- crates/reinhardt-cloud-types/src/agent.rs: agents, their commands, events and health reports.
use reinhardt_cloud.Base.{ℕ, String, Bool, Option, none, some, ◌==◌, string_eq, if◌then◌else◌}
use reinhardt_cloud.Types.Basic.{Uuid, DateTime, Float64}

-- A text that is never shown.
pub record SecretString : Type 0 where
  pub value : String

-- `SecretString::expose_secret`
unfoldable pub expose_secret : SecretString → String
expose_secret s = s.value

-- what `Debug` and `Serialize` write
abbrev pub redacted : String
redacted = "[REDACTED]"

-- `impl Serialize for SecretString`
unfoldable pub serialize : SecretString → String
serialize s = redacted

-- `impl Deserialize for SecretString`; `none` is the custom error
unfoldable pub deserialize : String → Option SecretString
deserialize value = if value == redacted then none else some (record { value = value })

pub record AgentInfo : Type 0 where
  pub agent_id : Uuid
  pub cluster_name : String
  pub node_name : String
  pub version : String
  pub last_seen : DateTime

pub data AgentCommand : Type 0 where
  -- project_name, image, replicas (u32)
  deploy : String → String → ℕ → AgentCommand
  -- project_name, revision (u32)
  rollback : String → ℕ → AgentCommand
  -- project_name, replicas (u32)
  scale : String → ℕ → AgentCommand
  -- project_name
  restart : String → AgentCommand
  -- project_name, yaml
  apply_project : String → String → AgentCommand
  -- project_name, namespace, secret_name, git_token
  apply_git_credentials_secret : String → String → String → SecretString → AgentCommand

pub data AgentEvent : Type 0 where
  -- agent_id, cluster_name, timestamp
  connected : Uuid → String → DateTime → AgentEvent
  -- project_name, success, message, timestamp
  deploy_status : String → Bool → String → DateTime → AgentEvent
  -- agent_id, timestamp
  heartbeat : Uuid → DateTime → AgentEvent
  -- message, timestamp
  error : String → DateTime → AgentEvent
  -- project_name, command_type, success, message, timestamp
  command_status : String → String → Bool → String → DateTime → AgentEvent

pub record DeployStatusReport : Type 0 where
  pub project_name : String
  pub success : Bool
  pub message : String
  pub reported_at : DateTime

pub record AgentHealth : Type 0 where
  pub agent_id : Uuid
  pub healthy : Bool
  pub cpu_usage_percent : Float64
  pub memory_usage_percent : Float64
  pub pod_count : ℕ
  pub reported_at : DateTime
