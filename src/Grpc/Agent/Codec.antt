-- ===== src/Grpc/Agent/Codec.antt =====
-- The messages of crates/reinhardt-cloud-proto/proto/cluster_agent.proto and their conversions.
use mathlib.Core.Option
use reinhardt_cloud.Base.{ℕ, String, Bool, Option, none, some}
use reinhardt_cloud.Types.Basic.{DateTime}
use reinhardt_cloud.Types.Agent.{AgentCommand, AgentEvent, expose_secret}
use reinhardt_cloud.Grpc.Wire.{Wire, Timestamp, proto_timestamp_to_chrono}

-- the `oneof` of `AgentCommand`
pub data CommandOneof : Type 0 where
  -- DeployCommand: project_name, image, replicas
  deploy : String → String → ℕ → CommandOneof
  -- RollbackCommand: project_name, revision
  rollback : String → ℕ → CommandOneof
  -- ScaleCommand: project_name, replicas
  scale : String → ℕ → CommandOneof
  -- RestartCommand: project_name
  restart : String → CommandOneof
  -- ApplyProjectCommand: project_name, yaml
  apply_project : String → String → CommandOneof
  -- ApplyGitCredentialsSecretCommand: project_name, namespace, secret_name, git_token
  apply_git_credentials_secret : String → String → String → String → CommandOneof

pub record PbAgentCommand : Type 0 where
  pub command : Option CommandOneof

-- the `oneof` of `AgentEvent`
pub data EventOneof : Type 0 where
  -- AgentConnected: agent_id, cluster_name, timestamp
  connected : String → String → Option Timestamp → EventOneof
  -- AgentDeployStatus: project_name, success, message, timestamp
  deploy_status : String → Bool → String → Option Timestamp → EventOneof
  -- AgentHeartbeat: agent_id, timestamp
  heartbeat : String → Option Timestamp → EventOneof
  -- AgentError: message, timestamp
  error : String → Option Timestamp → EventOneof
  -- AgentCommandStatus: project_name, command_type, success, message, timestamp
  command_status : String → String → Bool → String → Option Timestamp → EventOneof

pub record PbAgentEvent : Type 0 where
  pub event : Option EventOneof

unfoldable pub domain_command_to_proto : AgentCommand → PbAgentCommand
unfolding expose_secret
domain_command_to_proto (AgentCommand.deploy project_name image replicas) = record {
  command = some (CommandOneof.deploy project_name image replicas);
}
domain_command_to_proto (AgentCommand.rollback project_name revision) = record {
  command = some (CommandOneof.rollback project_name revision);
}
domain_command_to_proto (AgentCommand.scale project_name replicas) = record {
  command = some (CommandOneof.scale project_name replicas);
}
domain_command_to_proto (AgentCommand.restart project_name) = record {
  command = some (CommandOneof.restart project_name);
}
domain_command_to_proto (AgentCommand.apply_project project_name yaml) = record {
  command = some (CommandOneof.apply_project project_name yaml);
}
domain_command_to_proto
      (AgentCommand.apply_git_credentials_secret project_name namespace secret_name git_token) =
    record {
      command = some (
          CommandOneof.apply_git_credentials_secret project_name namespace secret_name
            (expose_secret git_token));
    }

module _ (w : Wire) (now : DateTime) where
  unfoldable pub event_of_oneof : EventOneof → Option AgentEvent
  event_of_oneof (EventOneof.connected agent_id cluster_name timestamp) =
      Option.map
        (λ id. AgentEvent.connected id cluster_name (proto_timestamp_to_chrono w now timestamp))
        (w.parse_uuid agent_id)
  event_of_oneof (EventOneof.deploy_status project_name success message timestamp) = some (
      AgentEvent.deploy_status project_name success message
        (proto_timestamp_to_chrono w now timestamp))
  event_of_oneof (EventOneof.heartbeat agent_id timestamp) =
      Option.map (λ id. AgentEvent.heartbeat id (proto_timestamp_to_chrono w now timestamp))
        (w.parse_uuid agent_id)
  event_of_oneof (EventOneof.error message timestamp) =
      some (AgentEvent.error message (proto_timestamp_to_chrono w now timestamp))
  event_of_oneof (EventOneof.command_status project_name command_type success message timestamp) =
      some (
        AgentEvent.command_status project_name command_type success message
          (proto_timestamp_to_chrono w now timestamp))

  -- an event without a `oneof`, or with an identifier that is none, is `None`
  unfoldable pub proto_event_to_domain : PbAgentEvent → Option AgentEvent
  unfolding event_of_oneof
  proto_event_to_domain event = elim event.event [ none ↦ none | some e ↦ event_of_oneof e ]
