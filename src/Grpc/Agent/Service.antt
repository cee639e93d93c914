-- ===== src/Grpc/Agent/Service.antt =====
-- `RegistryBackedAgentService`, and the handlers of `AgentServiceGrpc` over it.
use reinhardt_cloud.Base.{
  ℕ, String, Bool, true, false, Option, none, some, List, [], ◌∷◌, nat_eq, ◌==◌, if◌then◌else◌,
}
use reinhardt_cloud.Base.Result.{Result, ok, err, map_err, map_ok, ◌>>=◌}
use reinhardt_cloud.Types.Basic.{Uuid, DateTime, Float64}
use reinhardt_cloud.Types.Agent.{AgentInfo, AgentEvent, AgentHealth, DeployStatusReport}
use reinhardt_cloud.Core.ApiError.{ApiError, forbidden, bad_request, not_found, internal}
use reinhardt_cloud.Grpc.Wire.{
  Wire, Status, StatusResponse, Timestamp, invalid_argument, permission_denied, api_error_to_status,
  proto_timestamp_to_chrono,
}
use reinhardt_cloud.Grpc.Registry.Defs.{
  AgentRegistry, Sender, register_with_cluster, unregister_if, heartbeat, update_health_for_cluster,
  get_health, ClusterRegistration, ClusterBindingError,
}
use reinhardt_cloud.Grpc.Agent.Codec.{PbAgentEvent, proto_event_to_domain}

-- what `agent_stream_authenticated` leaves to its two tasks
pub record Session : Type 0 where
  pub agent_id : Uuid
  pub generation : ℕ
  -- the cluster that the stream is authenticated as
  pub cluster_id : Uuid
  -- the channel that the forwarding task reads
  pub commands : Sender

abbrev pub binding_denied : ApiError
binding_denied = forbidden "Agent is not registered under the authenticated cluster"

abbrev pub unbound_denied : ApiError
unbound_denied = forbidden "Request is not bound to an authenticated cluster"

abbrev pub not_connected_first : ApiError
not_connected_first = bad_request "Agent must send Connected event first"

-- what comes of the registration
unfoldable pub session_of :
    Uuid → Uuid → Result ClusterRegistration ClusterBindingError → Result Session ApiError
session_of agent_id cluster_id (err e) = err binding_denied
session_of agent_id cluster_id (ok own) = ok (record {
  agent_id = agent_id;
  generation = own.generation;
  cluster_id = cluster_id;
  commands = own.commands;
})

-- the registration, once the first event has announced the agent
unfoldable pub announce :
    AgentRegistry → Uuid → AgentInfo → DateTime → Sender → AgentRegistry × Result Session ApiError
unfolding register_with_cluster session_of
announce r cluster_id info now tx =
    let (r', registered) = register_with_cluster r info cluster_id now tx in
    (r', session_of info.agent_id cluster_id registered)

-- `agent_stream_authenticated`, up to the start of the tasks; `first` is `events.next()`
unfoldable pub agent_stream_authenticated :
    AgentRegistry
    → Uuid
    → Option (Result AgentEvent ApiError)
    → DateTime
    → Sender
    → AgentRegistry × Result Session ApiError
unfolding announce
agent_stream_authenticated r cluster_id
      (some (ok (AgentEvent.connected agent_id cluster_name timestamp))) now tx =
    announce r cluster_id
      (record {
        agent_id = agent_id;
        cluster_name = cluster_name;
        node_name = "";
        version = "";
        last_seen = timestamp;
      })
      now tx
agent_stream_authenticated r cluster_id first now tx = (r, err not_connected_first)

-- one round of the loop over the events; `false` is `break`
unfoldable pub pump_event :
    Session → AgentRegistry → DateTime → Result AgentEvent ApiError → AgentRegistry × Bool
unfolding heartbeat
pump_event s r now (ok (AgentEvent.heartbeat id timestamp)) =
    if id == s.agent_id then (heartbeat r id now, true) else (r, true)
pump_event s r now (ok event) = (r, true)
pump_event s r now (err e) = (r, false)

-- what each of the two tasks does when it ends
unfoldable pub end_task : Session → AgentRegistry → AgentRegistry
unfolding unregister_if
end_task s r = (unregister_if r s.agent_id s.generation).0

-- the task over the events by itself, with the time at which each event is handled
unfoldable pub pump :
    Session → AgentRegistry → List (DateTime × Result AgentEvent ApiError) → AgentRegistry
unfolding pump_event end_task
pump s r [] = end_task s r
pump s r (e ∷ rest) =
    let (r', goes_on) = pump_event s r e.0 e.1 in
    let later = pump s r' rest in if goes_on then later else end_task s r'

-- `agent_stream` and `report_health`, which have no authenticated cluster
unfoldable pub agent_stream : AgentRegistry → AgentRegistry × Result Session ApiError
agent_stream r = (r, err unbound_denied)

unfoldable pub report_health :
    AgentRegistry → AgentHealth → AgentRegistry × Result (Unit {0}) ApiError
report_health r health = (r, err unbound_denied)

unfoldable pub report_health_for_cluster :
    AgentRegistry → Uuid → AgentHealth → DateTime → AgentRegistry × Result (Unit {0}) ApiError
unfolding update_health_for_cluster
report_health_for_cluster r cluster_id health now =
    let (r', taken) = update_health_for_cluster r cluster_id health now in
    (r', map_err (λ _. binding_denied) taken)

unfoldable pub get_agent_health : AgentRegistry → Uuid → Result AgentHealth ApiError
unfolding get_health
get_agent_health r agent_id = elim (get_health r agent_id) [
  | none ↦ err (not_found "No health report for agent {agent_id}")
  | some health ↦ ok health
]

unfoldable pub report_deploy_status : DeployStatusReport → Result (Unit {0}) ApiError
report_deploy_status report = ok tt

-- `AgentHealthReport` of cluster_agent.proto
pub record AgentHealthReport : Type 0 where
  pub agent_id : String
  pub healthy : Bool
  pub cpu_usage_percent : Float64
  pub memory_usage_percent : Float64
  pub pod_count : ℕ
  pub reported_at : Option Timestamp

-- A request carries the `cluster_id` of the claims of its token, if it passed the interceptor.
module _ (w : Wire) where
  unfoldable pub authenticated_cluster_id : Option String → Result Uuid Status
  authenticated_cluster_id none = err (permission_denied "Agent identity required")
  authenticated_cluster_id (some cluster_id) = elim (w.parse_uuid cluster_id) [
    | none ↦ err (permission_denied "Agent token carries an invalid cluster_id")
    | some id ↦ ok id
  ]

  -- the first of the events that the filtered stream hands on: those that do not parse are skipped
  unfoldable pub first_event :
      DateTime → List (Result PbAgentEvent String) → Option (Result AgentEvent ApiError)
  unfolding proto_event_to_domain
  first_event now [] = none
  first_event now (err e ∷ rest) = some (err (internal e))
  first_event now (ok event ∷ rest) =
      let later = first_event now rest in
      elim (proto_event_to_domain w now event) [ none ↦ later | some e ↦ some (ok e) ]

  -- `agent_stream` of the server, up to the start of the tasks
  unfoldable pub serve_agent_stream :
      AgentRegistry
      → Option String
      → List (Result PbAgentEvent String)
      → DateTime
      → Sender
      → AgentRegistry × Result Session Status
  unfolding authenticated_cluster_id agent_stream_authenticated api_error_to_status
  serve_agent_stream r claims incoming now tx = elim (authenticated_cluster_id claims) [
    | err e ↦ (r, err e)
    | ok cluster_id ↦
        let (r', opened) =
          agent_stream_authenticated r cluster_id (first_event now incoming) now tx in
        (r', map_err api_error_to_status opened)
  ]

  abbrev pub health_of : DateTime → Uuid → AgentHealthReport → AgentHealth
  health_of now agent_id report = record {
    agent_id = agent_id;
    healthy = report.healthy;
    cpu_usage_percent = report.cpu_usage_percent;
    memory_usage_percent = report.memory_usage_percent;
    pod_count = report.pod_count;
    reported_at = proto_timestamp_to_chrono w now report.reported_at;
  }

  -- `report_health` of the server
  unfoldable pub serve_report_health :
      AgentRegistry
      → Option String
      → AgentHealthReport
      → DateTime
      → AgentRegistry × Result StatusResponse Status
  unfolding authenticated_cluster_id report_health_for_cluster api_error_to_status
  serve_report_health r claims report now = elim (authenticated_cluster_id claims) [
    | err e ↦ (r, err e)
    | ok cluster_id ↦ elim (w.parse_uuid report.agent_id) [
      | none ↦ (r, err (invalid_argument "Invalid agent_id: {e}"))
      | some agent_id ↦
          let (r', taken) =
            report_health_for_cluster r cluster_id (health_of now agent_id report) now in
          (
            r',
            map_ok (λ _. record { success = true; message = "Health reported" })
                (map_err api_error_to_status taken),
          )
    ]
  ]

  -- `report_deploy_status` of the server; the fields of `AgentDeployStatus` are given one by one
  unfoldable pub serve_report_deploy_status :
      Option String
      → DateTime
      → String
      → Bool
      → String
      → Option Timestamp
      → Result StatusResponse Status
  unfolding authenticated_cluster_id report_deploy_status api_error_to_status
  serve_report_deploy_status claims now project_name success message timestamp = do
    cluster_id ← authenticated_cluster_id claims
    taken ← map_err api_error_to_status (
        report_deploy_status (record {
          project_name = project_name;
          success = success;
          message = message;
          reported_at = proto_timestamp_to_chrono w now timestamp;
        }))
    ok (record { success = true; message = "Deploy status received" })
