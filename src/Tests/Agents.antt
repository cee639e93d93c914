-- ===== src/Tests/Agents.antt =====
-- An agent of one cluster, and another cluster that claims the same identity.
use reinhardt_cloud.Base.{
  String, true, false, Option, none, some, List, [], ◌∷◌, ◌≡◌, refl, inl, arith, nat_eq, ◌==◌,
  if◌then◌else◌,
}
use reinhardt_cloud.Base.Map.{get, insert}
use reinhardt_cloud.Base.Result.{Result, ok, err}
use reinhardt_cloud.Types.Basic.{Uuid, DateTime}
use reinhardt_cloud.Types.Agent as Agent
use reinhardt_cloud.Types.Agent.{AgentEvent, AgentHealth}
use reinhardt_cloud.Core.ApiError.{ApiError, internal}
use reinhardt_cloud.Grpc.Wire.{permission_denied}
use reinhardt_cloud.Grpc.Registry.Defs.{
  AgentConnection, AgentRegistry, new, register_with_cluster, claim,
}
use reinhardt_cloud.Grpc.Registry.Generations.{generation_at}
use reinhardt_cloud.Grpc.Agent.Service.{
  AgentHealthReport, Session, pump, announce, agent_stream_authenticated, serve_agent_stream,
  serve_report_health, serve_report_deploy_status,
}
use reinhardt_cloud.Grpc.Agent.World.{
  World, empty_world, open_session, opens, Reached, starts, after,
}
use reinhardt_cloud.Grpc.Agent.Invariant.{IsWorldValid, reached-IsWorldValid}
use reinhardt_cloud.Grpc.Agent.Isolation.{Remains, Others, rests, acts, others-Remains}
use reinhardt_cloud.Grpc.Agent.Refused.{unknown-refused}
use reinhardt_cloud.Grpc.Agent.Ended.{pump-removes}
use reinhardt_cloud.Tests.Wire.{wire}

abbrev hello : Option (Result AgentEvent ApiError)
hello = some (ok (Agent.connected 7 "prod" 5))

-- cluster 1 opens a stream for agent 7
abbrev joined_world : World
joined_world = open_session empty_world 1 hello 10 100

abbrev joined : Reached 1 joined_world
joined = after 1 starts (opens hello 10 100)

reached-IsWorldValid_example : IsWorldValid joined_world
reached-IsWorldValid_example = reached-IsWorldValid 1 joined_world joined (ground arith)

abbrev connection : AgentConnection
connection = record {
  generation = 0;
  info = record {
    agent_id = 7;
    cluster_name = "prod";
    node_name = "";
    version = "";
    last_seen = 5;
  };
  health = none;
  command_tx = 100;
  last_heartbeat = 10;
  cluster_id = some 1;
}

connected_here : get 7 joined_world.registry.agents ≡ some connection
unfolding open_session agent_stream_authenticated announce register_with_cluster claim get insert
connected_here = refl

-- cluster 2 claims the same agent, and reports on its health
abbrev lie : AgentHealth
lie = record {
  agent_id = 7;
  healthy = false;
  cpu_usage_percent = 0;
  memory_usage_percent = 0;
  pod_count = 0;
  reported_at = 11;
}

abbrev claimed_world : World
claimed_world = open_session joined_world 2 hello 11 200

abbrev other_cluster : Uuid
other_cluster = 2

differs : ¬ (other_cluster ≡ 1)
differs e = absurd (ground arith)

abbrev attack : Others 1 joined_world 1 claimed_world
attack = acts 2 rests differs (opens hello 11 200)

others-Remains_example : Remains claimed_world.registry 7 connection
others-Remains_example =
    others-Remains 1 joined_world 7 1 connection 1 claimed_world joined attack (ground arith)
      connected_here refl

abbrev health_report : AgentHealthReport
health_report = record {
  agent_id = "7";
  healthy = true;
  cpu_usage_percent = 0;
  memory_usage_percent = 0;
  pod_count = 0;
  reported_at = none;
}

unknown-refused_example :
    (denied : String) × (serve_agent_stream wire new none [] 10 100
      ≡ (new, err (permission_denied denied)))
    × (serve_report_health wire new none health_report 10 ≡ (new, err (permission_denied denied)))
    × (serve_report_deploy_status wire none 10 "web" true "done" none
        ≡ err (permission_denied denied))
unknown-refused_example =
    unknown-refused wire new none (inl refl) 10 [] 100 health_report "web" true "done" none

abbrev session : Session
session = record { agent_id = 7; generation = 0; cluster_id = 1; commands = 100 }

abbrev registry : AgentRegistry
registry = record { agents = (7, connection) ∷ []; next_generation = 1 }

abbrev events : List (DateTime × Result AgentEvent ApiError)
events = (12, ok (Agent.heartbeat 7 12)) ∷ (13, err (internal "reset")) ∷ []

session_current : generation_at registry 7 ≡ some 0
unfolding get
session_current = refl

pump-removes_example :
    get 7 (pump session registry events).agents
    ≡ (if session.agent_id == 7 then none else get 7 registry.agents)
pump-removes_example = pump-removes session registry events 7 session_current
