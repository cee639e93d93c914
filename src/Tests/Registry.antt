-- ===== src/Tests/Registry.antt =====
-- A registry with two agents of two clusters.
use reinhardt_cloud.Base.{
  ℕ, ◌≡◌, ◌≤◌, ◌⊎◌, ◌*◌, ◌&&◌, ◌==◌, not, is_some, if◌then◌else◌, refl, true, false, none, some,
  List, [], ◌∷◌, nat_eq, arith, subst, Bool,
}
use reinhardt_cloud.Base.Map.{get, insert, find_entry}
use reinhardt_cloud.Base.Set.{has}
use reinhardt_cloud.Types.Basic.{Uuid, DateTime, nanos_per_sec}
use reinhardt_cloud.Types.Agent.{AgentInfo, AgentHealth, restart}
use reinhardt_cloud.Grpc.Registry.Defs
use reinhardt_cloud.Grpc.Registry.Defs.{
  AgentConnection, AgentRegistry, Op, Sender, cluster_mismatch,
}
use reinhardt_cloud.Grpc.Registry.Validity.{IsValid, run-IsValid, new-IsValid}
use reinhardt_cloud.Grpc.Registry.Generations.{IsStale, unregister_if-stale}
use reinhardt_cloud.Grpc.Registry.Binding.{step-keeps_cluster}
use reinhardt_cloud.Grpc.Registry.Eviction.{evict_stale_agents-is_healthy}
use reinhardt_cloud.Grpc.Registry.Routing.{send_command_to_cluster-delivered}

abbrev agent : ℕ → AgentInfo
agent n = record {
  agent_id = n;
  cluster_name = "eu";
  node_name = "node";
  version = "1";
  last_seen = 0;
}

abbrev conn_of : ℕ → ℕ → ℕ → AgentConnection
conn_of n cluster_id generation = record {
  generation = generation;
  info = agent n;
  health = none;
  command_tx = n;
  last_heartbeat = 0;
  cluster_id = some cluster_id;
}

-- agent 1 of cluster 10, which has registered twice, and agent 2 of cluster 20
abbrev ops : List Op
ops =
    Defs.do_register_with_cluster (agent 1) 10 0 1
    ∷ Defs.do_register_with_cluster (agent 2) 20 0 2
    ∷ Defs.do_register_with_cluster (agent 1) 10 0 1
    ∷ []

abbrev two_agents : AgentRegistry
two_agents = record { agents = (1, conn_of 1 10 2) ∷ (2, conn_of 2 20 1) ∷ []; next_generation = 3 }

ops-run : Defs.run Defs.new ops ≡ two_agents
unfolding Defs.run Defs.step Defs.register_with_cluster Defs.claim Defs.is_bound_to get insert
ops-run = refl

valid : IsValid two_agents
valid = subst IsValid ops-run (run-IsValid Defs.new ops (ground arith) new-IsValid)

run-IsValid_example : IsValid (Defs.run Defs.new ops)
run-IsValid_example = run-IsValid Defs.new ops (ground arith) new-IsValid

stale : IsStale two_agents 1 0
unfolding get
stale = record { issued = ground arith; replaced = λ e. ground arith }

unregister_if-stale_example :
    Defs.unregister_if (Defs.run two_agents ops) 1 0 ≡ (Defs.run two_agents ops, false)
unregister_if-stale_example = unregister_if-stale two_agents ops 1 0 (ground arith) stale

step-keeps_cluster_example : (conn_of 1 10 3).cluster_id ≡ (conn_of 1 10 2).cluster_id
unfolding Defs.step Defs.register_with_cluster Defs.claim Defs.is_bound_to get insert
step-keeps_cluster_example =
    step-keeps_cluster two_agents 1 (conn_of 1 10 2) (conn_of 1 10 3) refl
      (Defs.do_register_with_cluster (agent 1) 10 0 1) tt refl

own_cluster : (c : AgentConnection) → get 1 two_agents.agents ≡ some c → c.cluster_id ≡ some 10
unfolding get
own_cluster c h = ground arith

abbrev report : AgentHealth
report = record {
  agent_id = 2;
  healthy = true;
  cpu_usage_percent = 1;
  memory_usage_percent = 2;
  pod_count = 3;
  reported_at = 4;
}

abbrev always : Sender → Bool
always tx = true

-- between the look-up and the sending, agent 2 registers anew
abbrev between : List Op
between = Defs.do_register_with_cluster (agent 2) 20 5 7 ∷ []

delivered_20 :
    Defs.send_command_to_cluster two_agents (Defs.run two_agents between) always 20 (restart "web")
    ≡ Defs.delivered 7 (restart "web")
unfolding Defs.send_command_to_cluster Defs.send_command Defs.is_bound_to find_entry get Defs.run
    Defs.step Defs.register_with_cluster Defs.claim insert
delivered_20 = refl

send_command_to_cluster-delivered_example :
    (k : Uuid) × (c : AgentConnection) × (c' : AgentConnection) × (get k two_agents.agents ≡ some c)
    × (c.cluster_id ≡ some 20)
    × (get k (Defs.run two_agents between).agents ≡ some c')
    × ((c'.cluster_id ≡ some 20) ⊎ (3 ≤ c'.generation))
    × (c'.command_tx ≡ 7)
    × (always 7 ≡ true)
    × (restart "web" ≡ restart "web")
send_command_to_cluster-delivered_example =
    send_command_to_cluster-delivered two_agents valid always 20 (restart "web") between 7
      (restart "web") (ground arith) delivered_20

-- agent 1 is looked at in time, agent 2 too late
abbrev clock : Uuid → DateTime
clock k = if k == 1 then 5 else 200 * nanos_per_sec

evict_stale_agents-is_healthy_example :
    (get 2 (Defs.evict_stale_agents two_agents clock).0.agents
      ≡ (if Defs.is_healthy two_agents 2 (clock 2) then get 2 two_agents.agents else none))
    × (has 2 (Defs.evict_stale_agents two_agents clock).1
        ≡ (is_some (get 2 two_agents.agents) && not (Defs.is_healthy two_agents 2 (clock 2))))
evict_stale_agents-is_healthy_example = evict_stale_agents-is_healthy two_agents clock 2 valid
