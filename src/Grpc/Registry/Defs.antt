-- ===== src/Grpc/Registry/Defs.antt =====
-- The registry's state and its operations.
use reinhardt_cloud.Base.{
  ℕ, ◌+◌, ◌-◌, ◌*◌, ◌%◌, ◌^◌, Bool, true, false, not, ◌&&◌, Option, none, some, List, map, filter,
  length, leb, ltb, ◌==◌, nat_eq, if◌then◌else◌,
}
use reinhardt_cloud.Base.Map.{Map, get, insert, remove, retain, find_entry}
use reinhardt_cloud.Base.Result.{Result, ok, err}
use reinhardt_cloud.Types.Basic.{Uuid, DateTime, nanos_per_sec}
use reinhardt_cloud.Types.Agent.{AgentInfo, AgentCommand, AgentHealth}

-- `HEARTBEAT_INTERVAL`, 30 seconds
abbrev pub heartbeat_interval : ℕ
heartbeat_interval = 30 * nanos_per_sec

abbrev pub missed_heartbeats_threshold : ℕ
missed_heartbeats_threshold = 3

pub data ClusterBindingError : Type 0 where
  not_registered cluster_mismatch : ClusterBindingError

-- the channel over which commands reach one connection
abbrev pub Sender : Type 0
Sender = ℕ

pub record AgentConnection : Type 0 where
  pub generation : ℕ
  pub info : AgentInfo
  pub health : Option AgentHealth
  pub command_tx : Sender
  pub last_heartbeat : DateTime
  pub cluster_id : Option Uuid

pub record AgentRegistry : Type 0 where
  pub agents : Map Uuid AgentConnection
  -- `AtomicU64`
  pub next_generation : ℕ

-- what `register_with_cluster` returns
pub record ClusterRegistration : Type 0 where
  pub commands : Sender
  pub generation : ℕ

abbrev pub new : AgentRegistry
new = record { agents = List.[]; next_generation = 0 }

-- `next_generation.fetch_add(1)` leaves this; it wraps
abbrev pub bump : ℕ → ℕ
bump n = (n + 1) % 2 ^ 64

-- `conn.cluster_id == Some(cluster_id)`
unfoldable pub is_bound_to : Uuid → AgentConnection → Bool
is_bound_to cluster_id conn = elim conn.cluster_id [ none ↦ false | some c ↦ c == cluster_id ]

unfoldable pub register : AgentRegistry → AgentInfo → DateTime → Sender → AgentRegistry × Sender
register r info now tx =
    let conn : AgentConnection = record {
      generation = r.next_generation;
      info = info;
      health = none;
      command_tx = tx;
      last_heartbeat = now;
      cluster_id = none;
    } in
    (
      record {
        agents = insert info.agent_id conn r.agents;
        next_generation = bump r.next_generation;
      },
      tx,
    )

-- the two arms of `self.agents.entry(agent_id)`: the occupied entry is refused or replaced
unfoldable pub claim :
    Option AgentConnection
    → AgentRegistry
    → Uuid
    → Uuid
    → AgentConnection
    → AgentRegistry × Result ClusterRegistration ClusterBindingError
unfolding is_bound_to
claim (some occupied) r agent_id cluster_id conn =
    if is_bound_to cluster_id occupied
    then (
      record r { agents = insert agent_id conn r.agents },
      ok (record { commands = conn.command_tx; generation = conn.generation }),
    )
    else (r, err cluster_mismatch)
claim none r agent_id cluster_id conn = (
  record r { agents = insert agent_id conn r.agents },
  ok (record { commands = conn.command_tx; generation = conn.generation }),
)

-- the generation is drawn before the entry is looked at, so a refusal uses one up too
unfoldable pub register_with_cluster :
    AgentRegistry
    → AgentInfo
    → Uuid
    → DateTime
    → Sender
    → AgentRegistry × Result ClusterRegistration ClusterBindingError
unfolding claim
register_with_cluster r info cluster_id now tx =
    let conn : AgentConnection = record {
      generation = r.next_generation;
      info = info;
      health = none;
      command_tx = tx;
      last_heartbeat = now;
      cluster_id = some cluster_id;
    } in
    claim (get info.agent_id r.agents) (record r { next_generation = bump r.next_generation })
      info.agent_id cluster_id conn

-- The commands that reach a connection: whether `send(..).await` on a channel succeeds, that is
-- whether its receiver still lives, is known to the channel alone.
pub data Delivery : Type 0 where
  -- the command went to this channel
  delivered : Sender → AgentCommand → Delivery
  -- "Agent {agent_id} not connected"
  not_connected : Delivery
  -- "Agent {agent_id} command channel closed"
  channel_closed : Delivery
  -- "No agent connected for cluster {cluster_id}"
  no_agent : Delivery

unfoldable pub send_command : AgentRegistry → (Sender → Bool) → Uuid → AgentCommand → Delivery
send_command r is_open agent_id command = elim (get agent_id r.agents) [
  | none ↦ not_connected
  | some conn ↦
      if is_open conn.command_tx then delivered conn.command_tx command else channel_closed
]

-- The agent is looked for in the registry `r`. The command is sent later, by its identity, from what
-- the registry is then, `r'`: between the two the map is not locked.
unfoldable pub send_command_to_cluster :
    AgentRegistry → AgentRegistry → (Sender → Bool) → Uuid → AgentCommand → Delivery
unfolding is_bound_to send_command
send_command_to_cluster r r' is_open cluster_id command =
    elim (find_entry (λ _ conn. is_bound_to cluster_id conn) r.agents) [
      | none ↦ no_agent
      | some entry ↦ send_command r' is_open entry.0 command
    ]

unfoldable pub agents_for_cluster : AgentRegistry → Uuid → List Uuid
unfolding is_bound_to
agents_for_cluster r cluster_id =
    map (λ entry. entry.0) (filter (λ entry. is_bound_to cluster_id entry.1) r.agents)

unfoldable pub unregister : AgentRegistry → Uuid → AgentRegistry
unregister r agent_id = record r { agents = remove agent_id r.agents }

-- the removal is one atomic `remove_if`
unfoldable pub unregister_if : AgentRegistry → Uuid → ℕ → AgentRegistry × Bool
unregister_if r agent_id generation = elim (get agent_id r.agents) [
  | none ↦ (r, false)
  | some conn ↦
      if conn.generation == generation
      then (record r { agents = remove agent_id r.agents }, true)
      else (r, false)
]

unfoldable pub heartbeat : AgentRegistry → Uuid → DateTime → AgentRegistry
heartbeat r agent_id now = elim (get agent_id r.agents) [
  | none ↦ r
  | some conn ↦ record r {
    agents = insert agent_id (record conn { last_heartbeat = now }) r.agents;
  }
]

unfoldable pub update_health : AgentRegistry → Uuid → AgentHealth → DateTime → AgentRegistry
update_health r agent_id health now = elim (get agent_id r.agents) [
  | none ↦ r
  | some conn ↦ record r {
    agents = insert agent_id (record conn { health = some health; last_heartbeat = now }) r.agents;
  }
]

unfoldable pub update_health_for_cluster :
    AgentRegistry
    → Uuid
    → AgentHealth
    → DateTime
    → AgentRegistry × Result (Unit {0}) ClusterBindingError
unfolding is_bound_to
update_health_for_cluster r cluster_id health now = elim (get health.agent_id r.agents) [
  | none ↦ (r, err not_registered)
  | some conn ↦
      if is_bound_to cluster_id conn
      then (
        record r {
          agents =
              insert health.agent_id (record conn { health = some health; last_heartbeat = now })
                r.agents;
        },
        ok tt,
      )
      else (r, err cluster_mismatch)
]

unfoldable pub list_connected : AgentRegistry → List AgentInfo
list_connected r = map (λ entry. entry.1.info) r.agents

-- a heartbeat in the future makes `to_std` fail, and `Duration::MAX` is past every timeout
unfoldable pub is_healthy : AgentRegistry → Uuid → DateTime → Bool
is_healthy r agent_id now = elim (get agent_id r.agents) [
  | none ↦ false
  | some conn ↦
      leb conn.last_heartbeat now
      && ltb (now - conn.last_heartbeat) (heartbeat_interval * missed_heartbeats_threshold)
]

-- `elapsed >= timeout`
unfoldable pub is_stale : DateTime → AgentConnection → Bool
is_stale now conn = not (
    leb conn.last_heartbeat now
    && ltb (now - conn.last_heartbeat) (heartbeat_interval * missed_heartbeats_threshold))

-- The clock is read at each entry. What is returned are the agents that are removed.
unfoldable pub evict_stale_agents : AgentRegistry → (Uuid → DateTime) → AgentRegistry × List Uuid
unfolding is_stale
evict_stale_agents r clock = (
  record r { agents = retain (λ agent_id conn. not (is_stale (clock agent_id) conn)) r.agents },
  map (λ entry. entry.0) (filter (λ entry. is_stale (clock entry.0) entry.1) r.agents),
)

unfoldable pub get_health : AgentRegistry → Uuid → Option AgentHealth
get_health r agent_id = elim (get agent_id r.agents) [ none ↦ none | some conn ↦ conn.health ]

unfoldable pub count : AgentRegistry → ℕ
count r = length r.agents

-- The operations that change the registry, for sequences of them.
pub data Op : Type 0 where
  do_register : AgentInfo → DateTime → Sender → Op
  do_register_with_cluster : AgentInfo → Uuid → DateTime → Sender → Op
  do_unregister : Uuid → Op
  do_unregister_if : Uuid → ℕ → Op
  do_heartbeat : Uuid → DateTime → Op
  do_update_health : Uuid → AgentHealth → DateTime → Op
  do_update_health_for_cluster : Uuid → AgentHealth → DateTime → Op
  do_evict_stale_agents : (Uuid → DateTime) → Op

unfoldable pub step : AgentRegistry → Op → AgentRegistry
step r (do_register info now tx) = (register r info now tx).0
step r (do_register_with_cluster info cluster_id now tx) =
    (register_with_cluster r info cluster_id now tx).0
step r (do_unregister agent_id) = unregister r agent_id
step r (do_unregister_if agent_id generation) = (unregister_if r agent_id generation).0
step r (do_heartbeat agent_id now) = heartbeat r agent_id now
step r (do_update_health agent_id health now) = update_health r agent_id health now
step r (do_update_health_for_cluster cluster_id health now) =
    (update_health_for_cluster r cluster_id health now).0
step r (do_evict_stale_agents clock) = (evict_stale_agents r clock).0

unfoldable pub run : AgentRegistry → List Op → AgentRegistry
run r List.[] = r
run r (List.◌∷◌ op ops) = run (step r op) ops
