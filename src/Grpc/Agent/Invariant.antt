-- ===== src/Grpc/Agent/Invariant.antt =====
-- What holds of the registry and its sessions whatever the agents do.
use reinhardt_cloud.Base.{
  ℕ, ◌+◌, ◌^◌, ◌<◌, ◌≤◌, ◌≡◌, refl, Option, none, some, List, All, All-imp, arith, Bool, nat_eq,
  ◌==◌, if_intro,
}
use reinhardt_cloud.Base.Result.{Result, ok, err}
use reinhardt_cloud.Types.Basic.{Uuid, DateTime}
use reinhardt_cloud.Types.Agent as Agent
use reinhardt_cloud.Types.Agent.{AgentInfo, AgentEvent, AgentHealth}
use reinhardt_cloud.Core.ApiError.{ApiError}
use reinhardt_cloud.Grpc.Registry.Defs.{
  AgentRegistry, Sender, register_with_cluster, heartbeat, step, do_register_with_cluster,
  do_heartbeat, do_unregister_if, do_update_health_for_cluster,
}
use reinhardt_cloud.Grpc.Registry.Validity.{
  IsValid, step-IsValid, next_generation-step, new-IsValid,
}
use reinhardt_cloud.Grpc.Agent.Service.{
  Session, announce, agent_stream_authenticated, pump_event, end_task, report_health_for_cluster,
}
use reinhardt_cloud.Grpc.Agent.World.{
  World, add_session, Step, opens, pumps, ends, reports, open_session, Reached, starts, after,
  empty_world,
}
use reinhardt_cloud.Grpc.Agent.Owned.{
  IsOwned, Follows, Follows-IsOwned, heartbeat-Follows, unregister_if-Follows, report-Follows,
  register-Follows, registered-IsOwned,
}

-- The invariant: the registry is valid, and every session owns the connections of its generation.
pub record IsWorldValid (w : World) : Type 0 where
  pub registry : IsValid w.registry
  pub owned : All (IsOwned w.registry) w.sessions

add_session-IsOwned :
    (r : AgentRegistry) (sessions : List Session) (o : Result Session ApiError)
    → All (IsOwned r) sessions
    → ((s : Session) → o ≡ ok s → IsOwned r s)
    → All (IsOwned r) (add_session sessions o)
unfolding add_session
add_session-IsOwned r sessions (err e) h f = h
add_session-IsOwned r sessions (ok s) h f = (f s refl, h)

module _ (w : World) (v : IsWorldValid w) where
  kept : (r' : AgentRegistry) → Follows w.registry r' → All (IsOwned r') w.sessions
  kept r' f = All-imp _ _ w.sessions (λ s own. Follows-IsOwned w.registry r' s f own) v.owned

  -- an operation that opens no session
  followed :
      (r' : AgentRegistry)
      → Follows w.registry r'
      → IsValid r'
      → IsWorldValid (record w { registry = r' })
  followed r' f v' = record { registry = v'; owned = kept r' f }

  module _ (b : w.registry.next_generation + 1 < 2 ^ 64) where
    opened :
        (info : AgentInfo) (cluster_id : Uuid) (now : DateTime) (tx : Sender)
        → IsWorldValid (record {
          registry = (announce w.registry cluster_id info now tx).0;
          sessions = add_session w.sessions (announce w.registry cluster_id info now tx).1;
        })
    unfolding announce step
    opened info cluster_id now tx =
        let r' = (register_with_cluster w.registry info cluster_id now tx).0 in
        record {
          registry =
              step-IsValid w.registry (do_register_with_cluster info cluster_id now tx) b
                v.registry;
          owned =
              add_session-IsOwned r' w.sessions _
                (kept r' (register-Follows w.registry info cluster_id now tx b))
                (registered-IsOwned w.registry info cluster_id now tx b v.registry);
        }

    open_session-IsWorldValid :
        (cluster_id : Uuid) (first : Option (Result AgentEvent ApiError)) (now : DateTime)
        (tx : Sender)
        → IsWorldValid (open_session w cluster_id first now tx)
    unfolding open_session agent_stream_authenticated add_session
    open_session-IsWorldValid c (some (ok (Agent.connected agent_id name t))) now tx =
        opened
          (record {
            agent_id = agent_id;
            cluster_name = name;
            node_name = "";
            version = "";
            last_seen = t;
          })
          c now tx
    open_session-IsWorldValid c (some (ok (Agent.deploy_status p s m t))) now tx = v
    open_session-IsWorldValid c (some (ok (Agent.heartbeat id t))) now tx = v
    open_session-IsWorldValid c (some (ok (Agent.error m t))) now tx = v
    open_session-IsWorldValid c (some (ok (Agent.command_status p k s m t))) now tx = v
    open_session-IsWorldValid c (some (err e)) now tx = v
    open_session-IsWorldValid c none now tx = v

    beat :
        (id : Uuid) (now : DateTime)
        → IsWorldValid (record w { registry = heartbeat w.registry id now })
    unfolding step
    beat id now =
        followed (heartbeat w.registry id now) (heartbeat-Follows w.registry id now)
          (step-IsValid w.registry (do_heartbeat id now) b v.registry)

    pump_event-IsWorldValid :
        (s : Session) (now : DateTime) (event : Result AgentEvent ApiError)
        → IsWorldValid (record w { registry = (pump_event s w.registry now event).0 })
    unfolding pump_event
    pump_event-IsWorldValid s now (ok (Agent.heartbeat id t)) =
        if_intro (λ (p : AgentRegistry × Bool). IsWorldValid (record w { registry = p.0 }))
          (id == s.agent_id) (λ _. beat id now) (λ _. v)
    pump_event-IsWorldValid s now (ok (Agent.connected i n t)) = v
    pump_event-IsWorldValid s now (ok (Agent.deploy_status p o m t)) = v
    pump_event-IsWorldValid s now (ok (Agent.error m t)) = v
    pump_event-IsWorldValid s now (ok (Agent.command_status p k o m t)) = v
    pump_event-IsWorldValid s now (err e) = v

    Step-IsWorldValid : (cluster_id : Uuid) (w' : World) → Step cluster_id w w' → IsWorldValid w'
    unfolding end_task report_health_for_cluster step
    Step-IsWorldValid c w' (opens first now tx) = open_session-IsWorldValid c first now tx
    Step-IsWorldValid c w' (pumps i s now event here own) = pump_event-IsWorldValid s now event
    Step-IsWorldValid c w' (ends i s here own) =
        followed _ (unregister_if-Follows w.registry s.agent_id s.generation)
          (step-IsValid w.registry (do_unregister_if s.agent_id s.generation) b v.registry)
    Step-IsWorldValid c w' (reports health now) =
        followed _ (report-Follows w.registry c health now)
          (step-IsValid w.registry (do_update_health_for_cluster c health now) b v.registry)

-- one operation of the registry at most
Little : AgentRegistry → AgentRegistry → Type 0
Little r r' = r'.next_generation ≤ r.next_generation + 1

module _ (w : World) (b : w.registry.next_generation + 1 < 2 ^ 64) where
  open_session-Little :
      (cluster_id : Uuid) (first : Option (Result AgentEvent ApiError)) (now : DateTime)
      (tx : Sender)
      → Little w.registry (open_session w cluster_id first now tx).registry
  unfolding Little open_session agent_stream_authenticated announce step
  open_session-Little c (some (ok (Agent.connected agent_id name t))) now tx =
      let info : AgentInfo = record {
        agent_id = agent_id;
        cluster_name = name;
        node_name = "";
        version = "";
        last_seen = t;
      } in
      (next_generation-step w.registry (do_register_with_cluster info c now tx) b).1
  open_session-Little c (some (ok (Agent.deploy_status p s m t))) now tx = omega arith
  open_session-Little c (some (ok (Agent.heartbeat id t))) now tx = omega arith
  open_session-Little c (some (ok (Agent.error m t))) now tx = omega arith
  open_session-Little c (some (ok (Agent.command_status p k s m t))) now tx = omega arith
  open_session-Little c (some (err e)) now tx = omega arith
  open_session-Little c none now tx = omega arith

  pump_event-Little :
      (s : Session) (now : DateTime) (event : Result AgentEvent ApiError)
      → Little w.registry (pump_event s w.registry now event).0
  unfolding Little pump_event heartbeat
  pump_event-Little s now event = ground arith

  Step-Little :
      (cluster_id : Uuid) (w' : World) → Step cluster_id w w' → Little w.registry w'.registry
  unfolding Little end_task report_health_for_cluster step
  Step-Little c w' (opens first now tx) = open_session-Little c first now tx
  Step-Little c w' (pumps i s now event here own) = pump_event-Little s now event
  Step-Little c w' (ends i s here own) =
      (next_generation-step w.registry (do_unregister_if s.agent_id s.generation) b).1
  Step-Little c w' (reports health now) =
      (next_generation-step w.registry (do_update_health_for_cluster c health now) b).1

empty_world-IsWorldValid : IsWorldValid empty_world
empty_world-IsWorldValid = record { registry = new-IsValid; owned = tt }

reached_bound :
    (n : ℕ) (w : World)
    → Reached n w
    → n + 1 < 2 ^ 64
    → IsWorldValid w × (w.registry.next_generation ≤ n)
unfolding Little
reached_bound n w starts b = (empty_world-IsWorldValid, omega arith)
reached_bound _ w' (after {n} {w} c r s) b =
    let (v, low) = reached_bound n w r (omega arith) in
    let small : w.registry.next_generation + 1 < 2 ^ 64 = omega (arith, low) in
    (Step-IsWorldValid w v small c w' s, omega (arith, low, Step-Little w small c w' s))

-- Whatever agents of any clusters do, in whatever order, for fewer than 2^64 - 1 steps: the registry
-- is valid, and a connection in it that has the generation of a session has the agent that the
-- session announced and the cluster that its token names.
pub reached-IsWorldValid : (n : ℕ) (w : World) → Reached n w → n + 1 < 2 ^ 64 → IsWorldValid w
reached-IsWorldValid n w r b = (reached_bound n w r b).0
