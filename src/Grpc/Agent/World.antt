-- ===== src/Grpc/Agent/World.antt =====
-- The registry with the sessions of the agents, whose tasks run beside each other.
use reinhardt_cloud.Base.{ℕ, Option, some, List, ◌∷◌, get_elem?, ◌≡◌}
use reinhardt_cloud.Base.Result.{Result, ok, err}
use reinhardt_cloud.Types.Basic.{Uuid, DateTime}
use reinhardt_cloud.Types.Agent.{AgentEvent, AgentHealth}
use reinhardt_cloud.Core.ApiError.{ApiError}
use reinhardt_cloud.Grpc.Registry.Defs.{AgentRegistry, Sender, new}
use reinhardt_cloud.Grpc.Agent.Service.{
  Session, agent_stream_authenticated, pump_event, end_task, report_health_for_cluster,
}

-- `sessions` are all that were opened so far. A task that has ended does nothing more; here it may
-- still act, which only adds to what can happen.
pub record World : Type 0 where
  pub registry : AgentRegistry
  pub sessions : List Session

abbrev pub empty_world : World
empty_world = record { registry = new; sessions = List.[] }

unfoldable pub add_session : List Session → Result Session ApiError → List Session
add_session sessions (err e) = sessions
add_session sessions (ok s) = s ∷ sessions

-- a call of `agent_stream_authenticated`
unfoldable pub open_session :
    World → Uuid → Option (Result AgentEvent ApiError) → DateTime → Sender → World
unfolding agent_stream_authenticated add_session
open_session w cluster_id first now tx =
    let (r', opened) = agent_stream_authenticated w.registry cluster_id first now tx in
    record { registry = r'; sessions = add_session w.sessions opened }

-- One effect of what a cluster's agents do: a stream is opened, a task handles an event or ends, or
-- a health report comes in.
pub data Step (cluster_id : Uuid) (w : World) : World → Type 0 where
  opens :
      (first : Option (Result AgentEvent ApiError)) (now : DateTime) (tx : Sender)
      → Step cluster_id w (open_session w cluster_id first now tx)
  pumps :
      (i : ℕ) (s : Session) (now : DateTime) (event : Result AgentEvent ApiError)
      → get_elem? w.sessions i ≡ some s
      → s.cluster_id ≡ cluster_id
      → Step cluster_id w (record w { registry = (pump_event s w.registry now event).0 })
  ends :
      (i : ℕ) (s : Session)
      → get_elem? w.sessions i ≡ some s
      → s.cluster_id ≡ cluster_id
      → Step cluster_id w (record w { registry = end_task s w.registry })
  reports :
      (health : AgentHealth) (now : DateTime)
      → Step cluster_id w
          (record w { registry = (report_health_for_cluster w.registry cluster_id health now).0 })

-- what is reached from the empty registry by any number of steps of any clusters
pub data Reached : ℕ → World → Type 0 where
  starts : Reached 0 empty_world
  after :
      {n : ℕ} {w w' : World} (cluster_id : Uuid)
      → Reached n w
      → Step cluster_id w w'
      → Reached (ℕ.suc n) w'
