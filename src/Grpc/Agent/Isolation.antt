-- ===== src/Grpc/Agent/Isolation.antt =====
-- What the agents of one cluster can do to a connection that is bound to another cluster.
use mathlib.Core.Option
use mathlib.Core.Option.{some-injective}
use reinhardt_cloud.Base.{
  ℕ, suc, ◌+◌, ◌^◌, ◌<◌, ◌≡◌, ◌≢◌, sym, ap, ◌∙◌, subst, inl, inr, Bool, Option, none, some,
  All-get_elem?, arith, nat_eq, ◌==◌, if_intro, Bool-cases, nat_beq_iff, Option-cases,
}
use reinhardt_cloud.Base.Map.{get, get-insert, get-remove}
use reinhardt_cloud.Base.Result.{Result, ok, err}
use reinhardt_cloud.Types.Basic.{Uuid, DateTime}
use reinhardt_cloud.Types.Agent as Agent
use reinhardt_cloud.Types.Agent.{AgentInfo, AgentEvent, AgentHealth}
use reinhardt_cloud.Core.ApiError.{ApiError}
use reinhardt_cloud.Grpc.Registry.Defs.{
  AgentConnection, AgentRegistry, Sender, register_with_cluster, heartbeat, unregister_if,
  update_health_for_cluster,
}
use reinhardt_cloud.Grpc.Registry.Binding.{fresh, is_bound_to_iff}
use reinhardt_cloud.Grpc.Agent.Service.{
  Session, announce, agent_stream_authenticated, pump_event, end_task, report_health_for_cluster,
}
use reinhardt_cloud.Grpc.Agent.World.{
  World, Step, opens, pumps, ends, reports, open_session, Reached, after,
}
use reinhardt_cloud.Grpc.Agent.Owned.{IsOwned, tag, tag_at}
use reinhardt_cloud.Grpc.Agent.Invariant.{IsWorldValid, reached-IsWorldValid}

-- the connection is there as before, but for the time of its last heartbeat
abbrev pub Remains : AgentRegistry → Uuid → AgentConnection → Type 0
Remains r k conn = (t : DateTime) × (get k r.agents ≡ some (record conn { last_heartbeat = t }))

module _ (r : AgentRegistry) (k : Uuid) (conn : AgentConnection)
    (here : get k r.agents ≡ some conn) where
  same : Remains r k conn
  same = (conn.last_heartbeat, here)

  heartbeat-Remains : (i : Uuid) (now : DateTime) → Remains (heartbeat r i now) k conn
  unfolding heartbeat
  heartbeat-Remains i now = elim (Bool-cases (i == k)) [
    | inl own ↦ (
      now,
      ground
          (arith, get-insert i k (record conn { last_heartbeat = now }) r.agents, nat_beq_iff i k),
    )
    | inr other ↦ elim (Option-cases (get i r.agents)) [
      | inl gone ↦ rw (gone, heartbeat) same
      | inr (c, there) ↦ (
        conn.last_heartbeat,
        ground (arith, there, get-insert i k (record c { last_heartbeat = now }) r.agents),
      )
    ]
  ]

  module _ (cluster_id : Uuid) (foreign : conn.cluster_id ≢ some cluster_id) where
    register-Remains :
        (info : AgentInfo) (now : DateTime) (tx : Sender)
        → Remains (register_with_cluster r info cluster_id now tx).0 k conn
    unfolding register_with_cluster
    register-Remains info now tx = (
      conn.last_heartbeat,
      ground (
        arith,
        is_bound_to_iff cluster_id conn,
        get-insert info.agent_id k (fresh r info cluster_id now tx) r.agents,
        nat_beq_iff info.agent_id k,
      ),
    )

    report-Remains :
        (health : AgentHealth) (now : DateTime)
        → Remains (update_health_for_cluster r cluster_id health now).0 k conn
    unfolding update_health_for_cluster
    report-Remains health now = elim (Option-cases (get health.agent_id r.agents)) [
      | inl gone ↦ rw (gone, update_health_for_cluster) same
      | inr (c, there) ↦ (
        conn.last_heartbeat,
        ground (
          arith,
          there,
          is_bound_to_iff cluster_id c,
          nat_beq_iff health.agent_id k,
          get-insert health.agent_id k (record c { health = some health; last_heartbeat = now })
              r.agents,
        ),
      )
    ]

    end_task-Remains :
        (s : Session) → IsOwned r s → s.cluster_id ≡ cluster_id → Remains (end_task s r) k conn
    unfolding end_task unregister_if
    end_task-Remains s own e =
        let tagged : tag_at r k ≡ some (conn.generation, conn.cluster_id) =
          ap (Option.map tag) here in
        let differs : conn.generation ≢ s.generation = λ g. foreign (
          (own.owner k conn.cluster_id
            (subst (λ n. tag_at r k ≡ some (n, conn.cluster_id)) g tagged)).1
          ∙ ap some e) in
        elim (Option-cases (get s.agent_id r.agents)) [
          | inl gone ↦ rw (gone, end_task) same
          | inr (c, there) ↦ (
            conn.last_heartbeat,
            ground
                (arith, there, differs, nat_beq_iff s.agent_id k, get-remove s.agent_id k r.agents),
          )
        ]

module _ (w : World) (v : IsWorldValid w) (k : Uuid) (conn : AgentConnection)
    (here : get k w.registry.agents ≡ some conn) (cluster_id : Uuid)
    (foreign : conn.cluster_id ≢ some cluster_id) where
  open_session-Remains :
      (first : Option (Result AgentEvent ApiError)) (now : DateTime) (tx : Sender)
      → Remains (open_session w cluster_id first now tx).registry k conn
  unfolding open_session agent_stream_authenticated announce
  open_session-Remains (some (ok (Agent.connected agent_id name t))) now tx =
      register-Remains w.registry k conn here cluster_id foreign
        (record {
          agent_id = agent_id;
          cluster_name = name;
          node_name = "";
          version = "";
          last_seen = t;
        })
        now tx
  open_session-Remains (some (ok (Agent.deploy_status p s m t))) now tx =
      same w.registry k conn here
  open_session-Remains (some (ok (Agent.heartbeat id t))) now tx = same w.registry k conn here
  open_session-Remains (some (ok (Agent.error m t))) now tx = same w.registry k conn here
  open_session-Remains (some (ok (Agent.command_status p c s m t))) now tx =
      same w.registry k conn here
  open_session-Remains (some (err e)) now tx = same w.registry k conn here
  open_session-Remains none now tx = same w.registry k conn here

  pump_event-Remains :
      (s : Session) (now : DateTime) (event : Result AgentEvent ApiError)
      → Remains (pump_event s w.registry now event).0 k conn
  unfolding pump_event
  pump_event-Remains s now (ok (Agent.heartbeat id t)) =
      if_intro (λ (p : AgentRegistry × Bool). Remains p.0 k conn) (id == s.agent_id)
        (λ _. heartbeat-Remains w.registry k conn here id now) (λ _. same w.registry k conn here)
  pump_event-Remains s now (ok (Agent.connected i n t)) = same w.registry k conn here
  pump_event-Remains s now (ok (Agent.deploy_status p o m t)) = same w.registry k conn here
  pump_event-Remains s now (ok (Agent.error m t)) = same w.registry k conn here
  pump_event-Remains s now (ok (Agent.command_status p c o m t)) = same w.registry k conn here
  pump_event-Remains s now (err e) = same w.registry k conn here

  Step-Remains : (w' : World) → Step cluster_id w w' → Remains w'.registry k conn
  unfolding report_health_for_cluster
  Step-Remains w' (opens first now tx) = open_session-Remains first now tx
  Step-Remains w' (pumps i s now event at own) = pump_event-Remains s now event
  Step-Remains w' (ends i s at own) =
      end_task-Remains w.registry k conn here cluster_id foreign s
        (All-get_elem? (IsOwned w.registry) w.sessions i s v.owned at) own
  Step-Remains w' (reports health now) =
      report-Remains w.registry k conn here cluster_id foreign health now

-- any number of steps of clusters other than this one
pub data Others (cluster_id : Uuid) (w : World) : ℕ → World → Type 0 where
  rests : Others cluster_id w 0 w
  acts :
      {n : ℕ} {w' w'' : World} (other : Uuid)
      → Others cluster_id w n w'
      → other ≢ cluster_id
      → Step other w' w''
      → Others cluster_id w (suc n) w''

later :
    (m : ℕ) (w : World) (c : Uuid) (n : ℕ) (w' : World)
    → Reached m w
    → Others c w n w'
    → Reached (m + n) w'
later m w c _ _ r rests = let e : m ≡ m + 0 = omega arith in subst (λ i. Reached i w) e r
later m w c _ w'' r (acts {n} {w'} other before ne s) =
    let e : suc (m + n) ≡ m + suc n = omega arith in
    subst (λ i. Reached i w'') e (after other (later m w c n w' r before) s)

-- Whatever agents of other clusters do, in whatever order, to a registry that was reached by fewer
-- steps than its counter has room for: a connection that is bound to a cluster stays as it is, with
-- its agent, its channel, its health report and its generation. At most the time of its last
-- heartbeat changes.
pub others-Remains :
    (m : ℕ) (w : World) (k cluster_id : Uuid) (conn : AgentConnection) (n : ℕ) (w' : World)
    → Reached m w
    → Others cluster_id w n w'
    → m + n + 1 < 2 ^ 64
    → get k w.registry.agents ≡ some conn
    → conn.cluster_id ≡ some cluster_id
    → Remains w'.registry k conn
others-Remains m w k c conn _ _ r rests b here bound = same w.registry k conn here
others-Remains m w k c conn _ w'' r (acts {n} {w'} other before ne s) b here bound =
    let (t, there) = others-Remains m w k c conn n w' r before (omega arith) here bound in
    let v = reached-IsWorldValid (m + n) w' (later m w c n w' r before) (omega arith) in
    let foreign : conn.cluster_id ≢ some other = λ e. ne (some-injective other c (sym e ∙ bound)) in
    Step-Remains w' v k (record conn { last_heartbeat = t }) there other foreign w'' s
