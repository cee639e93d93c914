-- ===== src/Grpc/Registry/Binding.antt =====
-- An agent's identity is claimed by the peer; its cluster comes from its token. The registry binds
-- the one to the other.
use mathlib.Core.Option
use mathlib.Core.Option.{none-ne-some}
use reinhardt_cloud.Base.{
  ℕ, ◌≡◌, refl, sym, ◌∙◌, ap, ◌≢◌, ◌↔◌, inl, inr, true, Option, none, some, arith, nat_eq, ◌==◌,
  if◌then◌else◌, Option-cases, nat_beq_iff,
}
use reinhardt_cloud.Base.Map.{get, get-insert}
use reinhardt_cloud.Base.Result.{ok, err}
use reinhardt_cloud.Types.Basic.{Uuid, DateTime}
use reinhardt_cloud.Types.Agent.{AgentInfo, AgentHealth}
use reinhardt_cloud.Grpc.Registry.Defs.{
  AgentConnection, AgentRegistry, Op, do_register, do_register_with_cluster, do_unregister,
  do_unregister_if, do_heartbeat, do_update_health, do_update_health_for_cluster,
  do_evict_stale_agents, evict_stale_agents, Sender, cluster_mismatch, register_with_cluster,
  is_bound_to, unregister_if, update_health_for_cluster, step,
}
use reinhardt_cloud.Grpc.Registry.Fields.{
  field-remove, field-retain, field-heartbeat, field-update_health_for_cluster,
}

pub is_bound_to_iff :
    (cluster_id : Uuid) (c : AgentConnection)
    → (is_bound_to cluster_id c ≡ true) ↔ (c.cluster_id ≡ some cluster_id)
unfolding is_bound_to
is_bound_to_iff cluster_id c = ground (arith)

-- the connection that `register_with_cluster` puts into the map
abbrev pub fresh : AgentRegistry → AgentInfo → Uuid → DateTime → Sender → AgentConnection
fresh r info cluster_id now tx = record {
  generation = r.next_generation;
  info = info;
  health = none;
  command_tx = tx;
  last_heartbeat = now;
  cluster_id = some cluster_id;
}

module _ (r : AgentRegistry) (info : AgentInfo) (cluster_id : Uuid) (now : DateTime)
    (tx : Sender) where
  -- An identity that is registered without this cluster is refused, and every entry stays.
  pub register_with_cluster-refused :
      (c : AgentConnection)
      → get info.agent_id r.agents ≡ some c
      → c.cluster_id ≢ some cluster_id
      → ((register_with_cluster r info cluster_id now tx).1 ≡ err cluster_mismatch)
        × ((register_with_cluster r info cluster_id now tx).0.agents ≡ r.agents)
  unfolding register_with_cluster
  register_with_cluster-refused c here other = ground (arith, is_bound_to_iff cluster_id c)

  -- An identity that is free, or registered with this cluster, gets the new connection, under the
  -- next generation; the entries of all other identities stay.
  pub register_with_cluster-accepted :
      (k : Uuid)
      → ((c : AgentConnection)
          → get info.agent_id r.agents ≡ some c
          → c.cluster_id ≡ some cluster_id)
      → ((register_with_cluster r info cluster_id now tx).1
          ≡ ok (record { commands = tx; generation = r.next_generation }))
        × (get k (register_with_cluster r info cluster_id now tx).0.agents ≡ (
            if info.agent_id == k then some (fresh r info cluster_id now tx) else get k r.agents))
  unfolding register_with_cluster
  register_with_cluster-accepted k own = elim (Option-cases (get info.agent_id r.agents)) [
    | inl free ↦
        rw (free, register_with_cluster)
          (refl, get-insert info.agent_id k (fresh r info cluster_id now tx) r.agents)
    | inr (c, here) ↦
        let bound = (is_bound_to_iff cluster_id c).1 (own c here) in
        rw (here, bound, register_with_cluster)
          (refl, get-insert info.agent_id k (fresh r info cluster_id now tx) r.agents)
  ]

-- the operations that the authenticated service makes, and the eviction of agents
abbrev pub IsAuthenticated : Op → Type 0
IsAuthenticated (do_register info now tx) = ⊥
IsAuthenticated (do_unregister k) = ⊥
IsAuthenticated (do_update_health k health now) = ⊥
IsAuthenticated _ = Unit

abbrev pub cluster_of : AgentConnection → Option Uuid
cluster_of c = c.cluster_id

module _ (r : AgentRegistry) (k : Uuid) (c c' : AgentConnection)
    (before : get k r.agents ≡ some c) where
  claim-keeps_cluster :
      (info : AgentInfo) (cluster_id : Uuid) (now : DateTime) (tx : Sender)
      → get k (register_with_cluster r info cluster_id now tx).0.agents ≡ some c'
      → c'.cluster_id ≡ c.cluster_id
  unfolding register_with_cluster
  claim-keeps_cluster info cluster_id now tx after = ground (
    arith,
    get-insert info.agent_id k (fresh r info cluster_id now tx) r.agents,
    is_bound_to_iff cluster_id c,
    nat_beq_iff info.agent_id k,
  )

  unregister_if-keeps_cluster :
      (i : Uuid) (g : ℕ)
      → get k (unregister_if r i g).0.agents ≡ some c'
      → c'.cluster_id ≡ c.cluster_id
  unfolding unregister_if
  unregister_if-keeps_cluster i g after = ground (arith, field-remove cluster_of r.agents i k)

  same_field :
      Option.map cluster_of (get k r.agents) ≡ Option.map cluster_of (some c')
      → c'.cluster_id ≡ c.cluster_id
  same_field e = ground arith

  -- No operation of the authenticated service, nor the eviction of stale agents, moves a registered
  -- agent to another cluster.
  pub step-keeps_cluster :
      (op : Op)
      → IsAuthenticated op
      → get k (step r op).agents ≡ some c'
      → c'.cluster_id ≡ c.cluster_id
  unfolding step evict_stale_agents
  step-keeps_cluster (do_register info now tx) auth after = absurd auth
  step-keeps_cluster (do_register_with_cluster info cluster_id now tx) auth after =
      claim-keeps_cluster info cluster_id now tx after
  step-keeps_cluster (do_unregister i) auth after = absurd auth
  step-keeps_cluster (do_unregister_if i g) auth after = unregister_if-keeps_cluster i g after
  step-keeps_cluster (do_heartbeat i now) auth after = same_field (
      sym (field-heartbeat cluster_of (λ c now. refl) (λ c h now. refl) r k i now)
      ∙ ap (Option.map cluster_of) after)
  step-keeps_cluster (do_update_health i h now) auth after = absurd auth
  step-keeps_cluster (do_update_health_for_cluster cluster_id h now) auth after = same_field (
      sym (
        field-update_health_for_cluster cluster_of (λ c now. refl) (λ c h now. refl) r k cluster_id
          h now)
      ∙ ap (Option.map cluster_of) after)
  step-keeps_cluster (do_evict_stale_agents clock) auth after =
      elim (field-retain cluster_of r.agents k k _) [
        | inl same ↦ same_field (sym same ∙ ap (Option.map cluster_of) after)
        | inr gone ↦
            absurd (none-ne-some (cluster_of c') (sym gone ∙ ap (Option.map cluster_of) after))
      ]

-- a connection with a health report, if it is bound to the cluster that sent the report
abbrev pub reported : Uuid → AgentHealth → DateTime → AgentConnection → AgentConnection
reported cluster_id health now c =
    if is_bound_to cluster_id c then record c { health = some health; last_heartbeat = now } else c

module _ (r : AgentRegistry) (cluster_id : Uuid) (health : AgentHealth) (now : DateTime) where
  health_taken_iff :
      ((update_health_for_cluster r cluster_id health now).1 ≡ ok tt)
      ↔ (Option.map cluster_of (get health.agent_id r.agents) ≡ some (some cluster_id))
  unfolding update_health_for_cluster is_bound_to
  health_taken_iff = (ground arith, ground arith)

  -- what a report leaves at an identity
  health_entry :
      (k : Uuid)
      → get k (update_health_for_cluster r cluster_id health now).0.agents ≡ (
          if health.agent_id == k
          then Option.map (reported cluster_id health now) (get k r.agents)
          else get k r.agents)
  unfolding update_health_for_cluster
  health_entry k = elim (Option-cases (get health.agent_id r.agents)) [
    | inl gone ↦ ground (arith, nat_beq_iff health.agent_id k)
    | inr (c, here) ↦ ground (
      arith,
      nat_beq_iff health.agent_id k,
      get-insert health.agent_id k (record c { health = some health; last_heartbeat = now })
          r.agents,
    )
  ]

  -- A health report is taken exactly if the agent that it names is registered under the cluster of
  -- the reporting connection. It then sets that agent's health and the time of its heartbeat; if it
  -- is not taken, and at every other identity, nothing changes.
  pub update_health_for_cluster_lem :
      (k : Uuid)
      → (((update_health_for_cluster r cluster_id health now).1 ≡ ok tt)
          ↔ (Option.map cluster_of (get health.agent_id r.agents) ≡ some (some cluster_id)))
        × (get k (update_health_for_cluster r cluster_id health now).0.agents ≡ (
            if health.agent_id == k
            then Option.map (reported cluster_id health now) (get k r.agents)
            else get k r.agents))
  update_health_for_cluster_lem k = (health_taken_iff, health_entry k)
