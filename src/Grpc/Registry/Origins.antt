-- ===== src/Grpc/Registry/Origins.antt =====
-- Where the entry of an agent comes from after an operation: it was there, or it was registered now.
use mathlib.Core.Option
use reinhardt_cloud.Base.{
  ℕ, ◌≡◌, refl, ◌⊎◌, inl, inr, Bool, true, false, Option, none, some, nat_eq, ◌==◌, Option-cases,
  Bool-cases, if◌then◌else◌,
}
use reinhardt_cloud.Base.Map.{get}
use reinhardt_cloud.Types.Basic.{Uuid, DateTime}
use reinhardt_cloud.Types.Agent.{AgentHealth}
use reinhardt_cloud.Grpc.Registry.Defs.{
  AgentConnection, AgentRegistry, Op, do_register, do_register_with_cluster, do_unregister,
  do_unregister_if, do_heartbeat, do_update_health, do_update_health_for_cluster,
  do_evict_stale_agents, register, register_with_cluster, claim, unregister, unregister_if,
  evict_stale_agents, step, bump, is_bound_to,
}
use reinhardt_cloud.Grpc.Registry.Fields.{
  field-insert, field-remove, field-retain, field-heartbeat, field-update_health,
  field-update_health_for_cluster,
}

-- A field that heartbeats and health reports leave alone.
module _ {A : Type 0} (f : AgentConnection → A)
    (keeps : (c : AgentConnection) (now : DateTime) → f (record c { last_heartbeat = now }) ≡ f c)
    (keeps_health : (c : AgentConnection) (health : AgentHealth) (now : DateTime)
      → f (record c { health = some health; last_heartbeat = now }) ≡ f c)
    (r : AgentRegistry) (k : Uuid) where
  -- the field of the agent's entry is as it was, is gone with the entry, or is that of a connection
  -- with the next generation
  abbrev pub Follows : Option A → Type 0
  Follows o =
      (o ≡ Option.map f (get k r.agents))
      ⊎ (o ≡ none)
      ⊎ ((c : AgentConnection) × ((c.generation ≡ r.next_generation) × (o ≡ some (f c))))

  insert-Follows :
      (b : Bool) (o : Option A) (c : AgentConnection)
      → c.generation ≡ r.next_generation
      → o ≡ (if b then some (f c) else Option.map f (get k r.agents))
      → Follows o
  insert-Follows true o c new e = inr (inr (c, (new, e)))
  insert-Follows false o c new e = inl e

  remove-Follows :
      (b : Bool) (o : Option A)
      → o ≡ (if b then none else Option.map f (get k r.agents))
      → Follows o
  remove-Follows true o e = inr (inl e)
  remove-Follows false o e = inl e

  claim-Follows :
      (o : Option AgentConnection) (i cluster_id : Uuid) (conn : AgentConnection)
      → conn.generation ≡ r.next_generation
      → Follows (
          Option.map f (
            get k
              (claim o
                (record r { next_generation = bump r.next_generation })
                i
                cluster_id
                conn).0.agents))
  unfolding claim
  claim-Follows none i cluster_id conn new =
      insert-Follows (i == k) _ conn new (field-insert f r.agents i k conn)
  claim-Follows (some occupied) i cluster_id conn new =
      elim (Bool-cases (is_bound_to cluster_id occupied)) [
        | inl bound ↦
            rw (bound, claim)
              (insert-Follows (i == k) _ conn new (field-insert f r.agents i k conn))
        | inr foreign ↦ rw (foreign, claim) (inl refl)
      ]

  unregister_if-Follows :
      (i : Uuid) (g : ℕ) → Follows (Option.map f (get k (unregister_if r i g).0.agents))
  unfolding unregister_if
  unregister_if-Follows i g = elim (Option-cases (get i r.agents)) [
    | inl gone ↦ rw (gone, unregister_if) (inl refl)
    | inr (c, here) ↦ elim (Bool-cases (c.generation == g)) [
      | inl own ↦
          rw (here, own, unregister_if) (remove-Follows (i == k) _ (field-remove f r.agents i k))
      | inr other ↦ rw (here, other, unregister_if) (inl refl)
    ]
  ]

  pub step-Follows : (op : Op) → Follows (Option.map f (get k (step r op).agents))
  unfolding step register register_with_cluster unregister evict_stale_agents
  step-Follows (do_register info now tx) = insert-Follows (info.agent_id == k) _ _ refl (
      field-insert f r.agents info.agent_id k (record {
        generation = r.next_generation;
        info = info;
        health = none;
        command_tx = tx;
        last_heartbeat = now;
        cluster_id = none;
      }))
  step-Follows (do_register_with_cluster info cluster_id now tx) =
      claim-Follows (get info.agent_id r.agents) info.agent_id cluster_id _ refl
  step-Follows (do_unregister i) = remove-Follows (i == k) _ (field-remove f r.agents i k)
  step-Follows (do_unregister_if i g) = unregister_if-Follows i g
  step-Follows (do_heartbeat i now) = inl (field-heartbeat f keeps keeps_health r k i now)
  step-Follows (do_update_health i h now) =
      inl (field-update_health f keeps keeps_health r k i h now)
  step-Follows (do_update_health_for_cluster cluster_id h now) =
      inl (field-update_health_for_cluster f keeps keeps_health r k cluster_id h now)
  step-Follows (do_evict_stale_agents clock) = elim (field-retain f r.agents k k _) [
    | inl same ↦ inl same
    | inr gone ↦ inr (inl gone)
  ]
