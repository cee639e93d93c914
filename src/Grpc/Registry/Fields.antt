-- ===== src/Grpc/Registry/Fields.antt =====
-- What the writes to the map do to one field of its entries.
use mathlib.Core.Option
use reinhardt_cloud.Base.{
  Bool, ◌≡◌, ap, sym, ◌∙◌, ◌⊎◌, inl, inr, none, some, arith, nat_eq, ◌==◌, if◌then◌else◌,
  Option-cases, Bool-cases, nat_beq_iff,
}
use reinhardt_cloud.Base.Map.{
  Map, get, insert, remove, retain, kept, get-insert, get-remove, get-retain,
}
use reinhardt_cloud.Types.Basic.{Uuid, DateTime}
use reinhardt_cloud.Types.Agent.{AgentHealth}
use reinhardt_cloud.Grpc.Registry.Defs.{
  AgentConnection, AgentRegistry, heartbeat, update_health, update_health_for_cluster, is_bound_to,
}

module _ {ℓ} {A : Type ℓ} (f : AgentConnection → A) (m : Map Uuid AgentConnection)
    (i k : Uuid) where
  pub field-insert :
      (c : AgentConnection)
      → Option.map f (get k (insert i c m))
        ≡ (if i == k then some (f c) else Option.map f (get k m))
  field-insert c = ground (arith, get-insert i k c m)

  pub field-remove :
      Option.map f (get k (remove i m)) ≡ (if i == k then none else Option.map f (get k m))
  field-remove = ground (arith, get-remove i k m)

  -- an entry that a test may take away
  pub field-retain :
      (p : Uuid → AgentConnection → Bool)
      → (Option.map f (get k (retain p m)) ≡ Option.map f (get k m))
        ⊎ (Option.map f (get k (retain p m)) ≡ none)
  field-retain p = elim (Option-cases (get k m)) [
    | inl gone ↦ inr (ap (Option.map f) (get-retain p k m ∙ ap (kept (p k)) gone))
    | inr (c, here) ↦
        let after = get-retain p k m ∙ ap (kept (p k)) here in
        elim (Bool-cases (p k c)) [
          | inl stays ↦
              inl
                (ap (Option.map f) (after ∙ ap (λ b. if b then some c else none) stays ∙ sym here))
          | inr goes ↦ inr (ap (Option.map f) (after ∙ ap (λ b. if b then some c else none) goes))
        ]
  ]

  -- a write that leaves the field as it was
  field-modify :
      (c c' : AgentConnection)
      → get i m ≡ some c
      → f c' ≡ f c
      → Option.map f (get k (insert i c' m)) ≡ Option.map f (get k m)
  field-modify c c' here same = ground (arith, get-insert i k c' m, nat_beq_iff i k)

-- A field that heartbeats and health reports leave alone.
module _ {ℓ} {A : Type ℓ} (f : AgentConnection → A)
    (keeps : (c : AgentConnection) (now : DateTime) → f (record c { last_heartbeat = now }) ≡ f c)
    (keeps_health : (c : AgentConnection) (health : AgentHealth) (now : DateTime)
      → f (record c { health = some health; last_heartbeat = now }) ≡ f c)
    (r : AgentRegistry) (k : Uuid) where
  pub field-heartbeat :
      (i : Uuid) (now : DateTime)
      → Option.map f (get k (heartbeat r i now).agents) ≡ Option.map f (get k r.agents)
  unfolding heartbeat
  field-heartbeat i now = elim (Option-cases (get i r.agents)) [
    | inl gone ↦ rw (gone, heartbeat)
    | inr (c, here) ↦ rw (here, heartbeat) (field-modify f r.agents i k c _ here (keeps c now))
  ]

  pub field-update_health :
      (i : Uuid) (health : AgentHealth) (now : DateTime)
      → Option.map f (get k (update_health r i health now).agents) ≡ Option.map f (get k r.agents)
  unfolding update_health
  field-update_health i health now = elim (Option-cases (get i r.agents)) [
    | inl gone ↦ rw (gone, update_health)
    | inr (c, here) ↦
        rw (here, update_health) (field-modify f r.agents i k c _ here (keeps_health c health now))
  ]

  pub field-update_health_for_cluster :
      (cluster_id : Uuid) (health : AgentHealth) (now : DateTime)
      → Option.map f (get k (update_health_for_cluster r cluster_id health now).0.agents)
        ≡ Option.map f (get k r.agents)
  unfolding update_health_for_cluster
  field-update_health_for_cluster cluster_id health now =
      elim (Option-cases (get health.agent_id r.agents)) [
        | inl gone ↦ rw (gone, update_health_for_cluster)
        | inr (c, here) ↦ elim (Bool-cases (is_bound_to cluster_id c)) [
          | inl bound ↦
              rw (here, bound, update_health_for_cluster)
                (field-modify f r.agents health.agent_id k c _ here (keeps_health c health now))
          | inr foreign ↦ rw (here, foreign, update_health_for_cluster)
        ]
      ]
