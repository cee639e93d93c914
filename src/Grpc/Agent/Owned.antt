-- ===== src/Grpc/Agent/Owned.antt =====
-- Which session a connection in the registry belongs to: the generations tell.
use mathlib.Core.Option
use reinhardt_cloud.Base.{
  ℕ, ◌+◌, ◌^◌, ◌<◌, ◌≤◌, ◌≡◌, ◌⊎◌, refl, sym, ap, subst, ◌∙◌, inl, inr, Option, none, some, arith,
  nat_eq, Option-cases, nat_beq_iff,
}
use reinhardt_cloud.Base.Map.{get}
use reinhardt_cloud.Base.Result.{Result, ok, err, ok-injective}
use reinhardt_cloud.Types.Basic.{Uuid, DateTime}
use reinhardt_cloud.Types.Agent.{AgentInfo, AgentHealth}
use reinhardt_cloud.Grpc.Registry.Defs.{
  AgentConnection, AgentRegistry, Sender, register_with_cluster, claim, bump, heartbeat,
  unregister_if, update_health_for_cluster, step, do_register_with_cluster, ClusterRegistration,
  ClusterBindingError,
}
use reinhardt_cloud.Grpc.Registry.Fields.{
  field-insert, field-remove, field-heartbeat, field-update_health_for_cluster,
}
use reinhardt_cloud.Grpc.Registry.Validity.{IsValid, bump-lt, next_generation-step}
use reinhardt_cloud.Grpc.Registry.Binding.{fresh}
use reinhardt_cloud.Grpc.Agent.Service.{Session, session_of}

-- the generation and the cluster of a connection
abbrev pub tag : AgentConnection → ℕ × Option Uuid
tag c = (c.generation, c.cluster_id)

abbrev pub tag_at : AgentRegistry → Uuid → Option (ℕ × Option Uuid)
tag_at r k = Option.map tag (get k r.agents)

-- A connection with the session's generation is the session's: it has its agent and its cluster.
pub record IsOwned (r : AgentRegistry) (s : Session) : Type 0 where
  pub issued : s.generation < r.next_generation
  pub owner :
      (k : Uuid) (c : Option Uuid)
      → tag_at r k ≡ some (s.generation, c)
      → (k ≡ s.agent_id) × (c ≡ some s.cluster_id)

-- one operation: the connections after it were there before, or have the next generation
pub record Follows (r r' : AgentRegistry) : Type 0 where
  pub grows : r.next_generation ≤ r'.next_generation
  pub tags :
      (k : Uuid) (g : ℕ) (c : Option Uuid)
      → tag_at r' k ≡ some (g, c)
      → (tag_at r k ≡ some (g, c)) ⊎ (g ≡ r.next_generation)

pub Follows-IsOwned :
    (r r' : AgentRegistry) (s : Session) → Follows r r' → IsOwned r s → IsOwned r' s
Follows-IsOwned r r' s f own = record {
  issued = omega (arith, f.grows, own.issued);
  owner = λ k c h. elim (f.tags k s.generation c h) [
    | inl there ↦ own.owner k c there
    | inr next ↦ absurd (omega (arith, own.issued, next))
  ];
}

module _ (r : AgentRegistry) where
  pub Follows-refl : Follows r r
  Follows-refl = record { grows = omega arith; tags = λ k g c h. inl h }

  pub heartbeat-Follows : (i : Uuid) (now : DateTime) → Follows r (heartbeat r i now)
  unfolding heartbeat
  heartbeat-Follows i now = record {
    grows = ground arith;
    tags =
        λ k g c h. inl (sym (field-heartbeat tag (λ c now. refl) (λ c h now. refl) r k i now) ∙ h);
  }

  pub unregister_if-Follows : (i : Uuid) (n : ℕ) → Follows r (unregister_if r i n).0
  unfolding unregister_if
  unregister_if-Follows i n = record {
    grows = ground arith;
    tags = λ k g c h. inl (ground (arith, field-remove tag r.agents i k));
  }

  pub report-Follows :
      (cluster_id : Uuid) (health : AgentHealth) (now : DateTime)
      → Follows r (update_health_for_cluster r cluster_id health now).0
  unfolding update_health_for_cluster
  report-Follows cluster_id health now = record {
    grows = ground arith;
    tags = λ k g c h. inl (
        sym (
          field-update_health_for_cluster tag (λ c now. refl) (λ c h now. refl) r k cluster_id
            health now)
        ∙ h);
  }

  module _ (info : AgentInfo) (cluster_id : Uuid) (now : DateTime) (tx : Sender) where
    -- what a registration leaves at an identity is what was there or the new connection
    claim-tags :
        (o : Option AgentConnection) (k : Uuid) (g : ℕ) (c : Option Uuid)
        → tag_at
            (claim o
              (record r { next_generation = bump r.next_generation })
              info.agent_id
              cluster_id
              (fresh r info cluster_id now tx)).0
            k
          ≡ some (g, c)
        → (tag_at r k ≡ some (g, c))
          ⊎ ((g ≡ r.next_generation) × (k ≡ info.agent_id) × (c ≡ some cluster_id))
    unfolding claim
    claim-tags none k g c h = ground (
      arith,
      field-insert tag r.agents info.agent_id k (fresh r info cluster_id now tx),
      nat_beq_iff info.agent_id k,
    )
    claim-tags (some occupied) k g c h = ground (
      arith,
      field-insert tag r.agents info.agent_id k (fresh r info cluster_id now tx),
      nat_beq_iff info.agent_id k,
    )

    register_tags :
        (k : Uuid) (g : ℕ) (c : Option Uuid)
        → tag_at (register_with_cluster r info cluster_id now tx).0 k ≡ some (g, c)
        → (tag_at r k ≡ some (g, c))
          ⊎ ((g ≡ r.next_generation) × (k ≡ info.agent_id) × (c ≡ some cluster_id))
    unfolding register_with_cluster
    register_tags k g c h = claim-tags (get info.agent_id r.agents) k g c h

    pub register-Follows :
        r.next_generation + 1 < 2 ^ 64
        → Follows r (register_with_cluster r info cluster_id now tx).0
    unfolding step
    register-Follows b = record {
      grows = (next_generation-step r (do_register_with_cluster info cluster_id now tx) b).0;
      tags = λ k g c h. elim (register_tags k g c h) [
        | inl there ↦ inl there
        | inr (next, _, _) ↦ inr next
      ];
    }

    -- no connection of a valid registry has the next generation
    next_unused :
        IsValid r → (k : Uuid) (c : Option Uuid) → tag_at r k ≡ some (r.next_generation, c) → ⊥
    next_unused v k c h = elim (Option-cases (get k r.agents)) [
      | inl gone ↦ absurd (ground (arith, gone, h))
      | inr (conn, here) ↦ absurd (ground (arith, here, h, (v.entry k conn here).issued))
    ]

    register-generation :
        (own : ClusterRegistration)
        → (register_with_cluster r info cluster_id now tx).1 ≡ ok own
        → own.generation ≡ r.next_generation
    unfolding register_with_cluster claim
    register-generation own h = ground (arith, h)

    register-next :
        (register_with_cluster r info cluster_id now tx).0.next_generation ≡ bump r.next_generation
    unfolding register_with_cluster claim
    register-next = ground arith

    session_of-eq_ok :
        (registered : Result ClusterRegistration ClusterBindingError) (s : Session)
        → ((own : ClusterRegistration) → registered ≡ ok own → own.generation ≡ r.next_generation)
        → session_of info.agent_id cluster_id registered ≡ ok s
        → (s.generation ≡ r.next_generation)
          × (s.agent_id ≡ info.agent_id)
          × (s.cluster_id ≡ cluster_id)
    unfolding session_of
    session_of-eq_ok (err e) s f h = absurd (ground (arith, h))
    session_of-eq_ok (ok own) s f h =
        let same = ok-injective _ s h in
        (
          sym (ap (λ t. t.generation) same) ∙ f own refl,
          sym (ap (λ t. t.agent_id) same),
          sym (ap (λ t. t.cluster_id) same),
        )

    pub registered-IsOwned :
        r.next_generation + 1 < 2 ^ 64
        → IsValid r
        → (s : Session)
        → session_of info.agent_id cluster_id (register_with_cluster r info cluster_id now tx).1
          ≡ ok s
        → IsOwned (register_with_cluster r info cluster_id now tx).0 s
    registered-IsOwned b v s h =
        let (same, own_id, own_cluster) = session_of-eq_ok _ s register-generation h in
        record {
          issued = omega (arith, same, register-next, (bump-lt _ b).0);
          owner = λ k c t. elim (register_tags k s.generation c t) [
            | inl there ↦
                absurd (next_unused v k c (subst (λ g. tag_at r k ≡ some (g, c)) same there))
            | inr (_, here, bound) ↦ (here ∙ sym own_id, bound ∙ ap some (sym own_cluster))
          ];
        }
