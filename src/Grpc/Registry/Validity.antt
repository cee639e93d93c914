-- ===== src/Grpc/Registry/Validity.antt =====
-- What holds of the registry between two operations.
use mathlib.Core.Option.{none-ne-some}
use reinhardt_cloud.Base.{
  Bool, sym, ◌∙◌, ℕ, ◌+◌, ◌^◌, ◌<◌, ◌≤◌, ◌≡◌, refl, Option, none, some, List, [], ◌∷◌, inl, inr,
  arith, length, nat_eq, ◌==◌, Option-cases, Bool-cases,
}
use reinhardt_cloud.Base.Map.{
  Map, get, insert, remove, get-insert, get-remove, IsUnique, insert-IsUnique, remove-IsUnique,
  retain, kept, get-retain, retain-IsUnique,
}
use reinhardt_cloud.Types.Basic.{Uuid, DateTime}
use reinhardt_cloud.Types.Agent.{AgentHealth}
use reinhardt_cloud.Grpc.Registry.Defs.{
  AgentConnection, AgentRegistry, Op, do_register, do_register_with_cluster, do_unregister,
  do_unregister_if, do_heartbeat, do_update_health, do_update_health_for_cluster,
  do_evict_stale_agents, evict_stale_agents, register, register_with_cluster, claim, is_bound_to,
  unregister, unregister_if, heartbeat, update_health, update_health_for_cluster, step, run, bump,
  new,
}

kept-some : {A : Type 0} (p : A → Bool) (o : Option A) (a : A) → kept p o ≡ some a → o ≡ some a
kept-some p none a h = h
kept-some p (some b) a h = elim (Bool-cases (p b)) [
  | inl stays ↦ rw stays at h
  | inr goes ↦ absurd (none-ne-some a (rw goes at h))
]

-- an entry stands under its own identity, with a generation that was handed out
pub record IsEntryValid (next : ℕ) (agent_id : Uuid) (conn : AgentConnection) : Type 0 where
  pub identity : conn.info.agent_id ≡ agent_id
  pub issued : conn.generation < next

pub record IsMapValid (next : ℕ) (m : Map Uuid AgentConnection) : Type 0 where
  pub unique : IsUnique m
  pub entry :
      (agent_id : Uuid) (conn : AgentConnection)
      → get agent_id m ≡ some conn
      → IsEntryValid next agent_id conn

abbrev pub IsValid : AgentRegistry → Type 0
IsValid r = IsMapValid r.next_generation r.agents

module _ {next : ℕ} {m : Map Uuid AgentConnection} (v : IsMapValid next m) where
  weaken : {next' : ℕ} → next ≤ next' → IsMapValid next' m
  weaken le = record {
    unique = v.unique;
    entry = λ i c h. record {
      identity = (v.entry i c h).identity;
      issued = omega (arith, (v.entry i c h).issued);
    };
  }

  entry-insert :
      (k : Uuid) (conn : AgentConnection) (i : Uuid) (c : AgentConnection)
      → IsEntryValid next k conn
      → get i (insert k conn m) ≡ some c
      → IsEntryValid next i c
  entry-insert k conn i c e h = ground (arith, get-insert k i conn m, v.entry i c)

  insert-IsMapValid :
      (k : Uuid) (conn : AgentConnection)
      → IsEntryValid next k conn
      → IsMapValid next (insert k conn m)
  insert-IsMapValid k conn e = record {
    unique = insert-IsUnique k conn m v.unique;
    entry = λ i c h. entry-insert k conn i c e h;
  }

  entry-remove :
      (k i : Uuid) (c : AgentConnection) → get i (remove k m) ≡ some c → IsEntryValid next i c
  entry-remove k i c h = ground (arith, get-remove k i m, v.entry i c)

  remove-IsMapValid : (k : Uuid) → IsMapValid next (remove k m)
  remove-IsMapValid k = record {
    unique = remove-IsUnique k m v.unique;
    entry = λ i c h. entry-remove k i c h;
  }

  retain-IsMapValid : (p : Uuid → AgentConnection → Bool) → IsMapValid next (retain p m)
  retain-IsMapValid p = record {
    unique = retain-IsUnique p m v.unique;
    entry = λ i c h. v.entry i c (kept-some (p i) (get i m) c (sym (get-retain p i m) ∙ h));
  }

pub bump-lt : (n : ℕ) → n + 1 < 2 ^ 64 → (n < bump n) × (n ≤ bump n)
bump-lt n h = omega arith

claim-IsValid :
    (o : Option AgentConnection) (r : AgentRegistry) (k cluster_id : Uuid) (conn : AgentConnection)
    → IsValid r
    → IsEntryValid r.next_generation k conn
    → IsValid (claim o r k cluster_id conn).0
unfolding claim
claim-IsValid none r k cluster_id conn v e = insert-IsMapValid v k conn e
claim-IsValid (some occupied) r k cluster_id conn v e =
    elim (Bool-cases (is_bound_to cluster_id occupied)) [
      | inl bound ↦ rw bound (insert-IsMapValid v k conn e)
      | inr foreign ↦ rw foreign v
    ]

module _ (r : AgentRegistry) (v : IsValid r) where
  -- a write through `get_mut` that leaves the identity and the generation alone
  modify-IsValid :
      (k : Uuid) (c c' : AgentConnection)
      → get k r.agents ≡ some c
      → c'.info ≡ c.info
      → c'.generation ≡ c.generation
      → IsMapValid r.next_generation (insert k c' r.agents)
  modify-IsValid k c c' here same_info same_generation = insert-IsMapValid v k c' (record {
    identity = rw same_info (v.entry k c here).identity;
    issued = rw same_generation (v.entry k c here).issued;
  })

  unregister_if-IsValid : (k : Uuid) (generation : ℕ) → IsValid (unregister_if r k generation).0
  unfolding unregister_if
  unregister_if-IsValid k generation = elim (Option-cases (get k r.agents)) [
    | inl gone ↦ rw (gone, unregister_if) v
    | inr (c, here) ↦ elim (Bool-cases (c.generation == generation)) [
      | inl own ↦ rw (here, own, unregister_if) (remove-IsMapValid v k)
      | inr other ↦ rw (here, other, unregister_if) v
    ]
  ]

  heartbeat-IsValid : (k : Uuid) (now : DateTime) → IsValid (heartbeat r k now)
  unfolding heartbeat
  heartbeat-IsValid k now = elim (Option-cases (get k r.agents)) [
    | inl gone ↦ rw (gone, heartbeat) v
    | inr (c, here) ↦ rw (here, heartbeat) (modify-IsValid k c _ here refl refl)
  ]

  update_health-IsValid :
      (k : Uuid) (health : AgentHealth) (now : DateTime) → IsValid (update_health r k health now)
  unfolding update_health
  update_health-IsValid k health now = elim (Option-cases (get k r.agents)) [
    | inl gone ↦ rw (gone, update_health) v
    | inr (c, here) ↦ rw (here, update_health) (modify-IsValid k c _ here refl refl)
  ]

  update_health_for_cluster-IsValid :
      (cluster_id : Uuid) (health : AgentHealth) (now : DateTime)
      → IsValid (update_health_for_cluster r cluster_id health now).0
  unfolding update_health_for_cluster
  update_health_for_cluster-IsValid cluster_id health now =
      elim (Option-cases (get health.agent_id r.agents)) [
        | inl gone ↦ rw (gone, update_health_for_cluster) v
        | inr (c, here) ↦ elim (Bool-cases (is_bound_to cluster_id c)) [
          | inl bound ↦
              rw (here, bound, update_health_for_cluster)
                (modify-IsValid health.agent_id c _ here refl refl)
          | inr foreign ↦ rw (here, foreign, update_health_for_cluster) v
        ]
      ]

-- Every operation keeps the registry valid, as long as the counter of generations has not wrapped.
pub step-IsValid :
    (r : AgentRegistry) (op : Op) → r.next_generation + 1 < 2 ^ 64 → IsValid r → IsValid (step r op)
unfolding step register register_with_cluster unregister evict_stale_agents
step-IsValid r (do_register info now tx) b v =
    insert-IsMapValid (weaken v (bump-lt _ b).1) _ _
      (record { identity = refl; issued = (bump-lt _ b).0 })
step-IsValid r (do_register_with_cluster info cluster_id now tx) b v =
    claim-IsValid (get info.agent_id r.agents) _ info.agent_id cluster_id
      (record {
        generation = r.next_generation;
        info = info;
        health = none;
        command_tx = tx;
        last_heartbeat = now;
        cluster_id = some cluster_id;
      })
      (weaken v (bump-lt _ b).1) (record { identity = refl; issued = (bump-lt _ b).0 })
step-IsValid r (do_unregister agent_id) b v = remove-IsMapValid v agent_id
step-IsValid r (do_unregister_if agent_id generation) b v =
    unregister_if-IsValid r v agent_id generation
step-IsValid r (do_heartbeat agent_id now) b v = heartbeat-IsValid r v agent_id now
step-IsValid r (do_update_health agent_id health now) b v =
    update_health-IsValid r v agent_id health now
step-IsValid r (do_update_health_for_cluster cluster_id health now) b v =
    update_health_for_cluster-IsValid r v cluster_id health now
step-IsValid r (do_evict_stale_agents clock) b v = retain-IsMapValid v _

-- an operation hands out one generation at most
pub next_generation-step :
    (r : AgentRegistry) (op : Op)
    → r.next_generation + 1 < 2 ^ 64
    → (r.next_generation ≤ (step r op).next_generation)
      × ((step r op).next_generation ≤ r.next_generation + 1)
unfolding step register register_with_cluster claim unregister unregister_if heartbeat update_health
    update_health_for_cluster evict_stale_agents
next_generation-step r op b = ground arith

-- From a valid registry, and so from an empty one, every sequence of operations that does not use
-- up the 64-bit counter of generations leads to a valid registry: each agent has one entry, under
-- its own identity, with a generation below the counter.
pub run-IsValid :
    (r : AgentRegistry) (ops : List Op)
    → r.next_generation + length ops < 2 ^ 64
    → IsValid r
    → IsValid (run r ops)
unfolding run
run-IsValid r [] b v = v
run-IsValid r (op ∷ ops) b v =
    run-IsValid (step r op) ops (omega (arith, next_generation-step r op (omega arith)))
      (step-IsValid r op (omega arith) v)

pub new-IsValid : IsValid new
unfolding get
new-IsValid = record { unique = tt; entry = λ i c h. cc }
