-- ===== src/Grpc/Registry/Eviction.antt =====
-- Which agents are evicted.
use reinhardt_cloud.Base.{
  refl, ap, subst, none, [], ◌∷◌, map, filter, false, not, ◌&&◌, is_some, Bool-cases, nat_beq_iff,
  ◌==◌, ◌≡◌, inl, inr, Bool, some, arith, nat_eq, if◌then◌else◌, Option-cases,
}
use reinhardt_cloud.Base.Map.{Map, IsUnique, get, get-retain}
use reinhardt_cloud.Base.Set.{has}
use reinhardt_cloud.Types.Basic.{Uuid, DateTime}
use reinhardt_cloud.Grpc.Registry.Defs.{
  AgentConnection, AgentRegistry, is_healthy, is_stale, evict_stale_agents,
}
use reinhardt_cloud.Grpc.Registry.Validity.{IsValid}

-- who is among the keys of the entries that pass a test
evicted_at :
    (p : Uuid → AgentConnection → Bool) (m : Map Uuid AgentConnection) (k : Uuid)
    → IsUnique m
    → has k (map (λ entry. entry.0) (filter (λ entry. p entry.0 entry.1) m))
      ≡ elim (get k m) [ none ↦ false | some c ↦ p k c ]
unfolding get has
evicted_at p [] k u = refl
evicted_at p ((j, c) ∷ m) k u =
    let rest = evicted_at p m k u.1 in
    let agree = ap (λ i. p i c) {x = j} {y = k} in
    elim (Bool-cases (p j c)) [
      | inl stale ↦ elim (Bool-cases (j == k)) [
        | inl same ↦ ground (arith, stale, same, agree, nat_beq_iff j k)
        | inr other ↦ ground (arith, stale, other, rest)
      ]
      | inr fresh ↦ elim (Bool-cases (j == k)) [
        | inl same ↦
            let absent : get k m ≡ none =
              subst (λ i. get i m ≡ none) ((nat_beq_iff j k).0 same) u.0 in
            ground (arith, fresh, same, agree, nat_beq_iff j k, rest, absent)
        | inr other ↦ ground (arith, fresh, other, rest)
      ]
    ]

-- In a valid registry eviction removes exactly the agents that do not count as healthy at the time
-- that it reads for them, and returns the identities of exactly those that it removes; the entries of
-- the others stay.
pub evict_stale_agents-is_healthy :
    (r : AgentRegistry) (clock : Uuid → DateTime) (k : Uuid)
    → IsValid r
    → (get k (evict_stale_agents r clock).0.agents
        ≡ (if is_healthy r k (clock k) then get k r.agents else none))
      × (has k (evict_stale_agents r clock).1
          ≡ (is_some (get k r.agents) && not (is_healthy r k (clock k))))
unfolding evict_stale_agents is_healthy
evict_stale_agents-is_healthy r clock k v =
    let left = get-retain (λ i c. not (is_stale (clock i) c)) k r.agents in
    let gone = evicted_at (λ i c. is_stale (clock i) c) r.agents k v.unique in
    elim (Option-cases (get k r.agents)) [
      | inl absent ↦ (ground (arith, left, absent), ground (arith, gone, absent))
      | inr (c, here) ↦ (ground (arith, left, here), ground (arith, gone, here))
    ]
