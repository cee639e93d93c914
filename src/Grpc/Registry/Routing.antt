-- ===== src/Grpc/Registry/Routing.antt =====
-- Where commands go, and which agents count as healthy.
use mathlib.Core.Option
use mathlib.Core.Option.{some-injective, none-ne-some}
use reinhardt_cloud.Base.{
  ℕ, ◌^◌, refl, sym, ap, ◌∙◌, ◌⊎◌, Option, List, [], ◌∷◌, length, ◌+◌, ◌*◌, ◌≤◌, ◌<◌, ◌≡◌, ◌≢◌, ◌↔◌,
  inl, inr, Bool, true, some, arith, nat_eq, Option-cases,
}
use reinhardt_cloud.Base.Map.{get, get-insert, find_entry, find_entry-eq_some, find_entry-eq_none}
use reinhardt_cloud.Types.Basic.{Uuid, DateTime, nanos_per_sec}
use reinhardt_cloud.Types.Agent.{AgentCommand}
use reinhardt_cloud.Grpc.Registry.Defs.{
  AgentConnection, AgentRegistry, Sender, delivered, no_agent, is_bound_to, send_command,
  send_command_to_cluster, heartbeat, is_healthy, Op, step, run,
}
use reinhardt_cloud.Grpc.Registry.Validity.{IsValid, next_generation-step}
use reinhardt_cloud.Grpc.Registry.Origins.{step-Follows}
use reinhardt_cloud.Grpc.Registry.Binding.{is_bound_to_iff}

-- the entries that `send_command_to_cluster` looks for
abbrev bound_entry : Uuid → Uuid → AgentConnection → Bool
bound_entry cluster_id _ conn = is_bound_to cluster_id conn

-- the generation of a connection, and the cluster that it is bound to
abbrev binding_of : AgentConnection → ℕ × Option Uuid
binding_of c = (c.generation, c.cluster_id)

-- the cluster's own, or newer than this generation
abbrev IsOwnOrNewer : Uuid → ℕ → ℕ × Option Uuid → Type 0
IsOwnOrNewer cluster_id g b = (b.1 ≡ some cluster_id) ⊎ (g ≤ b.0)

-- and so is the entry of the agent, if it has one
abbrev IsBoundOrNewer : Uuid → ℕ → Uuid → AgentRegistry → Type 0
IsBoundOrNewer cluster_id g k r =
    (b : ℕ × Option Uuid)
    → Option.map binding_of (get k r.agents) ≡ some b
    → IsOwnOrNewer cluster_id g b

step-IsBoundOrNewer :
    (cluster_id : Uuid) (g : ℕ) (k : Uuid) (r : AgentRegistry) (op : Op)
    → g ≤ r.next_generation
    → IsBoundOrNewer cluster_id g k r
    → IsBoundOrNewer cluster_id g k (step r op)
step-IsBoundOrNewer cluster_id g k r op le h b e =
    elim (step-Follows binding_of (λ c now. refl) (λ c h now. refl) r k op) [
      | inl same ↦ h b (sym same ∙ e)
      | inr (inl gone) ↦ absurd (none-ne-some b (sym gone ∙ e))
      | inr (inr (c, (new, at))) ↦
          let n : c.generation ≡ b.0 = ap (λ p. p.0) (some-injective _ b (sym at ∙ e)) in
          inr (omega (arith, le, new, n))
    ]

run-IsBoundOrNewer :
    (cluster_id : Uuid) (g : ℕ) (k : Uuid) (r : AgentRegistry) (ops : List Op)
    → r.next_generation + length ops < 2 ^ 64
    → g ≤ r.next_generation
    → IsBoundOrNewer cluster_id g k r
    → IsBoundOrNewer cluster_id g k (run r ops)
unfolding run
run-IsBoundOrNewer cluster_id g k r [] b le h = h
run-IsBoundOrNewer cluster_id g k r (op ∷ ops) b le h =
    let grows = next_generation-step r op (omega arith) in
    run-IsBoundOrNewer cluster_id g k (step r op) ops (omega (arith, grows))
      (omega (arith, grows, le)) (step-IsBoundOrNewer cluster_id g k r op le h)

send_command-delivered :
    (r : AgentRegistry) (is_open : Sender → Bool) (k : Uuid) (command : AgentCommand) (tx : Sender)
    (sent : AgentCommand)
    → send_command r is_open k command ≡ delivered tx sent
    → (c : AgentConnection) × ((get k r.agents ≡ some c)
        × ((c.command_tx ≡ tx) × ((is_open tx ≡ true) × (sent ≡ command))))
unfolding send_command
send_command-delivered r is_open k command tx sent h = elim (Option-cases (get k r.agents)) [
  | inl gone ↦ absurd (ground arith)
  | inr (c, here) ↦ (c, (here, (ground arith, (ground arith, ground arith))))
]

module _ (r : AgentRegistry) (v : IsValid r) (is_open : Sender → Bool) (cluster_id : Uuid)
    (command : AgentCommand) where
  found_bound :
      (k : Uuid) (c : AgentConnection)
      → find_entry (bound_entry cluster_id) r.agents ≡ some (k, c)
      → (get k r.agents ≡ some c) × (c.cluster_id ≡ some cluster_id)
  found_bound k c found =
      let (here, bound) = find_entry-eq_some (bound_entry cluster_id) r.agents k c v.unique found in
      (here, (is_bound_to_iff cluster_id c).0 bound)

  bound-IsBoundOrNewer :
      (g : ℕ) (k : Uuid) (c : AgentConnection)
      → get k r.agents ≡ some c
      → c.cluster_id ≡ some cluster_id
      → IsBoundOrNewer cluster_id g k r
  bound-IsBoundOrNewer g k c here bound b e =
      let same : binding_of c ≡ b =
        some-injective _ b (ap (Option.map binding_of) (sym here) ∙ e) in
      inl (ap (λ p. p.1) (sym same) ∙ bound)

  -- In a valid registry, a command for a cluster that is delivered goes, unchanged, to an agent that
  -- was registered under that cluster when it was looked for, over the open channel of the
  -- connection that the agent has when the command is sent. Whatever operations come between the
  -- two, as many as the counter has room for, that connection is the cluster's, or it was registered
  -- between the two.
  pub send_command_to_cluster-delivered :
      (ops : List Op) (tx : Sender) (sent : AgentCommand)
      → r.next_generation + length ops < 2 ^ 64
      → send_command_to_cluster r (run r ops) is_open cluster_id command ≡ delivered tx sent
      → (k : Uuid) × (c : AgentConnection) × (c' : AgentConnection) × (get k r.agents ≡ some c)
        × (c.cluster_id ≡ some cluster_id)
        × (get k (run r ops).agents ≡ some c')
        × ((c'.cluster_id ≡ some cluster_id) ⊎ (r.next_generation ≤ c'.generation))
        × (c'.command_tx ≡ tx)
        × (is_open tx ≡ true)
        × (sent ≡ command)
  unfolding send_command_to_cluster
  send_command_to_cluster-delivered ops tx sent room h =
      elim (Option-cases (find_entry (bound_entry cluster_id) r.agents)) [
        | inl nowhere ↦ absurd (ground arith)
        | inr ((k, c), found) ↦
            let (here, bound) = found_bound k c found in
            let sends : send_command (run r ops) is_open k command ≡ delivered tx sent =
              rw (found, send_command_to_cluster) at h in
            let (c', (now, (channel, (alive, same)))) =
              send_command-delivered (run r ops) is_open k command tx sent sends in
            let own =
              run-IsBoundOrNewer cluster_id r.next_generation k r ops room (omega arith)
                (bound-IsBoundOrNewer r.next_generation k c here bound) (binding_of c')
                (ap (Option.map binding_of) now) in
            (k, c, c', here, bound, now, own, channel, alive, same)
      ]

  -- A command for a cluster fails for want of an agent exactly if no registered agent is bound to
  -- the cluster when it is looked for.
  pub send_command_to_cluster-no_agent :
      (r' : AgentRegistry)
      → (send_command_to_cluster r r' is_open cluster_id command ≡ no_agent) ↔ (
          (k : Uuid) (c : AgentConnection)
          → get k r.agents ≡ some c
          → c.cluster_id ≢ some cluster_id)
  unfolding send_command_to_cluster send_command
  send_command_to_cluster-no_agent r' =
      elim (Option-cases (find_entry (bound_entry cluster_id) r.agents)) [
        | inl nowhere ↦ (
          λ _ k c here bound. cc (
            find_entry-eq_none (bound_entry cluster_id) r.agents k c nowhere here,
            (is_bound_to_iff cluster_id c).1 bound,
          ),
          λ _. ground arith,
        )
        | inr ((k, c), found) ↦
            let (here, bound) = found_bound k c found in
            (λ e. absurd (ground arith), λ none_bound. absurd (none_bound k c here bound))
      ]

-- After a heartbeat at `t` a registered agent counts as healthy from `t` on for less than 90
-- seconds, three missed intervals, and at no other time.
pub is_healthy-heartbeat :
    (r : AgentRegistry) (k : Uuid) (t now : DateTime) (c : AgentConnection)
    → get k r.agents ≡ some c
    → (is_healthy (heartbeat r k t) k now ≡ true) ↔ ((t ≤ now) × (now < t + 90 * nanos_per_sec))
unfolding is_healthy heartbeat
is_healthy-heartbeat r k t now c here = (
  ground (arith, get-insert k k (record c { last_heartbeat = t }) r.agents),
  ground (arith, get-insert k k (record c { last_heartbeat = t }) r.agents),
)
