-- ===== src/Grpc/Registry/Generations.antt =====
-- A connection that was replaced no longer owns its agent's entry.
use mathlib.Core.Option
use reinhardt_cloud.Base.{
  ℕ, ◌+◌, ◌^◌, ◌<◌, ◌≡◌, refl, sym, ◌∙◌, ◌≢◌, inl, inr, false, Option, some, List, [], ◌∷◌, arith,
  length, nat_eq,
}
use reinhardt_cloud.Base.Map.{get}
use reinhardt_cloud.Types.Basic.{Uuid}
use reinhardt_cloud.Grpc.Registry.Defs.{
  AgentConnection, AgentRegistry, Op, unregister_if, step, run,
}
use reinhardt_cloud.Grpc.Registry.Origins.{step-Follows}
use reinhardt_cloud.Grpc.Registry.Validity.{next_generation-step}

abbrev pub generation_at : AgentRegistry → Uuid → Option ℕ
generation_at r k = Option.map (λ c. c.generation) (get k r.agents)

abbrev generation_of : AgentConnection → ℕ
generation_of c = c.generation

-- a generation that was handed out and is not the one of the entry
pub record IsStale (r : AgentRegistry) (k : Uuid) (g : ℕ) : Type 0 where
  pub issued : g < r.next_generation
  pub replaced : generation_at r k ≢ some g

step-IsStale :
    (r : AgentRegistry) (op : Op) {k : Uuid} {g : ℕ}
    → r.next_generation + 1 < 2 ^ 64
    → IsStale r k g
    → IsStale (step r op) k g
step-IsStale r op {k} {g} b s = record {
  issued = omega (arith, next_generation-step r op b, s.issued);
  replaced = λ e. elim (step-Follows generation_of (λ c now. refl) (λ c h now. refl) r k op) [
    | inl same ↦ s.replaced (sym same ∙ e)
    | inr (inl gone) ↦ cc
    | inr (inr (c, (new, at))) ↦ absurd (ground (arith, s.issued, new, at, e))
  ];
}

pub run-IsStale :
    (r : AgentRegistry) (ops : List Op) {k : Uuid} {g : ℕ}
    → r.next_generation + length ops < 2 ^ 64
    → IsStale r k g
    → IsStale (run r ops) k g
unfolding run
run-IsStale r [] b s = s
run-IsStale r (op ∷ ops) b s =
    run-IsStale (step r op) ops (omega (arith, next_generation-step r op (omega arith)))
      (step-IsStale r op (omega arith) s)

-- Whatever happens after a connection was replaced or removed, up to the wrap of the 64-bit
-- counter, its own cleanup reports that it removed nothing and changes nothing.
pub unregister_if-stale :
    (r : AgentRegistry) (ops : List Op) (k : Uuid) (g : ℕ)
    → r.next_generation + length ops < 2 ^ 64
    → IsStale r k g
    → unregister_if (run r ops) k g ≡ (run r ops, false)
unfolding unregister_if
unregister_if-stale r ops k g b s = ground (arith, (run-IsStale r ops {k = k} {g = g} b s).replaced)
