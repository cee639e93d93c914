-- ===== src/Base/Set.antt =====
-- A set (`HashSet`) as a list without order: what is in it, and how large it may be.
use mathlib.Core.Path.{◌≡◌, ap}
use mathlib.Core.Logic.{inl, inr}
use mathlib.Core.Bool.{Bool, false, ◌||◌, ◌&&◌, not}
use mathlib.Core.List.{List, [], ◌∷◌}
use Prim.Native.Nat.{◌+◌, ◌≤◌}
use native.Mathlib.Omega.{arith}
use reinhardt_cloud.Base.Tests.{Eq, ◌==◌, if◌then◌else◌, Bool-cases}
use reinhardt_cloud.Base.Lists.{length}

module _ {ℓ} {A : Type ℓ} ⦃e : Eq A⦄ where
  -- `set.contains(&a)`
  unfoldable pub has : A → List A → Bool
  has a [] = false
  has a (b ∷ s) = (b == a) || has a s

  -- `set.insert(a)`
  unfoldable pub add : A → List A → List A
  unfolding has
  add a s = if has a s then s else a ∷ s

  -- `set.remove(&a)`
  unfoldable pub discard : A → List A → List A
  discard a [] = []
  discard a (b ∷ s) = let rest = discard a s in if b == a then rest else b ∷ rest

  pub has-add : (a b : A) (s : List A) → has b (add a s) ≡ ((a == b) || has b s)
  unfolding add has
  has-add a b s = elim (Bool-cases (a == b)) [
    | inl same ↦ ground (arith, same, ap (λ c. has c s) ((e.beq_iff a b).0 same))
    | inr other ↦ ground (arith, other)
  ]

  pub has-discard : (a b : A) (s : List A) → has b (discard a s) ≡ (not (a == b) && has b s)
  unfolding has discard
  has-discard a b [] = ground arith
  has-discard a b (c ∷ s) =
      ground (arith, e.beq_iff a b, e.beq_iff c a, e.beq_iff c b, has-discard a b s)

  pub length-add : (a : A) (s : List A) → length (add a s) ≤ length s + 1
  unfolding add
  length-add a s = ground arith

  pub length-discard : (a : A) (s : List A) → length (discard a s) ≤ length s
  unfolding discard
  length-discard a [] = ground arith
  length-discard a (b ∷ s) = ground (arith, length-discard a s)
