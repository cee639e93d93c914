-- ===== src/Operator/Backoff/Delay.antt =====
-- The delay that `compute_backoff` gives.
use native.Mathlib.Nat.{pow-le-pow_right}
use reinhardt_cloud.Base.{
  ℕ, zero, suc, ◌*◌, ◌^◌, ◌≤◌, min, ◌≡◌, inl, inr, some, leb, Bool-cases, arith, ◌∙◌,
}
use reinhardt_cloud.Operator.Backoff.Defs.{compute_backoff, checked_shl, unwrap_or, u64_max}

two_pow_le : (a b : ℕ) → a ≤ b → 2 ^ a ≤ 2 ^ b
two_pow_le a b h = pow-le-pow_right (ground arith) h

-- a product with a factor that is large enough is past the cap
past_cap : (base n : ℕ) → 1048576 ≤ n → min (base * 1048576) 600 ≡ min (base * n) 600
past_cap zero n h = ground arith
past_cap (suc b) n h = ground arith

shl_small : (k : ℕ) → k ≤ 20 → checked_shl 1 k ≡ some (2 ^ k)
unfolding checked_shl
shl_small k h = ground (arith, two_pow_le k 20 h)

capped :
    (base k : ℕ)
    → k ≤ 20
    → min (min (base * unwrap_or u64_max (checked_shl 1 k)) u64_max) 600 ≡ min (base * 2 ^ k) 600
capped base k h = rw (shl_small k h) (ground arith)

-- The delay after `attempt` failures is `base * 2 ^ attempt`, but at most 600 seconds, for every
-- number of failures: neither the bound of 20 on the shift nor the saturation of the product, which
-- keep it from overflowing, changes a delay.
pub compute_backoff_lem :
    (base attempt : ℕ) → compute_backoff base attempt ≡ min (base * 2 ^ attempt) 600
unfolding compute_backoff
compute_backoff_lem base attempt = elim (Bool-cases (leb attempt 20)) [
  | inl small ↦
      let same : min attempt 20 ≡ attempt = ground arith in
      rw same (capped base attempt (ground arith))
  | inr large ↦
      let same : min attempt 20 ≡ 20 = ground arith in
      rw same (
        capped base 20 (ground arith)
        ∙ past_cap base (2 ^ attempt) (two_pow_le 20 attempt (ground arith)))
]
