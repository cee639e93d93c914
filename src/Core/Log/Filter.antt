-- ===== src/Core/Log/Filter.antt =====
-- What a filter selects, stated one restriction at a time.
use reinhardt_cloud.Base.{
  ℕ, ltb, ◌≤◌, Bool, true, false, not, Option, none, some, String, string_eq, ◌==◌, ◌≡◌, ◌↔◌, refl,
  arith, eq_iff,
}
use reinhardt_cloud.Types.Log.{LogEntry, LogFilter, rank}
use reinhardt_cloud.Core.Log.Defs.{matches_filter, passes, contains}

-- a restriction holds if it is absent
abbrev pub Holds {ℓ} : {A : Type ℓ} → Option A → (A → Type 0) → Type 0
Holds none P = Unit
Holds (some x) P = P x

passes_iff {ℓ} :
    {A : Type ℓ} (o : Option A) (fails : A → Bool) (P : A → Type 0) (rest : Bool) (Q : Type 0)
    → ((x : A) → (fails x ≡ false) ↔ P x)
    → ((rest ≡ true) ↔ Q)
    → (passes o fails rest ≡ true) ↔ (Holds o P × Q)
passes_iff none fails P rest Q h k = (λ e. (tt, k.0 e), λ p. k.1 p.1)
passes_iff (some x) fails P rest Q h k = ground (arith, h x, k)

-- the entry is one that the filter asks for
unfoldable pub IsSelected : {Json : Type 0} → LogFilter → LogEntry Json → Type 0
unfolding rank
IsSelected f e =
    Holds f.source (λ source. e.source ≡ source)
    × (Holds f.min_level (λ min_level. rank min_level ≤ rank e.level)
        × (Holds f.since (λ since. since ≤ e.timestamp)
            × (Holds f.until (λ until. e.timestamp ≤ until)
                × (Holds f.search (λ search. contains e.message search ≡ true)
                    × (Holds f.deployment_id (λ deployment_id. e.source ≡ deployment_id) × Unit)))))

not_eq_iff : (a b : String) → (not (a == b) ≡ false) ↔ (a ≡ b)
not_eq_iff a b = ground (arith, eq_iff a b)

not_iff : (b : Bool) → (not b ≡ false) ↔ (b ≡ true)
not_iff b = ground arith

ltb_iff : (a b : ℕ) → (ltb a b ≡ false) ↔ (b ≤ a)
ltb_iff a b = ground arith

module _ {Json : Type 0} (e : LogEntry Json) (f : LogFilter) where
  -- An entry matches a filter exactly if each of these restrictions holds where the filter has it: the
  -- source is the one asked for and so is the deployment, the level is at least the lowest one asked
  -- for, the time is within the bounds, both included, and the message has the text that is searched
  -- for. The namespace of the filter is no restriction.
  pub matches_filter_iff : (matches_filter e f ≡ true) ↔ IsSelected f e
  unfolding matches_filter IsSelected rank
  matches_filter_iff =
      passes_iff f.source _ _ _ _ (λ source. not_eq_iff e.source source)
        (passes_iff f.min_level _ _ _ _ (λ min_level. ltb_iff (rank e.level) (rank min_level))
          (passes_iff f.since _ _ _ _ (λ since. ltb_iff e.timestamp since)
            (passes_iff f.until _ _ _ _ (λ until. ltb_iff until e.timestamp)
              (passes_iff f.search _ _ _ _ (λ search. not_iff (contains e.message search))
                (passes_iff f.deployment_id _ _ _ _ (λ id. not_eq_iff e.source id)
                  (λ _. tt, λ _. refl))))))

  -- The namespace of a filter selects nothing: an entry matches whatever namespace is asked for.
  pub matches_filter-namespace :
      (namespace : Option String)
      → matches_filter e (record f { namespace = namespace }) ≡ matches_filter e f
  unfolding matches_filter
  matches_filter-namespace namespace = refl
