-- ===== src/Operator/Backoff/History.antt =====
-- What the failure counters hold after any sequence of reconciliations.
use reinhardt_cloud.Base.{
  Eq, String, ℕ, suc, ◌+◌, ◌*◌, ◌^◌, min, ◌≡◌, refl, Option, none, some, [], ◌∷◌, ◌==◌, nat_eq,
  string_eq, pair_eq, if◌then◌else◌, arith, Bool-cases, inl, inr, ◌∙◌, ap, ◌⊎◌,
}
use reinhardt_cloud.Base.Map.{Map, get, get-insert, get-remove, insert, remove}
use reinhardt_cloud.Base.Result.{Result, ok, err}
use reinhardt_cloud.Operator.Error.{
  Error, Source, missing_namespace, finalizer, BackoffClass, transient, dependency_not_ready,
  permanent, ownership_conflict, backoff_class, as_metric_label,
}
use reinhardt_cloud.Operator.Backoff.Defs.{
  Action, requeue, Object, Key, backoff_key, Context, attempts, retry, policy_of, error_policy,
  finish, reconcile, settle, handle, History, run, inc, compute_backoff, u32_max, unwrap_or,
}
use reinhardt_cloud.Operator.Backoff.Delay.{compute_backoff_lem}

-- how a class of errors counts: with `n` failures before, there are this many after it
abbrev pub count_class : BackoffClass → ℕ → ℕ
count_class permanent n = 0
count_class ownership_conflict n = 0
count_class transient n = suc n
count_class dependency_not_ready n = suc n

-- The error that a reconciliation of an object ends in, if it fails.
abbrev pub failure : Object → Result Action Source → Option Error
failure obj outcome = elim obj.namespace [
  | none ↦ some (missing_namespace obj.name)
  | some ns ↦
      if ns == ""
      then some (missing_namespace obj.name)
      else elim outcome [ ok _ ↦ none | err source ↦ some (finalizer source) ]
]

-- the failures to retry of the object with this key since it last succeeded, or last failed in a
-- way that is not retried with a growing delay
abbrev pub failures : Key → History → ℕ
failures k [] = 0
failures k ((obj, outcome) ∷ before) =
    let n = failures k before in
    if backoff_key obj == k
    then elim (failure obj outcome) [ none ↦ 0 | some e ↦ count_class (backoff_class e) n ]
    else n

-- the two ways in which a counter changes
module _ {ℓ} {K : Type ℓ} ⦃e : Eq K⦄ (j k : K) (m : Map K ℕ) where
  count-insert :
      (v : ℕ) → unwrap_or 0 (get k (insert j v m)) ≡ (if j == k then v else unwrap_or 0 (get k m))
  count-insert v = ground (arith, get-insert j k v m)

  count-remove : unwrap_or 0 (get k (remove j m)) ≡ (if j == k then 0 else unwrap_or 0 (get k m))
  count-remove = ground (arith, get-remove j k m)

  -- the counter that is written is the one that was read
  count-bump :
      unwrap_or 0 (get k (insert j (min (unwrap_or 0 (get j m) + 1) u32_max) m))
      ≡ (if j == k then min (suc (unwrap_or 0 (get k m))) u32_max else unwrap_or 0 (get k m))
  count-bump = ground (arith, count-insert (min (unwrap_or 0 (get j m) + 1) u32_max), e.beq_iff j k)

module _ (obj : Object) (k : Key) where
  policy-attempts :
      (class : BackoffClass) (ctx : Context)
      → attempts k (policy_of obj class ctx).0 ≡ (
          if backoff_key obj == k
          then min (count_class class (attempts k ctx)) u32_max
          else attempts k ctx)
  unfolding attempts policy_of retry
  policy-attempts transient ctx = count-bump (backoff_key obj) k ctx.backoff_state
  policy-attempts dependency_not_ready ctx = count-bump (backoff_key obj) k ctx.backoff_state
  policy-attempts permanent ctx = count-remove (backoff_key obj) k ctx.backoff_state
  policy-attempts ownership_conflict ctx = count-remove (backoff_key obj) k ctx.backoff_state

  finish-attempts :
      (outcome : Result Action Source) (ctx : Context)
      → attempts k (settle obj (finish obj outcome ctx)).0 ≡ (
          if backoff_key obj == k
          then elim outcome [
            | ok _ ↦ 0
            | err source ↦
                min (count_class (backoff_class (finalizer source)) (attempts k ctx)) u32_max
          ]
          else attempts k ctx)
  unfolding attempts finish settle
  finish-attempts (ok action) ctx = count-remove (backoff_key obj) k ctx.backoff_state
  finish-attempts (err source) ctx =
      policy-attempts (backoff_class (finalizer source)) (record ctx {
        reconcile_total =
            inc (as_metric_label (backoff_class (finalizer source))) ctx.reconcile_total;
      })

-- one reconciliation
abbrev Handled : Object → Result Action Source → Context → Key → Type 0
Handled obj outcome ctx k = attempts k (handle obj outcome ctx).0 ≡ (
    if backoff_key obj == k
    then elim (failure obj outcome) [
      | none ↦ 0
      | some e ↦ min (count_class (backoff_class e) (attempts k ctx)) u32_max
    ]
    else attempts k ctx)

handle-attempts :
    (namespace : Option String) (name : String) (outcome : Result Action Source) (ctx : Context)
    (k : Key)
    → Handled (record { namespace = namespace; name = name }) outcome ctx k
unfolding reconcile settle backoff_class attempts
handle-attempts none name outcome ctx k =
    policy-attempts (record { namespace = none; name = name }) k transient ctx
handle-attempts (some ns) name (ok action) ctx k =
    let obj : Object = record { namespace = some ns; name = name } in
    elim (Bool-cases (ns == "")) [
      | inl bare ↦ rw bare (policy-attempts obj k transient ctx)
      | inr named ↦ rw named (finish-attempts obj k (ok action) ctx)
    ]
handle-attempts (some ns) name (err source) ctx k =
    let obj : Object = record { namespace = some ns; name = name } in
    elim (Bool-cases (ns == "")) [
      | inl bare ↦ rw bare (policy-attempts obj k transient ctx)
      | inr named ↦ rw named (finish-attempts obj k (err source) ctx)
    ]

-- counting up to a bound
saturate-class :
    (class : BackoffClass) (m n : ℕ)
    → m ≡ min n u32_max
    → min (count_class class m) u32_max ≡ min (count_class class n) u32_max
saturate-class transient m n h = ground arith
saturate-class dependency_not_ready m n h = ground arith
saturate-class permanent m n h = refl
saturate-class ownership_conflict m n h = refl

saturate :
    (cause : Option Error) (m n : ℕ)
    → m ≡ min n u32_max
    → Path ℕ
        (elim cause [ none ↦ 0 | some e ↦ min (count_class (backoff_class e) m) u32_max ])
        (min (elim cause [ none ↦ 0 | some e ↦ count_class (backoff_class e) n ]) u32_max)
saturate none m n h = ground arith
saturate (some e) m n h = saturate-class (backoff_class e) m n h

-- After any sequence of reconciliations the failure counter of every object stands at the failures
-- that are to be retried with a growing delay, since the last reconciliation of that object that
-- succeeded or failed otherwise, up to the largest `u32`, if it stood at zero first: the
-- reconciliations of other objects do not count.
pub run-attempts :
    (history : History) (ctx : Context) (k : Key)
    → attempts k ctx ≡ 0
    → attempts k (run history ctx) ≡ min (failures k history) u32_max
unfolding run
run-attempts [] ctx k fresh = ground (arith)
run-attempts ((obj, outcome) ∷ before) ctx k fresh =
    let now = handle-attempts obj.namespace obj.name outcome (run before ctx) k in
    let earlier = run-attempts before ctx k fresh in
    elim (Bool-cases (backoff_key obj == k)) [
      | inl same ↦ rw same (
          rw same at now
          ∙ saturate (failure obj outcome) (attempts k (run before ctx)) (failures k before)
              earlier)
      | inr other ↦ rw other (rw other at now ∙ earlier)
    ]

-- the base of the delays of a class
abbrev pub base_of : BackoffClass → ℕ
base_of dependency_not_ready = 60
base_of _ = 30

abbrev pub IsRetried : BackoffClass → Type 0
IsRetried class = (class ≡ transient) ⊎ (class ≡ dependency_not_ready)

-- only the failures up to the twentieth matter to a delay
delay_cap : (base a n : ℕ) → min a 20 ≡ min n 20 → compute_backoff base a ≡ min (base * 2 ^ n) 600
unfolding compute_backoff
delay_cap base a n h =
    let same : compute_backoff base a ≡ compute_backoff base n = rw h refl in
    same ∙ compute_backoff_lem base n

retry-action :
    (class : BackoffClass) (obj : Object) (ctx : Context) (n : ℕ)
    → attempts (backoff_key obj) ctx ≡ min n u32_max
    → IsRetried class
    → (policy_of obj class ctx).1 ≡ requeue (min (base_of class * 2 ^ n) 600)
unfolding policy_of retry attempts
retry-action transient obj ctx n at r = ap requeue (delay_cap 30 _ n (rw at (ground arith)))
retry-action dependency_not_ready obj ctx n at r =
    ap requeue (delay_cap 60 _ n (rw at (ground arith)))
retry-action permanent obj ctx n at r = absurd (ground arith)
retry-action ownership_conflict obj ctx n at r = absurd (ground arith)

-- After any sequence of reconciliations that starts with no failure counted for an object, an
-- error that is to be retried makes the object wait for
-- `base * 2 ^ n` seconds but at most 600, with base 60 if a dependency is not ready and 30
-- otherwise, where `n` is the number of such failures since the object's last success or other
-- failure.
pub error_policy_lem :
    (history : History) (ctx : Context) (obj : Object) (error : Error)
    → attempts (backoff_key obj) ctx ≡ 0
    → IsRetried (backoff_class error)
    → (error_policy obj error (run history ctx)).1
      ≡ requeue (min (base_of (backoff_class error) * 2 ^ failures (backoff_key obj) history) 600)
error_policy_lem history ctx obj error fresh retried =
    retry-action (backoff_class error) obj (run history ctx) (failures (backoff_key obj) history)
      (run-attempts history ctx (backoff_key obj) fresh) retried
