-- ===== src/Operator/Backoff/Defs.antt =====
-- The failure counters of the operator's context, and the two functions that change them.
use reinhardt_cloud.Base.{
  ℕ, ◌+◌, ◌-◌, ◌*◌, ◌%◌, ◌^◌, min, String, Option, none, some, List, [], ◌∷◌, ltb, ◌==◌, string_eq,
  pair_eq, if◌then◌else◌,
}
use reinhardt_cloud.Base.Map.{Map, get, insert, remove}
use reinhardt_cloud.Base.Result.{Result, ok, err}
use reinhardt_cloud.Operator.Error.{
  Error, Source, missing_namespace, finalizer, BackoffClass, transient, dependency_not_ready,
  permanent, ownership_conflict, backoff_class, as_metric_label,
}

abbrev pub backoff_base_transient_secs : ℕ
backoff_base_transient_secs = 30

abbrev pub backoff_base_dependency_secs : ℕ
backoff_base_dependency_secs = 60

abbrev pub backoff_max_secs : ℕ
backoff_max_secs = 600

abbrev pub ownership_conflict_requeue_secs : ℕ
ownership_conflict_requeue_secs = 300

abbrev pub u64_max : ℕ
u64_max = 18446744073709551615

abbrev pub u32_max : ℕ
u32_max = 4294967295

-- `n.checked_shl(k)` of a `u64`
unfoldable pub checked_shl : ℕ → ℕ → Option ℕ
checked_shl n k = if ltb k 64 then some ((n * 2 ^ k) % 18446744073709551616) else none

abbrev pub unwrap_or {ℓ} : {A : Type ℓ} → A → Option A → A
unwrap_or d none = d
unwrap_or d (some a) = a

-- in seconds
unfoldable pub compute_backoff : ℕ → ℕ → ℕ
unfolding checked_shl
compute_backoff base_secs attempt =
    let factor = unwrap_or u64_max (checked_shl 1 (min attempt 20)) in
    min (min (base_secs * factor) u64_max) backoff_max_secs

-- `kube::runtime::controller::Action`, a delay in seconds
pub data Action : Type 0 where
  await_change : Action
  requeue : ℕ → Action

-- what `backoff_key` reads of a `Project`: its namespace, if it has one, and its name
pub record Object : Type 0 where
  pub namespace : Option String
  pub name : String

abbrev pub Key : Type 0
Key = String × String

abbrev pub backoff_key : Object → Key
backoff_key obj = (unwrap_or "" obj.namespace, obj.name)

-- the fields of `Context` that the error policy uses, the counter vectors as maps
pub record Context : Type 0 where
  pub backoff_state : Map Key ℕ
  pub requeue_total : Map String ℕ
  pub reconcile_total : Map String ℕ

-- `with_label_values(&[label]).inc()`
unfoldable pub inc : String → Map String ℕ → Map String ℕ
inc label counts = insert label (unwrap_or 0 (get label counts) + 1) counts

-- the failures counted for an object
unfoldable pub attempts : Key → Context → ℕ
attempts k ctx = unwrap_or 0 (get k ctx.backoff_state)

-- the last arm of `error_policy`, for a class and its base
unfoldable pub retry : Object → BackoffClass → ℕ → Context → Context × Action
retry obj class base ctx =
    let key = backoff_key obj in
    let attempt = min (unwrap_or 0 (get key ctx.backoff_state) + 1) u32_max in
    (
      record ctx {
        backoff_state = insert key attempt ctx.backoff_state;
        requeue_total = inc (as_metric_label class) ctx.requeue_total;
      },
      requeue (compute_backoff base (attempt - 1)),
    )

unfoldable pub policy_of : Object → BackoffClass → Context → Context × Action
policy_of obj permanent ctx =
    (record ctx { backoff_state = remove (backoff_key obj) ctx.backoff_state }, await_change)
policy_of obj ownership_conflict ctx = (
  record ctx {
    backoff_state = remove (backoff_key obj) ctx.backoff_state;
    requeue_total = inc (as_metric_label ownership_conflict) ctx.requeue_total;
  },
  requeue ownership_conflict_requeue_secs,
)
policy_of obj dependency_not_ready ctx =
    retry obj dependency_not_ready backoff_base_dependency_secs ctx
policy_of obj transient ctx = retry obj transient backoff_base_transient_secs ctx

abbrev pub error_policy : Object → Error → Context → Context × Action
error_policy obj error ctx = policy_of obj (backoff_class error) ctx

-- The end of `reconcile`, on what the finalizer returned: its own failures hold the error of the
-- handler, as `Source`. An object without a namespace does not get that far.
unfoldable pub finish : Object → Result Action Source → Context → Context × Result Action Error
finish obj (ok action) ctx = (
  record ctx {
    backoff_state = remove (backoff_key obj) ctx.backoff_state;
    reconcile_total = inc "success" ctx.reconcile_total;
  },
  ok action,
)
finish obj (err source) ctx =
    let error = finalizer source in
    (
      record ctx {
        reconcile_total = inc (as_metric_label (backoff_class error)) ctx.reconcile_total;
      },
      err error,
    )

unfoldable pub reconcile : Object → Result Action Source → Context → Context × Result Action Error
unfolding finish
reconcile obj outcome ctx = elim obj.namespace [
  | none ↦ (ctx, err (missing_namespace obj.name))
  | some ns ↦ if ns == "" then (ctx, err (missing_namespace obj.name)) else finish obj outcome ctx
]

-- what the controller does with the result: an error goes to the error policy
unfoldable pub settle : Object → Context × Result Action Error → Context × Action
settle obj (ctx, ok action) = (ctx, action)
settle obj (ctx, err error) = error_policy obj error ctx

abbrev pub handle : Object → Result Action Source → Context → Context × Action
handle obj outcome ctx = settle obj (reconcile obj outcome ctx)

-- the objects that were handled, the latest first, with what the finalizer returned
abbrev pub History : Type 0
History = List (Object × Result Action Source)

unfoldable pub run : History → Context → Context
run [] ctx = ctx
run ((obj, outcome) ∷ before) ctx = (handle obj outcome (run before ctx)).0
