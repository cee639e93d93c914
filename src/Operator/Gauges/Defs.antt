-- ===== src/Operator/Gauges/Defs.antt =====
-- The phase last seen of each project, and the gauge. A gauge is a number that may go below zero.
use reinhardt_cloud.Base.{
  zero, suc, String, Bool, true, not, Option, none, some, Eq, ◌==◌, string_eq, if◌then◌else◌,
}
use reinhardt_cloud.Base.Int.{ℤ, pos, negsuc}
use reinhardt_cloud.Base.Map.{Map, get, insert, remove}
use reinhardt_cloud.Types.Crd.{
  ProjectPhase, pending_phase, provisioning_phase, deploying_phase, running_phase, degraded_phase,
  failed_phase, terminating_phase,
}

unfoldable pub phase_label : ProjectPhase → String
phase_label pending_phase = "Pending"
phase_label provisioning_phase = "Provisioning"
phase_label deploying_phase = "Deploying"
phase_label running_phase = "Running"
phase_label degraded_phase = "Degraded"
phase_label failed_phase = "Failed"
phase_label terminating_phase = "Terminating"

-- `inc()` and `dec()` of a gauge
unfoldable pub inc : ℤ → ℤ
inc (pos n) = pos (suc n)
inc (negsuc zero) = pos 0
inc (negsuc (suc n)) = negsuc n

unfoldable pub dec : ℤ → ℤ
dec (pos zero) = negsuc 0
dec (pos (suc n)) = pos n
dec (negsuc n) = negsuc (suc n)

-- the two fields of the context, for projects with keys of type `K`
pub record Gauges (K : Type 0) : Type 0 where
  pub phase_state : Map K String
  pub managed_apps : String → ℤ

-- `with_label_values(&[label])`, with an operation on that gauge
unfoldable pub at_label : String → (ℤ → ℤ) → (String → ℤ) → String → ℤ
at_label label f gauge l = if label == l then f (gauge l) else gauge l

-- `previous.as_deref() != Some(new_phase)`
unfoldable pub has_changed : Option String → String → Bool
has_changed none new_phase = true
has_changed (some prev) new_phase = not (prev == new_phase)

-- the gauge after a phase was recorded
unfoldable pub moved : Option String → String → (String → ℤ) → String → ℤ
unfolding has_changed at_label
moved none new_phase gauge =
    if has_changed none new_phase then at_label new_phase inc gauge else gauge
moved (some prev) new_phase gauge =
    let changed = has_changed (some prev) new_phase in
    let left = if changed then at_label prev dec gauge else gauge in
    if changed then at_label new_phase inc left else left

module _ {K : Type 0} ⦃e : Eq K⦄ where
  unfoldable pub update_managed_apps_gauge : K → String → Gauges K → Gauges K
  unfolding moved
  update_managed_apps_gauge key new_phase g = record {
    phase_state = insert key new_phase g.phase_state;
    managed_apps = moved (get key g.phase_state) new_phase g.managed_apps;
  }

  unfoldable pub drop_managed_apps_gauge : K → Gauges K → Gauges K
  unfolding at_label
  drop_managed_apps_gauge key g = elim (get key g.phase_state) [
    | none ↦ g
    | some prev ↦ record {
      phase_state = remove key g.phase_state;
      managed_apps = at_label prev dec g.managed_apps;
    }
  ]
