-- ===== src/Operator/Gauges.antt =====
-- crates/reinhardt-cloud-operator/src/reconciler.rs: the gauge of the managed projects by phase
-- (`phase_label`, `update_managed_apps_gauge` and `drop_managed_apps_gauge`).
pub mod Defs
pub mod Counts
