-- ===== src/Operator/Backoff.antt =====
-- crates/reinhardt-cloud-operator/src/reconciler.rs: how long after a failure an object is
-- reconciled again (`reconcile`, `error_policy` and `compute_backoff`).
pub mod Defs
pub mod Delay
pub mod History
