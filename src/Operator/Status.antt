-- ===== src/Operator/Status.antt =====
-- crates/reinhardt-cloud-operator/src/reconciler.rs: the status that a reconciliation writes
-- (`MigrationGateState` and `build_status`).
pub mod Defs
pub mod Found
pub mod Verdict
pub mod Steady
