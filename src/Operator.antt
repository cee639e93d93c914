-- ===== src/Operator.antt =====
-- The operator crate: crates/reinhardt-cloud-operator/src.
pub mod Error
pub mod Backoff
pub mod Conditions
pub mod Status
pub mod Gauges
pub mod SourceBuild
