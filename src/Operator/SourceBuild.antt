-- ===== src/Operator/SourceBuild.antt =====
-- crates/reinhardt-cloud-operator/src/source_build.rs: the builds of a project's source, as far as
-- they change its status, with the gate of reconciler.rs that acts on a decision.
pub mod Defs
pub mod Patch
pub mod Exclusive
pub mod Decisions
pub mod Preview
pub mod Reconcile
pub mod Trigger
