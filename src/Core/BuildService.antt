-- ===== src/Core/BuildService.antt =====
-- crates/reinhardt-cloud-core/src/services/build/local.rs: builds run by a task each, beside the
-- clients that start, watch and cancel them.
pub mod Defs
pub mod Runs
pub mod Progress
pub mod Clients
