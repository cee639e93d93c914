-- ===== src/Core/Log.antt =====
-- The log service: crates/reinhardt-cloud-core/src/services/log.
pub mod Defs
pub mod Ring
pub mod Pages
pub mod Filter
