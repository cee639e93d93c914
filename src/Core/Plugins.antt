-- ===== src/Core/Plugins.antt =====
-- crates/reinhardt-cloud-core/src/plugin: the registry of plugins and the hooks they run at.
pub mod Defs
pub mod Registered
pub mod Executed
