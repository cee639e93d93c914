-- ===== src/Core.antt =====
-- The service crate: crates/reinhardt-cloud-core/src.
pub mod ApiError
pub mod Pagination
pub mod Log
pub mod BuildService
pub mod Clusters
pub mod Plugins
pub mod Deployments
