-- ===== src/Dashboard.antt =====
-- The dashboard: dashboard/src.
pub mod Slugs
pub mod Roles
pub mod Broadcaster
