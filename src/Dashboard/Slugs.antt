-- ===== src/Dashboard/Slugs.antt =====
-- dashboard/src/apps/organizations/roles.rs: the slugs of organizations.
pub mod Defs
pub mod Label
pub mod Sanitized
pub mod Tenants
