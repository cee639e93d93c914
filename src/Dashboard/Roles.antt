-- ===== src/Dashboard/Roles.antt =====
-- dashboard/src/apps/organizations: the roles of members (roles.rs), what each role may do
-- (permissions/table.rs), and the guard of the views (permissions/guard.rs, helpers.rs).
pub mod Defs
pub mod Guard
pub mod Matrix
pub mod Granted
