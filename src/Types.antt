-- ===== src/Types.antt =====
-- The domain types shared by the crates: crates/reinhardt-cloud-types/src/*.rs.
pub mod Basic
pub mod Agent
pub mod Build
pub mod Log
pub mod Crd
pub mod Validation
pub mod Label
pub mod Tenant
pub mod Infrastructure
