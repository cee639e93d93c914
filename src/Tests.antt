-- ===== src/Tests.antt =====
-- The theorems at concrete inputs.
mod Registry
mod Builds
pub mod Wire
mod Logs
mod Agents
mod Operator
mod SourceBuild
mod Gauges
mod Dashboard
mod Tenants
mod Roles
mod Plugins
mod Tokens
mod Broadcasts
mod Infrastructure
