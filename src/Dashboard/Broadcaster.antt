-- ===== src/Dashboard/Broadcaster.antt =====
-- dashboard/src/utils/realtime/broadcaster.rs: who receives which real-time updates. Each method is
-- one step. The rooms are those of the web framework, and a parameter.
pub mod Defs
pub mod Limit
pub mod Answers
pub mod Tracked
pub mod Gone
