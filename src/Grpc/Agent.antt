-- ===== src/Grpc/Agent.antt =====
-- crates/reinhardt-cloud-grpc/src/services/cluster_agent.rs: agents over gRPC.
pub mod Codec
pub mod Service
pub mod World
pub mod Owned
pub mod Invariant
pub mod Isolation
pub mod Refused
pub mod Ended
