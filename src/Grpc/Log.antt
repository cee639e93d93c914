-- ===== src/Grpc/Log.antt =====
-- crates/reinhardt-cloud-grpc/src/services/log.rs: logs over gRPC.
pub mod Codec
pub mod Server
pub mod Pushed
pub mod Scoped
