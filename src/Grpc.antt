-- ===== src/Grpc.antt =====
-- The gRPC crate: crates/reinhardt-cloud-grpc/src.
pub mod Wire
pub mod Registry
pub mod Build
pub mod Log
pub mod Agent
pub mod Interceptor
