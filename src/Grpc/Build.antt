-- ===== src/Grpc/Build.antt =====
-- crates/reinhardt-cloud-grpc/src/services/build.rs: the build service over gRPC, its server
-- (`BuildServiceGrpc`) and its client (`GrpcBuildClient`).
pub mod Proto
pub mod Codec
pub mod Server
pub mod Roundtrip
