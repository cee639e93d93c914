-- ===== src/Grpc/Interceptor.antt =====
-- crates/reinhardt-cloud-grpc/src/interceptor.rs with agent_claims.rs and the claims of
-- crates/reinhardt-cloud-core/src/auth.rs: what a request must carry to reach a service.
pub mod Defs
pub mod Bearer
pub mod Tokens
pub mod Authorized
