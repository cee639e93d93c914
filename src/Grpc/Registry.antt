-- ===== src/Grpc/Registry.antt =====
-- crates/reinhardt-cloud-grpc/src/registry.rs: the agents connected over gRPC, each bound to the
-- cluster of its token. A method that mutates the registry returns the new one. `dashmap` makes
-- each operation on one key atomic, so an interleaving of connections is a list of operations. A
-- command for a cluster looks at the map twice, and the map may change between the two. The search
-- over all agents is taken to see the map in one state. An eviction that goes through the map part by
-- part, with other operations between, is a list of evictions with clocks that are late for one part.
-- A sender of `mpsc::channel(64)` is named by a number, which stands for the receiver too.
pub mod Defs
pub mod Validity
pub mod Binding
pub mod Fields
pub mod Origins
pub mod Generations
pub mod Routing
pub mod Eviction
