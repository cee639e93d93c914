-- ===== src/Lib.antt =====
-- A model of Reinhardt Cloud, a platform that builds projects and runs them on Kubernetes clusters.
--
-- The program is a set of crates around one operator. Agents in the clusters hold a gRPC stream to
-- the platform, which keeps their connections in a registry and sends commands over it. A build
-- service runs builds and streams their events; a log service buffers and streams log entries; gRPC
-- servers and clients carry both over the network. The operator reconciles `Project` objects,
-- retries with a backoff, and writes their status. The web dashboard guards what its users do.
--
-- Base           lists, maps, tests, results and texts that the rest shares.
-- Types          crates/reinhardt-cloud-types/src: agent.rs, build.rs, log.rs, and crd/status.rs with
--                the status types of crd/enums.rs, crd/database.rs, crd/cache.rs and crd/worker.rs.
--                Validation and Label are validation.rs, Tenant is crd/tenant.rs, Infrastructure is
--                crd/infrastructure.rs.
-- Core           crates/reinhardt-cloud-core/src: ApiError is error.rs, BuildService is
--                services/build/local.rs. Each build is an entry with the point at which its task
--                `run_build_pipeline` stands; `advance` moves the task by one effect, and `Step` is
--                whatever clients and tasks do. Pagination is pagination.rs; Log is
--                services/log/buffer.rs and services/log/local.rs; Plugins is plugin/registry.rs and
--                plugin/traits.rs; Clusters and Deployments are services/cluster.rs and
--                services/deployment.rs.
-- Grpc           crates/reinhardt-cloud-grpc/src: Registry is registry.rs, with one function for each
--                method of `AgentRegistry`; Build is services/build.rs, its codec, its server and its
--                client over any build service; Log is services/log.rs over any log service; Agent is
--                services/cluster_agent.rs, with its sessions as a step relation on the registry and
--                the sessions that are open; Interceptor is interceptor.rs with agent_claims.rs;
--                Wire is what the services share.
-- Operator       crates/reinhardt-cloud-operator/src: Error is error.rs; Backoff, Conditions and
--                Status are the error policy and the status functions of reconciler.rs. SourceBuild
--                is source_build.rs with the gate of reconciler.rs: the decision on a build, from
--                the state of its job, the status patch that goes with it, the patch of a deleted
--                preview, and `reconcile_source_build` with the effects that it has. Gauges is the
--                gauge of the managed projects by phase in reconciler.rs.
-- Dashboard      dashboard/src: of apps/organizations, Slugs is the validation and the making of
--                slugs in roles.rs; Roles is the roles of roles.rs, the matrix of
--                permissions/table.rs, and the guard of permissions/guard.rs with the look-up of
--                helpers.rs. Broadcaster is utils/realtime/broadcaster.rs.
-- Tests          the theorems at concrete inputs.
--
-- Numbers are natural numbers. A 32-bit or 64-bit counter has its bound, its wrap or its
-- saturation written out; `u32 as i32` is written out too. A time is a number of nanoseconds, and
-- the clock is an argument wherever the code reads it. An identifier is a number, or a string
-- where the code has one. A text that the code looks into is the list of its bytes, or of its
-- characters as numbers; one that it only compares or stores is a string. A message that the code
-- formats is its format string, so messages that differ only in the values that are filled in are
-- the same here. The conversions of chrono, uuid and serde_json, and the decoding of tokens, are
-- parameters (`Wire`, `JsonText`, `Jwt`), with what the documentation of chrono and uuid states
-- (`IsLawful`); nothing is assumed of JSON. A gRPC stream is a parameter too (`Connection`), which
-- ends at the first error (`IsStream`). A channel is a number; whether its receiver is alive is a
-- parameter. A broadcast channel is the list of what was sent into it. A table of the database is
-- the list of the rows that a query finds, or nothing where the query fails. The answers of the
-- Kubernetes API, where a call that fails may have taken effect, and the behaviour of a plugin are
-- parameters, and so are the rooms of the web framework (`RoomManager`), with what is relied on
-- (`AreRooms`).
--
-- No definition runs on fuel: the loops are over lists, and a build's task is a step function, whose
-- end after a bounded number of moves is a theorem.
--
-- Not modelled: the objects that the operator creates and its calls of the Kubernetes API apart from
-- those of a source build; the derivation of a source build from annotations, and of infrastructure
-- from what is found in a project; the specification of a project apart from its tenant and its
-- infrastructure; the making of tokens; the agent process, the command line tool and telemetry,
-- which are mostly input and output; and the rest of the web dashboard, whose real-time broadcaster
-- is modelled without the two broadcasts, and with each method as one step.
pub mod Base
pub mod Types
pub mod Core
pub mod Grpc
pub mod Operator
pub mod Dashboard
pub mod Tests
