-- ===== src/Lib.antt =====
-- Verification of the TEI manager.
--
-- The manager keeps a registry of text-embedding instances. Each instance is a configuration and a
-- child process on a port of its own; an HTTP API creates, starts, stops and deletes instances, a
-- health monitor checks them and restarts those that fail, and a state file lets a new manager
-- bring them back.
--
-- The files, with the code that they model:
--   Base             shared names, lists, texts, association lists, results and actions
--   Config           src/config.rs: `ManagerConfig`; Config.Load is `load`, Config.Validate is
--                    `validate`
--   Instance         src/instance.rs: `TeiInstance`, `start`, `stop`, `restart`, and the trait
--                    `ProcessManager` with the laws its callers rely on; Instance.System is
--                    `SystemProcessManager`, over any operating system
--   Registry         src/registry.rs: `Registry::add`, `get`, `list`, `remove`; Registry.Ports has
--                    the two searches for a port, Registry.World joins registry and processes
--   Errors           src/error.rs: `TeiError` and its statuses
--   Health           src/health.rs: one check of one instance, its events and restarts;
--                    Health.Ready is `wait_for_ready` and the task around it
--   State            src/state.rs: `save`, `load`, `restore_with_options`; State.Storage is
--                    `FileSystemStorage` on a disk whose steps may fail
--   Auth             src/auth/mod.rs: the manager over its providers; Auth.Mtls is
--                    src/auth/mtls.rs, Auth.Service the middleware of src/auth/service.rs
--   Pool             src/grpc/pool.rs: the connections to the instances, the registry's events
--                    that close them, and the prunings
--   Multiplexer      src/grpc/multiplexer.rs: `extract_target`, the unary methods and the streams;
--                    Multiplexer.Arrow has `embed_arrow` and `embed_sparse_arrow`
--   Startup          src/main.rs: the way to the first instances, and the shutdown; Startup.Cycle
--                    goes from a start over any run to the next start
--   Manager          how the handlers, the monitor and the pool take turns on the one registry, and
--                    the acts that a client of the instances by name sees of it
--   Models           src/models/registry.rs, and the handlers of src/api/handlers.rs that download
--                    and load a model, each as a step before and a step after its wait;
--                    Models.HubCache is src/models/cache.rs, Models.Metadata src/models/metadata.rs,
--                    Models.Loader src/models/loader.rs, and Models.Hub src/models/download.rs;
--                    Models.Catalog is the start, the list and the runs of that registry
--   Api              src/api/handlers.rs, src/api/models.rs: the handlers on instances; Api.Logs
--                    is the slicing of a log, and Api.Routes the router of src/api/routes.rs
--
-- Shared state. An `Arc<TeiInstance>` is its configuration and the address of the cell that its
-- locks guard, in a runtime that also holds the state of the process managers. Registry, monitor,
-- state manager and handlers all work on that runtime, so a restart by the monitor is seen by the
-- handlers. An operation that can fail is an action: it takes the state, and answers a result with
-- the state as it is then, also after a failure.
--
-- Numbers are natural numbers. Where the source computes on a `u16`, `u32` or `i32` the wrap-around
-- is written out; where a range matters, a statement has it as a hypothesis. A `HashMap` is an
-- association list, whose order stands for the order of iteration. The program does not fix that order:
-- the runs of Manager may change it at any step, a save may get the entries in any order, and what is
-- kept over a restart is stated up to order. Times are whole seconds and arguments of the operations.
--
-- The polling loop of `wait_for_ready` runs on fuel: `enough_rounds` is the number of poll intervals
-- in the timeout, and two more. The recursion of `dir_size` runs on fuel too: enough is one more than
-- the depth of the directories below. All other loops recurse on a list or on the number of ports left.
--
-- Arguments stand for what is outside the sources: the operating system, the file system, the TOML
-- reader and writer, the environment, the answers of the gRPC clients, whether a port can be bound or
-- answers, the arrow library, the hub's client, and the parsers of certificates, headers and JSON. Laws
-- are asked of a few of them: that the TOML crate reads back what it wrote, that arrays have Arrow's
-- documented layout, that a directory which can be read lists what is in it, that axum picks one of the
-- routes, and that a child is gone when a wait for it returns first or after a SIGKILL.
--
-- Not modelled: the interleaving of methods at their await points (a method is one step, and Manager
-- interleaves steps), the texts of errors, logging and metrics, the two servers and their TLS setup
-- (src/grpc/server.rs and the middle of src/main.rs).
mod Base
pub mod Config
pub mod Instance
pub mod Registry
pub mod Errors
pub mod Auth
pub mod Pool
pub mod Multiplexer
pub mod Manager
pub mod Startup
pub mod Models
pub mod Health
pub mod State
pub mod Api
