-- ===== src/Lib.antt =====
-- A model of nyuka, a self-hosted manga library, and the properties of its core.
--
-- The server queues jobs in PostgreSQL (crates/jobs), runs third-party sources in a WebAssembly
-- sandbox (crates/aidoku-runtime), and answers over HTTP (crates/api). Workers claim jobs and hand
-- them to handlers; the scheduler queues periodic ones; a source reaches the network through the
-- egress policy alone. A handler takes a permit of the source's limiter for each request to it, and a
-- downloaded chapter is packaged into an archive of the library (crates/packaging).
--
-- Common: numbers, text, lists, tests. Texts are lists of code points.
-- Domain: crates/domain/src/error.rs and model.rs. `Domain.Errors` has the failures and the result
--   type, `Domain.Enums` the enumerations with their stored numbers, `Domain.RateLimit` the rate limit of
--   a source, and `Domain.Payload` JSON values.
-- Jobs: crates/jobs/src.
--   `Jobs.Names` and `Jobs.Queue` with its children are queue.rs. `Jobs.Exec` has the state: the
--   table of jobs, the clock, and the outside world as functions (uuids, statements that fail).
--   Each statement of SQL is a function on the whole table; a method is a sequence of statements.
--   `Jobs.Scheduler` is scheduler.rs, `Jobs.Metrics` metrics.rs, and `Jobs.Worker` worker.rs, where
--   one round of a worker's loop is `turn` and the end of a shutdown is `release_held`.
--   `Jobs.Limiter` is limiter.rs: its operations, the tasks that use it as a step relation in `Steps`,
--   and what holds of every run. `Jobs.Handlers` is the directory handlers: the ports that handlers
--   call (crates/domain/src/ports.rs) are functions of the history of all calls, so that the answers
--   may change from call to call, and each handler returns its result with the history it leaves.
--   `Download` is download.rs, `Following` follow.rs and `Reconcile` maintenance.rs.
-- Net: `Net.Egress` is imports/egress.rs of crates/aidoku-runtime/src and the resolver of
--   imports/net.rs; `Net.Cidr` is the network type of crates/api/src/config.rs, and `Net.ClientIp`
--   is crates/api/src/client_ip.rs. `Net.Bits` has the bitwise and that they mask with.
-- Runtime: `Runtime.Package` and `Runtime.Provided` are package.rs and the list in
--   imports/bindings.rs of crates/aidoku-runtime/src; `Runtime.Table` is resource.rs.
-- Api: `Api.Problem` is crates/api/src/error.rs, `Api.Access` is csrf.rs beside it and the permitted
--   subjects of config.rs, and `Api.Directories` is that file's check of the two directories.
--   `Api.Config` is the rest of that file: the settings, their defaults and `validate`.
-- Persistence: `Persistence.Pages` is the two listings of crates/persistence/src/repository.rs that
--   reconciliation pages through.
-- Packaging: crates/packaging/src. `Packaging.Paths` is paths.rs, `Packaging.ComicInfo` comicinfo.rs,
--   `Packaging.Cbz` the entries that cbz.rs writes, and `Packaging.Store` store.rs on a disk that has
--   the files of the library and of staging, where each call may fail.
-- Tests: the theorems at concrete inputs.
--
-- Times are microseconds since the epoch and ids are numbers. Priorities and attempts are natural
-- numbers without the bound of their column. Fuel stands in four places: printing a number n in
-- decimal takes n + 1 rounds at most, since each divides it by ten; the pages of a chapter are fetched
-- in as many rounds as there are pages; the loops over pages of rows take more rounds than one
-- more than there are rows, of which each page leaves fewer; and a session key of 128 characters is drawn in as many
-- rounds, each of which adds some.
--
-- Parameters stand for the parser of addresses, the resolver, the reader of archives and
-- of a module's imports, the HTML parser's types, the database's failures, the handlers that a
-- worker is given, the ports that a handler is given, the parser of urls, the durations of chrono,
-- Unicode's normal form, the operations on `f32` and PostgreSQL's order of `REAL`, the text of uuids, the zip writer, the digest, and the check of paths
-- against links (`resolve_within`). Which request of a chapter is answered next is the ports' choice;
-- a request stands in the history where it is answered. Not modelled: the engine and the HTML host
-- functions, the routes, sessions and event streams, the other repositories, the joined listings of jobs,
-- the web frontend and the build tooling.
pub mod Common
pub mod Domain
pub mod Persistence
pub mod Jobs
pub mod Net
pub mod Runtime
pub mod Api
pub mod Tests
pub mod Packaging
