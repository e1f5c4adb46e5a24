-- ===== src/Lib.antt =====
-- saros is a server that stores firmware by content: manifests are published, or staged and
-- approved by a reviewer, and their blobs are uploaded, served and reclaimed; people sign in by
-- device code and carry bearer sessions. This library models its core.
--
-- Parts, and the files that model them (paths from the repository's root):
--   Store/Names       src/store/mod.rs: the parsers of digests, device ids, versions, file names
--   Store/State       src/store/mod.rs, src/store/index.rs: the store's state, on disk and in memory
--   Store/Disk        the reads of the tree on disk
--   Store/Index       src/store/index.rs: scan, reload and the index of blob paths
--   Store/Validate    src/store/catalog.rs: Store::validate
--   Store/VersionDir  src/store/catalog.rs: Store::write_version_dir
--   Store/Catalog     src/store/catalog.rs: publish, stage, approve and reject
--   Store/Reads       src/store/catalog.rs: list, devices, stats and the staged entries
--   Store/Blobs, Store/Download, Store/Sweep
--                     src/store/blobs.rs: uploads and reads, downloads, and the two sweeps
--   Store/Registry    the abstract registry that the catalogue implements
--   Mirror            src/mirror.rs: the egress mirror, over an object store
--   Login             src/login.rs: sign-in by device code; Login/Overlap has the calls of begin
--                     that overlap
--   Db/Table          the tables of src/db, which the repositories are clients of
--   Db/Sessions       src/db/sessions.rs: bearer sessions
--   Db/Ordered        the ordered statements, and the trim that ends an append
--   Db/Inbox          src/db/notifications.rs: notifications and follows
--   Db/Audit          src/db/audit.rs: the audit trail and its pages
--   Db/Submissions    src/db/submissions.rs: the submitters' ledger
--   Db/Stats          src/db/stats.rs: download counters, lifetime totals, the hourly series
--   Db/Users          src/db/users.rs: accounts, with the codec of src/db/mod.rs
--   Account           src/passkey.rs: the account record
--   Passkey           src/passkey.rs: sign-in with passkeys
--   Auth, Auth/Cookie src/auth.rs and the guards of src/services/mod.rs
--   Metrics, Events   src/metrics.rs, src/events.rs: the counters, and what an action leaves behind
--   Services          the RPC handlers over all of these: of src/services/auth.rs over the World
--                     (Signing, Accounts), of src/services/firmware.rs and src/services/blob.rs over
--                     the Depot (Firmware, BlobCalls); Wire has the conversions of
--                     src/services/mod.rs
--   RateLimit         src/ratelimit.rs: two tiers of budgets
--   Base              texts, maps, lists and results that the parts share
--   Tests             runs on concrete inputs
--
-- How they interact: a publication or a submission is validated against the index, copied out of
-- the pool into a version dir, entered in the index, and its uploads are swept. A download asks
-- the index, then the mirror, and falls back to the bytes on disk. An approval of a sign-in
-- request mints a session through the closure that it is given; the session's row is what a later
-- request is resolved by.
--
-- Conventions. A method on shared state is a function from the state to its answer and the state
-- it leaves, and a history is a list of calls, each of which ends before the next begins. The
-- source does not make all its methods atomic: Store::publish and Store::stage release the lock of
-- the index between their checks and their change of it, and Logins::begin its lock between test
-- and insert. Login/Overlap models the calls of the latter that overlap; of the former no overlap
-- is modelled, and no Store::reload between the calls of a history. Every call of the file system
-- that can fail is a Site, and a Faults says which do, so that a theorem for all Faults covers
-- every error path. A map is an association list; where the order of a map's entries matters,
-- in_key_order puts them in that of their keys. Text is a list of Unicode scalar values. Times are
-- numbers. Counters keep their wrap-around, and additions that saturate do. Loops are structural
-- recursion, so no definition has fuel.
--
-- Parameters stand for code that is not in the repository: the coding of manifests, SHA-256, the
-- device catalogue (Env), the object store, the database's statements (Table, Ordered and Keyed,
-- with IsRelational, IsOrdered, IsKeyed, IsTransactional and IsConstrained for what they are
-- documented to do), JSON, webauthn-rs, the rate limiter, hexadecimal print and the random
-- generators. An ordered statement is known by what it answers of each test: how many rows that
-- pass it, and that no row it leaves out should stand before one that it has.
--
-- A handler of the server is a function of the World or of the Stock around it, whose components
-- it calls in the order of the source; what the random generators and the clocks answer is an
-- argument.
--
-- Not modelled: the watch streams of the handlers; telemetry, the command line and the tasks that
-- main.rs spawns, which are input and output or glue; calls of src/passkey.rs and of
-- src/store/catalog.rs that run at the same time; and a reload of the index in the midst of a
-- history of the catalogue.
mod Base
pub mod Store
pub mod Mirror
pub mod Login
pub mod Account
pub mod Db
pub mod Auth
pub mod Passkey
pub mod Metrics
pub mod Events
pub mod Services
pub mod RateLimit
mod Tests
