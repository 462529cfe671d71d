-- ===== src/Lib.antt =====
-- pg-vm-pool: a Postgres pooler that gives every schema a virtual machine of its own.
--
-- The program keeps a registry of schemas (src/store.rs), the credentials of dedicated databases
-- (src/dedicated.rs), a local server that receives the dumps of frozen schemas (src/dumpsrv.rs), a pool
-- of warm spare machines (src/spares.rs), and moves idle schemas down a ladder of tiers
-- (src/registry.rs). The registry survives a restart through one tab-separated file, rewritten whole by
-- a write that is handed to a pool of blocking threads; the credentials have a file of the same kind; a
-- freeze moves a schema's data into a dump and then marks its row frozen in the registry; the offload
-- decisions read the rows of the registry.
--
-- Store models src/store.rs. Store.Format is `Tier`, `StoreRecord`, `parse` and `serialize`;
-- Store.Atomic is `write_atomic`, with a disk of two files and a fault that says where a write stops;
-- Store has one function per method: `load`, `put`, `touch`, `set_tier`, `adopt_archived`, `bound_ids`,
-- `flush_dirty` and `write_latest`. Store.Steps is the concurrent program: every task's critical
-- section is a step, a flush is two (the flag, then the snapshot), and a stamped snapshot waits in a
-- queue from which writes leave in any order, with any fault. Store.Locks is the order in which `put`
-- and `bound_ids` take the two mutexes. Store.Rows and Store.Cases are lemmas.
--
-- Dedicated models src/dedicated.rs. Dedicated.Format is the file's format, Dedicated.Atomic the
-- private write, Dedicated the validation, `create`, `remove` (here `remove_database`), `by_role`,
-- `challenge_password` and `authorize`. Dedicated.Validity holds the invariant of the credential set,
-- Dedicated.Names, Dedicated.Routing and Dedicated.Revoking what follows from it.
--
-- DumpServer models src/dumpsrv.rs: `issue`, `authorize` and the handlers of PUT, commit, abort and GET.
-- A body is a list of chunks, some of which fail.
--
-- Offload models decisions of src/registry.rs: Offload.Sweep is `classify_candidate`, Offload.Pick
-- `pick_offload_job`, Offload.Backoff `OffloadBackoff`, Offload.Breaker `BringupBreaker`, Offload.Claims
-- `ArchivingGuard` and Offload.Sizing `grow_target_gb`, whose comparison of floating-point numbers is an
-- argument, Offload.Targets three small decisions, Offload.Sweeping `sweep_archive`, with the outcome of each
-- archiving as an argument, Offload.Policies `offload_policy`, `pressure_policy`, `next_offload_job` and
-- `run_offload_job`, and Offload.Draining `offload_drain_loop`, whose jobs finish in any order.
--
-- Tiering models how src/registry.rs moves the data of one schema. Tiering itself has the places where
-- the data can be (the row in memory and in the file, the disks of VMs, the two objects of S3, the two local
-- files; a copy is the version that it holds) and the changes of them; an operation is the list of
-- its changes, in the order of its calls, so that a crash is a shorter list. Tiering.Images is
-- src/imgarchive.rs (`choose_restore`, `probe_archive`, `pick_restore`, `archive_disk`,
-- `archive_via_spool`, `compact_disk`, `compact_via_tmp`, `promote_compact`), Tiering.Archive
-- `archive_schema_inner` with the promotions, the image fallback and `archive_schema_as_image_inner`,
-- Tiering.Local `freeze_schema_inner` and `compact_schema_inner`, Tiering.Checkout the cold path of
-- `checkout` and Tiering.Serving its loop, with the breaker of Offload.Breaker, over the turns that it
-- takes. What src/vm.rs, S3, the daemon and the external tools do is a record of answers (`Answers`,
-- `LocalAnswers`, `Brought`, `ImageIo`, `Spool`, `DiskChecks`); the records `Supports`, `SupportsLocal`,
-- `IsTruthful` and `Restores` say what is relied on. Tiering.Steps lets offloads and restores that stop
-- anywhere, commits and crashes follow each other, under the schema's claim (Offload.Claims). A request to
-- S3 that fails is one of the answers; what it does to a restore is `IsMisled` of Tiering.Kept.Picking.
-- Tiering.Kept and its children are the lemmas.
-- Tiering.Overtaking has one checkout and one archiving of a schema side by side, step by step, without
-- the image fallback.
--
-- Janitors models the passes of src/registry.rs over the VMs and the disks of the host: Janitors
-- `reap_untracked`, Janitors.Purge `purge_pass` and `pending_pass`, Janitors.Orphans `sweep_orphans`.
-- The daemon's answers are read from the inputs, twice where the source asks twice. Entries models
-- `SchemaEntry`, `ConnGuard` and the part of `reap_idle` under the lock of the map.
--
-- Pending models src/pending.rs, the ledger of bring-ups under way: `init`, `record`, `clear`, `get`,
-- `stale` and `persist`, whose snapshot and write are two steps of Pending.Steps.
--
-- Spares models src/spares.rs: Spares has `take`, `unclaim`, `release_failed` (before and after its
-- kill) and `publish`, Spares.Plan is `plan_replenish`,
-- Spares.Culling `cull_sick`, Spares.Steps lets the tasks interleave. What the
-- daemon says of a spare is an argument.
--
-- Startup models src/startup.rs, over the bytes that a client sends; its loops run on a fuel, for which one
-- more than the number of bytes is enough. Events models the two rings of src/events.rs.
--
-- Conventions. Strings are lists of code points. A HashMap is an association list with at most one
-- entry per key; where the source iterates over one, the model iterates in the order of the list. The
-- clock and random tokens are arguments. `parse::<u64>` and `to_string` of a u64 are written out in
-- Text, with the bound 2^64 - 1; the printer's fuel is one more than the number, which is no less than
-- the number of its digits. The generation counter, a u64 that a run does not exhaust, is a natural
-- number. The operations run to the end under their mutex, so that one is one step. Base has the
-- shared lists, strings and maps, and Tests the runs at fixed inputs.
--
-- Not modelled: sockets, HTTP framing, TLS, the virtual machines and their daemon, the dashboard, the requests
-- to S3, the load test, and logging.
mod Base
mod Text
pub mod Store
pub mod Dedicated
pub mod DumpServer
pub mod Events
pub mod Offload
pub mod Pending
pub mod Spares
pub mod Startup
pub mod Tiering
pub mod Janitors
pub mod Entries
mod Tests
