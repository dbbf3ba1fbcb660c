-- ===== src/Lib.antt =====
-- Chronos-uVM: a supervisor of sandboxed cells with replayable runs, hash-chained checkpoints and
-- replication of memory by page deltas.
--
-- The parts, and the files that model them:
--   * Dirty.antt: chronos-mem/src/dirty.rs, the bitmap of the pages written since the last flush.
--     It says which pages a checkpoint rehashes and which pages replication ships.
--   * Delta.antt: chronos-mem/src/delta.rs, the page deltas between a primary and a standby, with
--     Page.antt for PAGE_SIZE.
--   * Smt.antt: chronos-mem/src/smt.rs, SparseMerkleTree, the tree of page hashes.
--   * Checkpoint.antt: chronos-mem/src/smt.rs, CheckpointChain and verify_chain, over the tree, a
--     dirty set and the pages of a memory.
--   * Memory.antt: chronos-mem/src/guarded_memory.rs, the memory of a tenant: new, drop, translate,
--     grow, mark_dirty, page_bytes.
--   * EventLog.antt: chronos-core/src/event_log.rs, EventRecorder, which records the host's answers
--     and replays them; EventLog/Source.antt is the trait NonDeterminismSource, which it implements.
--   * Clock.antt, Cell.antt, Scheduler.antt: chronos-core/src/clock.rs, cell.rs and scheduler.rs.
--   * Io.antt: chronos-io/src/lib.rs, FdTable, PendingCompletions and StubIoSubsystem; Io/Subsystem.antt
--     is the trait IoSubsystem, which the two backends implement.
--   * LinuxRing.antt: chronos-io/src/linux_ring.rs, the io_uring backend.
--   * Replicate.antt: chronos-replicate/src/lib.rs, DeltaRing, its producer handle, and
--     StandbyApplyLoop.
--   * Supervisor.antt: chronos-core/src/supervisor.rs, spawn_cell and run_one_cycle, which put the
--     other parts together: the scheduler picks a cell, the executor runs it, its dirty pages are
--     hashed into its checkpoint, pushed to the ring and cleared. Its children follow whole histories:
--     with a standby (Mirror, History, Failover), with spawns and a host (Tenants, Isolation, Audit).
-- The children of each module hold its lemmas and theorems and, in Examples, runs at concrete
-- inputs. UnitTests is the repository's own tests of that part on the model; those of
-- chronos-mem/src/smt.rs are over any hash. A test of delta.rs that asserts nothing is left out.
-- Prelude.antt has what they share.
--
-- How the code corresponds: a struct is a record, an enum a data type with the source's variants, a
-- method a function of the old state to the new one. A number is a natural number; an overflow of a
-- word is written out. A call that may panic returns an Option, `none` for the panic, and takes the
-- Profile of the build where debug_assert! or an overflow check tells the two builds apart. An error
-- that a caller handles is a Result (Prelude/Result.antt). A HashMap is a list of entries. The bytes
-- of a mapping are a function of the offset, which a World has for each cell. The two threads at the
-- ring are sequences of their atomic operations (Replicate/Exchange.antt); a supervisor and its
-- standby take turns of whole cycles and whole shipments (Supervisor/Mirror.antt), where a shipment
-- is what the comments of chronos-replicate/src/lib.rs give to the streaming task: a drain, and each
-- batch to the standby in turn.
--
-- Fuel and bounds: the outer loop of rle_encode runs on fuel of one page and one round, since each
-- round but the last takes a byte; DeltaRing::drain runs on fuel of the ring's capacity and one
-- round, since with no push beside it each round but the last takes a batch; the other loops are
-- structural. The tree has depth 32. A Vec is bounded by isize::MAX bytes, which bounds the pages of
-- a DeltaEngine.
--
-- Parameters: the crate blake3 (Blake3.antt; nothing is assumed of collisions, theorems of binding
-- return one), ArrayQueue of crossbeam (ArrayQueue.antt), the crate io-uring (IoUring.antt), the
-- kernel's mmap, mprotect and munmap (HostMemory.antt), the clock and the generator of the host, and
-- the executor of guest code (QuantumExecutor). Of it theorems assume IsDisciplined
-- (Supervisor/Cells.antt): it marks every page that it writes and only pages with a committed byte,
-- as for a write that translate approved, clears no mark, keeps the memory well formed, grows it by
-- whole pages only, as grow does, and leaves alone the mapping, the config, the checkpoints and their
-- tick, to all of which it has access. It may write to a partial last page; the theorems that say
-- that a cycle does not panic ask for memories of whole pages
-- (IsPaged), since page_bytes asserts in a debug build that the page is committed whole.
--
-- Page indices are natural numbers: the product of an index and the page size in page_bytes, which
-- wraps for an index of 2^52 or more, is not wrapped. Every page of a memory is far below.
--
-- Not modelled: raw reads and writes through translated pointers, and the text that the supervisor
-- prints on a fault.
pub mod Prelude
pub mod Dirty
pub mod Page
pub mod Delta
pub mod Blake3
pub mod ArrayQueue
pub mod IoUring
pub mod HostMemory
pub mod Smt
pub mod Checkpoint
pub mod EventLog
pub mod Clock
pub mod Memory
pub mod Io
pub mod LinuxRing
pub mod Cell
pub mod Scheduler
pub mod Replicate
pub mod Supervisor
