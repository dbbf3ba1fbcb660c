-- ===== src/Supervisor.antt =====
-- chronos-core/src/supervisor.rs: the supervisor and its dispatch loop.
-- `World` is the supervisor with what it acts on: the executor's own state, and for each cell the
-- bytes that its mapping holds, by offset.
pub mod Cells
pub mod Flush
pub mod Settle
pub mod Worlds
pub mod Cycle
pub mod Dispatch
pub mod Backed
pub mod Paged
pub mod Mirror
pub mod History
pub mod Recency
pub mod Tenants
pub mod Isolation
pub mod Audit
pub mod Failover
pub mod Spawn
pub mod Writer
pub mod Fixture
mod Examples
use chronos_uvm.Prelude.{
  ℕ, ◌+◌, Bool, true, false, Option, none, some, List, [], ◌∷◌, ◌==◌, if◌then◌else◌, Profile, ◌>>=◌,
  ℕ_discrete,
}
use chronos_uvm.Prelude.Result.{Result, ok, err}
use chronos_uvm.Prelude.Maps.{HashMap, get, insert, contains_key}
use chronos_uvm.Blake3.{Blake3}
use chronos_uvm.HostMemory.{HostMemory}
use chronos_uvm.ArrayQueue.{ArrayQueue}
use chronos_uvm.Dirty.{iter_dirty, clear_all}
use chronos_uvm.Delta.{PageDelta, raw}
use chronos_uvm.Memory.{MemFault, MmapGuardedMemory, page_bytes}
use chronos_uvm.EventLog.{RecorderMode}
use chronos_uvm.Checkpoint.{checkpoint}
use chronos_uvm.Io.{drain_for_dispatch}
use chronos_uvm.Cell
use chronos_uvm.Cell.{Cell, CellConfig}
use chronos_uvm.Scheduler
use chronos_uvm.Scheduler.{Scheduler, DispatchOutcome, register_cell, next_dispatch}
use chronos_uvm.Replicate
use chronos_uvm.Replicate.{TickBatch, RingError, DeltaRing, push}

pub data SupervisorError : Type 0 where
  duplicate_cell : ℕ → SupervisorError
  memory_init : ℕ → MemFault → SupervisorError
  replication_backpressure : ℕ → RingError → SupervisorError

pub data QuantumFault : Type 0 where
  trap : List ℕ → QuantumFault
  memory : MemFault → QuantumFault

-- `dirty_snapshot_pages.iter().map(..).collect()`
pub page_deltas : Profile → (ℕ → ℕ) → MmapGuardedMemory → List ℕ → Option (List PageDelta)
page_deltas p held m [] = some []
page_deltas p held m (page_idx ∷ pages) = do
  bytes ← page_bytes p held page_idx m
  deltas ← page_deltas p held m pages
  some (raw page_idx bytes ∷ deltas)

-- `.map_err(|e| SupervisorError::ReplicationBackpressure(outcome.cell_id, e))`
pub backpressure : ℕ → Result RingError (Unit {0}) → Result SupervisorError (Unit {0})
backpressure cell_id (ok u) = ok tt
backpressure cell_id (err e) = err (replication_backpressure cell_id e)

-- What a quantum leaves: its result, the cell, the bytes of its mapping, and the executor.
pub record Quantum (B : Blake3) (Exec : Type 0) : Type 0 where
  pub result : Result QuantumFault ℕ
  pub cell : Cell B
  pub held : ℕ → ℕ
  pub exec : Exec

-- The trait: whatever executes guest code.
pub record QuantumExecutor (B : Blake3) : Type 1 where
  pub Exec : Type 0
  pub run_quantum : Cell B → (ℕ → ℕ) → ℕ → Exec → Quantum B Exec
  pub register_digest : Exec → Cell B → B.Hash

module _ (B : Blake3) (Q : ArrayQueue TickBatch) where
  pub record Supervisor : Type 0 where
    pub cells : HashMap ℕ (Cell B)
    pub scheduler : Scheduler
    pub replication : Option (DeltaRing Q)
    pub max_instructions_per_quantum : ℕ

  pub new : ℕ → Supervisor
  new max_instructions_per_quantum = record {
    cells = [];
    scheduler = Scheduler.new [];
    replication = none;
    max_instructions_per_quantum = max_instructions_per_quantum;
  }

  -- The ring is put at an address.
  pub enable_replication : ℕ → ℕ → Supervisor → Option Supervisor
  enable_replication address ring_capacity s = do
    ring ← Replicate.new Q address ring_capacity
    some (record s { replication = some ring })

  pub cell : ℕ → Supervisor → Option (Cell B)
  cell id s = get ℕ_discrete id s.cells

  module _ (E : QuantumExecutor B) where
    open E use {Exec, run_quantum, register_digest}

    pub record World : Type 0 where
      pub supervisor : Supervisor
      pub held : ℕ → ℕ → ℕ
      pub exec : Exec

    -- A new anonymous mapping holds zeros.
    pub spawned : ℕ → Result MemFault (Cell B) → World → Result SupervisorError (Unit {0}) × World
    spawned id (err e) w = (err (memory_init id e), w)
    spawned id (ok c) w = (
      ok tt,
      record w {
        supervisor = record w.supervisor {
          cells = insert ℕ_discrete id c w.supervisor.cells;
          scheduler = register_cell id w.supervisor.scheduler;
        };
        held = λ j. if j == id then (λ offset. 0) else w.held j;
      },
    )

    pub spawn_cell :
        Profile
        → (M : HostMemory) → CellConfig
        → RecorderMode
        → World
        → M.Host
        → Option (Result SupervisorError (Unit {0}) × World × M.Host)
    unfolding spawned
    spawn_cell p M config mode w h =
        if contains_key ℕ_discrete config.id w.supervisor.cells
        then some (err (duplicate_cell config.id), w, h)
        else (do
          (c, h) ← Cell.new B p M config mode h
          let (answer, w) = spawned config.id c w
          some (answer, w, h))

  pub flush :
      Profile
      → DispatchOutcome
      → (ℕ → ℕ)
      → MmapGuardedMemory
      → List ℕ
      → Option (DeltaRing Q)
      → Option (Result SupervisorError (Unit {0}) × Option (DeltaRing Q))
  unfolding page_deltas backpressure
  flush p outcome held m pages none = some (ok tt, none)
  flush p outcome held m pages (some ring) = do
    deltas ← page_deltas p held m pages
    (answer, ring) ← push Q (record { tick = outcome.tick; deltas = deltas }) ring
    some (backpressure outcome.cell_id answer, some ring)

  pub clear_cell_dirty_pages : Cell B → Cell B
  clear_cell_dirty_pages c = record c {
    memory = record c.memory { dirty = clear_all c.memory.dirty };
  }

  pub take_checkpoint : Profile → ℕ → B.Hash → (ℕ → ℕ) → Cell B → Option (Cell B)
  take_checkpoint p tick register_digest held c = do
    (entry, checkpoints) ←
        checkpoint B tick (λ i. page_bytes p held i c.memory) c.memory.dirty register_digest
          c.checkpoints
    some (record c { checkpoints = checkpoints; last_checkpoint_tick = tick })

  -- An error of the push returns before the dirty pages are cleared.
  pub settled :
      Cell B
      → Result SupervisorError (Unit {0}) × Option (DeltaRing Q)
      → Result SupervisorError (Unit {0}) × Cell B × Option (DeltaRing Q)
  unfolding clear_cell_dirty_pages
  settled c (ok u, ring) = (ok tt, clear_cell_dirty_pages c, ring)
  settled c (err e, ring) = (err e, c, ring)

  -- The block of `if outcome.checkpoint_due`.
  pub checkpoint_and_flush :
      Profile
      → DispatchOutcome
      → B.Hash
      → (ℕ → ℕ)
      → Cell B
      → Option (DeltaRing Q)
      → Option (Result SupervisorError (Unit {0}) × Cell B × Option (DeltaRing Q))
  unfolding take_checkpoint flush settled
  checkpoint_and_flush p outcome register_digest held c replication = do
    let dirty_snapshot_pages = iter_dirty c.memory.dirty
    c ← take_checkpoint p outcome.tick register_digest held c
    x ← flush p outcome held c.memory dirty_snapshot_pages replication
    some (settled c x)

  module _ (E : QuantumExecutor B) where
    open E use {Exec, run_quantum, register_digest}

    -- The world after the cell and the ring were changed in place.
    pub stored : ℕ → Quantum B Exec → Cell B → Option (DeltaRing Q) → World E → World E
    stored id q c ring w = record {
      supervisor = record w.supervisor {
        cells = insert ℕ_discrete id c w.supervisor.cells;
        replication = ring;
      };
      held = λ j. if j == id then q.held else w.held j;
      exec = q.exec;
    }

    -- `Ok(Some((outcome.cell_id, outcome.tick)))` after the block, unless it returned early.
    pub completed :
        DispatchOutcome
        → Result SupervisorError (Unit {0})
        → Result SupervisorError (Option (ℕ × ℕ))
    completed outcome (ok u) = ok (some (outcome.cell_id, outcome.tick))
    completed outcome (err e) = err e

    -- The rest of the cycle after the quantum `q`, whose result is matched first.
    pub end_cycle :
        Profile
        → DispatchOutcome
        → Quantum B Exec
        → Result QuantumFault ℕ
        → World E
        → Option (Result SupervisorError (Option (ℕ × ℕ)) × World E)
    unfolding stored completed checkpoint_and_flush
    end_cycle p outcome q (err fault) w = some (
      ok (some (outcome.cell_id, outcome.tick)),
      stored outcome.cell_id q q.cell w.supervisor.replication w,
    )
    end_cycle p outcome q (ok instructions) w =
        if outcome.checkpoint_due
        then (do
          (answer, c, ring) ←
              checkpoint_and_flush p outcome (register_digest q.exec q.cell) q.held q.cell
                w.supervisor.replication
          some (completed outcome answer, stored outcome.cell_id q c ring w))
        else some (
          ok (some (outcome.cell_id, outcome.tick)),
          stored outcome.cell_id q q.cell w.supervisor.replication w,
        )

    -- The quantum of a dispatched cell, once its completions are drained.
    pub quantum_of : ℕ → Cell B → World E → Quantum B Exec
    quantum_of id c w =
        run_quantum (record c { pending_io = (drain_for_dispatch c.pending_io).1 }) (w.held id)
          w.supervisor.max_instructions_per_quantum w.exec

    -- `.expect("scheduler only returns ids for registered cells")` panics without the cell.
    pub run_cell :
        Profile
        → Option DispatchOutcome
        → World E
        → Option (Result SupervisorError (Option (ℕ × ℕ)) × World E)
    unfolding quantum_of end_cycle
    run_cell p none w = some (ok none, w)
    run_cell p (some outcome) w = do
      c ← get ℕ_discrete outcome.cell_id w.supervisor.cells
      let q = quantum_of outcome.cell_id c w
      end_cycle p outcome q q.result w

    pub run_one_cycle :
        Profile → World E → Option (Result SupervisorError (Option (ℕ × ℕ)) × World E)
    unfolding run_cell
    run_one_cycle p w = do
      (outcome, scheduler) ← next_dispatch B p w.supervisor.cells w.supervisor.scheduler
      run_cell p outcome (record w { supervisor = record w.supervisor { scheduler = scheduler } })
