-- ===== src/Supervisor/Dispatch.antt =====
-- `run_one_cycle` as a whole.
use chronos_uvm.Prelude.{ℕ, ◌+◌, ◌<◌, ◌≡◌, ◌∙◌, Option, none, some, List, [], ◌∷◌, Profile, u64}
use mathlib.Core.Path.{subst}
use chronos_uvm.Prelude.Result.{Result, ok}
use chronos_uvm.Blake3.{Blake3}
use chronos_uvm.ArrayQueue.{ArrayQueue}
use chronos_uvm.Memory.Pages.{IsPaged}
use chronos_uvm.Cell.{Cell}
use chronos_uvm.Io.{drain_for_dispatch}
use chronos_uvm.Scheduler.{DispatchOutcome}
use chronos_uvm.Scheduler.Step.{outcome, rotated, next_dispatch_front, next_dispatch-none}
use chronos_uvm.Replicate.{TickBatch}
use chronos_uvm.Supervisor.{
  SupervisorError, Quantum, QuantumExecutor, World, end_cycle, quantum_of, run_cell, run_one_cycle,
}
use chronos_uvm.Supervisor.Cells.{IsValid, IsDisciplined, Ran-IsValid}
use chronos_uvm.Supervisor.Worlds.{IsKnown, IsKnown-snoc, find, IsConsistent}
use chronos_uvm.Supervisor.Cycle.{Ended, end_cycle_lem}

module _ (B : Blake3) (Q : ArrayQueue TickBatch) (E : QuantumExecutor B) (p : Profile) where
  -- The world once the scheduler has dispatched a cell.
  abbrev pub dispatched : World B Q E → ℕ → List ℕ → World B Q E
  dispatched w id rest = record w {
    supervisor = record w.supervisor {
      scheduler = rotated B p w.supervisor.cells w.supervisor.scheduler id rest;
    };
  }

  abbrev pub outcome_of : World B Q E → ℕ → DispatchOutcome
  outcome_of w id = outcome B p w.supervisor.cells w.supervisor.scheduler id

  drained-IsValid :
      (c : Cell B) (held : ℕ → ℕ)
      → IsValid B c held
      → IsValid B (record c { pending_io = (drain_for_dispatch c.pending_io).1 }) held
  drained-IsValid c held v = record {
    readable = v.readable;
    tree_valid = v.tree_valid;
    chained = v.chained;
    ticks = v.ticks;
    committed = v.committed;
  }

  -- With no cell registered the cycle does nothing.
  pub run_one_cycle_empty :
      (w : World B Q E)
      → w.supervisor.scheduler.order ≡ []
      → run_one_cycle B Q E p w ≡ some (ok none, w)
  unfolding run_one_cycle run_cell
  run_one_cycle_empty w e = rw (next_dispatch-none B p w.supervisor.cells w.supervisor.scheduler e)

  run_cell_found :
      (w : World B Q E) (o : DispatchOutcome) (c : Cell B)
      (x : Result SupervisorError (Option (ℕ × ℕ)) × World B Q E)
      → find B Q E w o.cell_id ≡ some c
      → end_cycle B Q E p o
          (quantum_of B Q E o.cell_id c w)
          (quantum_of B Q E o.cell_id c w).result
          w
        ≡ some x
      → run_cell B Q E p (some o) w ≡ some x
  unfolding run_cell
  run_cell_found w o c x found done = rw (found, done)

  -- One cycle of a consistent world whose clock is not at its last tick, with an executor that
  -- marks every page that it writes and only pages with a committed byte, clears no mark, keeps
  -- the memory well formed, grows it by whole pages only, and leaves the mapping, the config, the
  -- checkpoints and their tick alone (`IsDisciplined`), where the memory of the first cell in the
  -- order is of whole pages: that cell is dispatched at the next tick and goes to the back of the
  -- order. Nothing panics, in either build; on a fault, or where no checkpoint is due, the cell is
  -- as the quantum left it; where one is due, it is of the whole memory as it is, and the dirty
  -- pages are pushed to the ring and then clean, or the ring is full, the cycle reports it, and
  -- they stay dirty. No other cell changes, and the world is consistent again.
  pub run_one_cycle_lem :
      (w : World B Q E) (id : ℕ) (rest : List ℕ)
      → IsDisciplined B E
      → IsConsistent B Q E w
      → ((c : Cell B) → find B Q E w id ≡ some c → IsPaged c.memory.size_bytes)
      → w.supervisor.scheduler.order ≡ id ∷ rest
      → w.supervisor.scheduler.clock.tick + 1 < u64
      → (c : Cell B) × (find B Q E w id ≡ some c)
        × (x : Result SupervisorError (Option (ℕ × ℕ)) × World B Q E) × (run_one_cycle B Q E p w
            ≡ some x)
        × Ended B Q E
            (outcome_of w id)
            (quantum_of B Q E id c (dispatched w id rest))
            (dispatched w id rest)
            x.0
            x.1
  unfolding run_one_cycle
  run_one_cycle_lem w id rest disciplined k paged e h =
      let w₁ : World B Q E = dispatched w id rest in
      let (first, others) = subst (IsKnown (find B Q E w)) e k.known in
      let (c, found) = first in
      let k₁ : IsConsistent B Q E w₁ = record {
        known = IsKnown-snoc (find B Q E w) rest id others first;
        cells_valid = k.cells_valid;
      } in
      let drained : Cell B = record c { pending_io = (drain_for_dispatch c.pending_io).1 } in
      let v = drained-IsValid c (w.held id) (k.cells_valid id c found) in
      let ran =
        disciplined drained (w.held id) w.supervisor.max_instructions_per_quantum w.exec
          v.readable in
      let q : Quantum B E.Exec = quantum_of B Q E id c w₁ in
      let (x, done, ended) =
        end_cycle_lem B Q E p (outcome_of w id) q w₁ k₁ h (ran.grown ∙ paged c found)
          (Ran-IsValid B drained (w.held id) q ran v) in
      (
        c,
        found,
        x,
        rw (next_dispatch_front B p w.supervisor.cells w.supervisor.scheduler id rest e h)
            (run_cell_found w₁ (outcome_of w id) c x found done),
        ended,
      )
