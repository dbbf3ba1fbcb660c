-- ===== src/Supervisor/Recency.antt =====
-- The clock against a cell's `last_checkpoint_tick` at the end of a cycle.
use mathlib.Core.Path.{subst}
use mathlib.Core.Option.{some-injective}
use chronos_uvm.Prelude.{
  ℕ, ◌+◌, ◌<◌, ◌≡◌, sym, ap, ◌∙◌, true, false, Bool-cases, inl, inr, ◌⊎◌, Option, some, List, ◌∷◌,
  Profile, u64, arith,
}
use chronos_uvm.Prelude.Result.{Result, ok}
use chronos_uvm.Blake3.{Blake3}
use chronos_uvm.ArrayQueue.{ArrayQueue}
use chronos_uvm.Memory.Pages.{IsPaged}
use chronos_uvm.Cell.{Cell, checkpoint_due}
use chronos_uvm.Io.{drain_for_dispatch}
use chronos_uvm.Scheduler.{due_of}
use chronos_uvm.Replicate.{TickBatch}
use chronos_uvm.Supervisor.{SupervisorError, QuantumExecutor, World, quantum_of, run_one_cycle}
use chronos_uvm.Supervisor.Cells.{IsDisciplined, Ran}
use chronos_uvm.Supervisor.Worlds.{find, IsConsistent}
use chronos_uvm.Supervisor.Cycle.{Ended}
use chronos_uvm.Supervisor.Dispatch.{dispatched, outcome_of, run_one_cycle_lem}

-- Where no checkpoint is due, the clock is less than the interval past the last checkpoint tick.
not_due_recent :
    (B : Blake3) (tick : ℕ) (c : Cell B) (o : Option (Cell B))
    → o ≡ some c
    → due_of B tick o ≡ false
    → tick < c.last_checkpoint_tick + c.config.checkpoint_interval_ticks
unfolding due_of checkpoint_due
not_due_recent B tick c o found quiet =
    let young : checkpoint_due B tick c ≡ false = ap (due_of B tick) (sym found) ∙ quiet in
    ground (arith, young)

module _ (B : Blake3) (Q : ArrayQueue TickBatch) (E : QuantumExecutor B) where
  -- At the end of a cycle the clock is less than the interval of `c` past the cell's last checkpoint tick.
  abbrev pub IsRecent : ℕ → Cell B → World B Q E → Type 0
  IsRecent id c w =
      (c' : Cell B) × (find B Q E w id ≡ some c')
      × (w.supervisor.scheduler.clock.tick
          < c'.last_checkpoint_tick + c.config.checkpoint_interval_ticks)

  module _ (p : Profile) where
    -- A consistent world whose clock is not at its last tick, and an executor that marks every
    -- page that it writes and only pages with a committed byte, clears no mark, keeps the memory
    -- well formed, grows it by whole pages only, and leaves the mapping, the config, the
    -- checkpoints and their tick alone (`IsDisciplined`). The cell at the front of the order, with
    -- a memory of whole pages and an interval that is not zero, in a cycle in which its quantum
    -- does not fault: the cycle does not panic, and at its end the clock is fewer ticks than the
    -- interval past the cell's `last_checkpoint_tick`, also where the ring is full. That field is
    -- 0 until the first checkpoint.
    pub run_one_cycle-IsRecent :
        (w : World B Q E) (id : ℕ) (rest : List ℕ) (c : Cell B) (n : ℕ)
        → IsDisciplined B E
        → IsConsistent B Q E w
        → w.supervisor.scheduler.order ≡ id ∷ rest
        → w.supervisor.scheduler.clock.tick + 1 < u64
        → find B Q E w id ≡ some c
        → IsPaged c.memory.size_bytes
        → 0 < c.config.checkpoint_interval_ticks
        → (quantum_of B Q E id c (dispatched B Q E p w id rest)).result ≡ ok n
        → (x : Result SupervisorError (Option (ℕ × ℕ)) × World B Q E) × (run_one_cycle B Q E p w
            ≡ some x)
          × IsRecent id c x.1
    unfolding quantum_of
    run_one_cycle-IsRecent w id rest c n disciplined k e room found paged some_interval fine =
        let (c₁, found₁, (answer, w'), done, ended₁) =
          run_one_cycle_lem B Q E p w id rest disciplined k
            (λ d f.
              subst (λ (a : Cell B). IsPaged a.memory.size_bytes)
                (some-injective c d (sym found ∙ f)) paged)
            e room in
        let drained : Cell B = record c { pending_io = (drain_for_dispatch c.pending_io).1 } in
        let ran =
          disciplined drained (w.held id) w.supervisor.max_instructions_per_quantum w.exec
            (k.cells_valid id c found).readable in
        let ended =
          subst
            (λ (a : Cell B).
              Ended B Q E (outcome_of B Q E p w id)
                (quantum_of B Q E id a (dispatched B Q E p w id rest))
                (dispatched B Q E p w id rest) answer w')
            (some-injective c₁ c (sym found₁ ∙ found)) ended₁ in
        (
          (answer, w'),
          done,
          split w' answer ran ended (Bool-cases (outcome_of B Q E p w id).checkpoint_due),
        )
      where
        split :
            (w' : World B Q E) (answer : Result SupervisorError (Option (ℕ × ℕ)))
            → Ran B
                (record c { pending_io = (drain_for_dispatch c.pending_io).1 })
                (w.held id)
                (quantum_of B Q E id c (dispatched B Q E p w id rest))
            → Ended B Q E
                (outcome_of B Q E p w id)
                (quantum_of B Q E id c (dispatched B Q E p w id rest))
                (dispatched B Q E p w id rest)
                answer
                w'
            → ((outcome_of B Q E p w id).checkpoint_due ≡ true)
              ⊎ ((outcome_of B Q E p w id).checkpoint_due ≡ false)
            → IsRecent id c w'
        split w' answer ran ended (inr quiet) =
            let young =
              not_due_recent B (w.supervisor.scheduler.clock.tick + 1) c (find B Q E w id) found
                quiet in
            (
              (quantum_of B Q E id c (dispatched B Q E p w id rest)).cell,
              (ended.not_due n fine quiet).1.0,
              omega (
                arith,
                young,
                ran.checkpoint_tick_kept,
                ap (λ s. s.clock.tick) ended.scheduler_kept,
              ),
            )
        split w' answer ran ended (inl now) =
            let (flushed, c', reported, left, settled) = ended.due n fine now in
            (
              c',
              left.0,
              omega (
                arith,
                settled.taken.at_tick,
                some_interval,
                ap (λ s. s.clock.tick) ended.scheduler_kept,
              ),
            )
