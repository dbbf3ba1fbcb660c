-- ===== src/Supervisor/Cycle.antt =====
-- One cycle of a dispatched cell: what the quantum, the checkpoint and the flush leave.
use chronos_uvm.Prelude.{
  ◌<◌, u64, ℕ, ◌≡◌, refl, sym, ap, ◌∙◌, true, false, Bool-cases, inl, inr, ◌⊎◌, Option, some,
  Profile, arith,
}
use mathlib.Core.Option.{some-injective}
use chronos_uvm.Prelude.Result.{Result, ok, err}
use chronos_uvm.Blake3.{Blake3}
use chronos_uvm.ArrayQueue.{ArrayQueue}
use chronos_uvm.Memory.{MmapGuardedMemory}
use chronos_uvm.Memory.Pages.{IsPaged}
use chronos_uvm.Cell.{Cell}
use chronos_uvm.Scheduler.{DispatchOutcome}
use chronos_uvm.Replicate.{TickBatch, DeltaRing}
use chronos_uvm.Supervisor.{
  SupervisorError, QuantumFault, Quantum, QuantumExecutor, World, checkpoint_and_flush, stored,
  completed, end_cycle,
}
use chronos_uvm.Supervisor.Cells.{IsValid}
use chronos_uvm.Supervisor.Settle.{Settled, checkpoint_and_flush_lem}
use chronos_uvm.Supervisor.Worlds.{get-insert_self, find, IsConsistent, Isolated, stored_lem}

module _ (B : Blake3) (Q : ArrayQueue TickBatch) (E : QuantumExecutor B) where
  open E use {Exec, run_quantum, register_digest}

  -- The cell after the cycle, and its mapping as the quantum left it.
  abbrev pub Left : ℕ → Quantum B Exec → Cell B → World B Q E → Type 0
  Left id q c w' = (find B Q E w' id ≡ some c) × ((offset : ℕ) → w'.held id offset ≡ q.held offset)

  -- What the cycle answers, and what it does to the cell and the ring, after the quantum `q`.
  pub record Ended (outcome : DispatchOutcome) (q : Quantum B Exec) (w : World B Q E)
      (answer : Result SupervisorError (Option (ℕ × ℕ))) (w' : World B Q E) : Type 0 where
    -- a fault is no error of the cycle: the cell is as the quantum left it, and is not checkpointed
    pub faulted :
        (fault : QuantumFault)
        → q.result ≡ err fault
        → (answer ≡ ok (some (outcome.cell_id, outcome.tick)))
          × Left outcome.cell_id q q.cell w'
          × (w'.supervisor.replication ≡ w.supervisor.replication)
    pub not_due :
        (n : ℕ)
        → q.result ≡ ok n
        → outcome.checkpoint_due ≡ false
        → (answer ≡ ok (some (outcome.cell_id, outcome.tick)))
          × Left outcome.cell_id q q.cell w'
          × (w'.supervisor.replication ≡ w.supervisor.replication)
    pub due :
        (n : ℕ)
        → q.result ≡ ok n
        → outcome.checkpoint_due ≡ true
        → (flushed : Result SupervisorError (Unit {0})) × (c : Cell B) × (answer
            ≡ completed B Q E outcome flushed)
          × Left outcome.cell_id q c w'
          × Settled B Q outcome
              (register_digest q.exec q.cell)
              q.held
              q.cell
              w.supervisor.replication
              flushed
              c
              w'.supervisor.replication
    pub size_kept :
        (c : Cell B)
        → find B Q E w' outcome.cell_id ≡ some c
        → c.memory.size_bytes ≡ q.cell.memory.size_bytes
    pub scheduler_kept : w'.supervisor.scheduler ≡ w.supervisor.scheduler
    pub consistent : IsConsistent B Q E w'
    pub isolated : Isolated B Q E outcome.cell_id w w'

  stored-Left :
      (id : ℕ) (q : Quantum B Exec) (c : Cell B) (ring : Option (DeltaRing Q)) (w : World B Q E)
      → Left id q c (stored B Q E id q c ring w)
  unfolding stored
  stored-Left id q c ring w = (get-insert_self id c w.supervisor.cells, λ offset. ground arith)

  stored-scheduler :
      (id : ℕ) (q : Quantum B Exec) (c : Cell B) (ring : Option (DeltaRing Q)) (w : World B Q E)
      → ((stored B Q E id q c ring w).supervisor.scheduler ≡ w.supervisor.scheduler)
        × ((stored B Q E id q c ring w).supervisor.replication ≡ ring)
  unfolding stored
  stored-scheduler id q c ring w = (refl, refl)

  module _ (p : Profile) (outcome : DispatchOutcome) (q : Quantum B Exec) (w : World B Q E) where
    -- The world of a cycle that ends with the quantum.
    abbrev as_left : World B Q E
    as_left = stored B Q E outcome.cell_id q q.cell w.supervisor.replication w

    fault_ends :
        (fault : QuantumFault)
        → end_cycle B Q E p outcome q (err fault) w
          ≡ some (ok (some (outcome.cell_id, outcome.tick)), as_left)
    unfolding end_cycle
    fault_ends fault = refl

    quiet_ends :
        (n : ℕ)
        → outcome.checkpoint_due ≡ false
        → end_cycle B Q E p outcome q (ok n) w
          ≡ some (ok (some (outcome.cell_id, outcome.tick)), as_left)
    unfolding end_cycle
    quiet_ends n h = rw h

    due_ends :
        (n : ℕ) (flushed : Result SupervisorError (Unit {0})) (c : Cell B)
        (ring : Option (DeltaRing Q))
        → outcome.checkpoint_due ≡ true
        → checkpoint_and_flush B Q p outcome
            (register_digest q.exec q.cell)
            q.held
            q.cell
            w.supervisor.replication
          ≡ some (flushed, c, ring)
        → end_cycle B Q E p outcome q (ok n) w
          ≡ some (completed B Q E outcome flushed, stored B Q E outcome.cell_id q c ring w)
    unfolding end_cycle
    due_ends n flushed c ring h done = rw (h, done)

    pub end_cycle_lem :
        IsConsistent B Q E w
        → outcome.tick < u64
        → IsPaged q.cell.memory.size_bytes
        → IsValid B q.cell q.held
        → (x : Result SupervisorError (Option (ℕ × ℕ)) × World B Q E) × (end_cycle B Q E p outcome q
              q.result w
            ≡ some x)
          × Ended outcome q w x.0 x.1
    end_cycle_lem k fits paged v = ended q.result refl (Bool-cases outcome.checkpoint_due)
      where
        left : Left outcome.cell_id q q.cell as_left
        left = stored-Left outcome.cell_id q q.cell w.supervisor.replication w

        kept :
            (as_left.supervisor.scheduler ≡ w.supervisor.scheduler)
            × (as_left.supervisor.replication ≡ w.supervisor.replication)
        kept = stored-scheduler outcome.cell_id q q.cell w.supervisor.replication w

        after : IsConsistent B Q E as_left × Isolated B Q E outcome.cell_id w as_left
        after = stored_lem B Q E outcome.cell_id q q.cell w.supervisor.replication w k v

        same_size :
            (w' : World B Q E) (c d : Cell B)
            → find B Q E w' outcome.cell_id ≡ some c
            → c.memory.size_bytes ≡ q.cell.memory.size_bytes
            → find B Q E w' outcome.cell_id ≡ some d
            → d.memory.size_bytes ≡ q.cell.memory.size_bytes
        same_size w' c d found same e =
            ap (λ (a : Cell B). a.memory.size_bytes) (some-injective d c (sym e ∙ found)) ∙ same

        ended :
            (o : Result QuantumFault ℕ)
            → q.result ≡ o
            → (outcome.checkpoint_due ≡ true) ⊎ (outcome.checkpoint_due ≡ false)
            → (x : Result SupervisorError (Option (ℕ × ℕ)) × World B Q E) × (end_cycle B Q E p
                  outcome q o w
                ≡ some x)
              × Ended outcome q w x.0 x.1
        ended (err fault) e d = (
          (ok (some (outcome.cell_id, outcome.tick)), as_left),
          fault_ends fault,
          record {
            faulted = λ f h. (refl, left, kept.1);
            not_due = λ n h. absurd (cc (e, h));
            due = λ n h. absurd (cc (e, h));
            size_kept = λ c e. same_size as_left q.cell c left.0 refl e;
            scheduler_kept = kept.0;
            consistent = after.0;
            isolated = after.1;
          },
        )
        ended (ok n) e (inr quiet) = (
          (ok (some (outcome.cell_id, outcome.tick)), as_left),
          quiet_ends n quiet,
          record {
            faulted = λ f h. absurd (cc (e, h));
            not_due = λ n h q. (refl, left, kept.1);
            due = λ n h now. absurd (cc (quiet, now));
            size_kept = λ c e. same_size as_left q.cell c left.0 refl e;
            scheduler_kept = kept.0;
            consistent = after.0;
            isolated = after.1;
          },
        )
        ended (ok n) e (inl now) =
            let ((flushed, c, ring), done, s) =
              checkpoint_and_flush_lem B Q p outcome (register_digest q.exec q.cell) q.held q.cell
                w.supervisor.replication fits paged v in
            let (consistent, isolated) =
              stored_lem B Q E outcome.cell_id q c ring w k s.taken.valid in
            let (scheduler_kept, ring_kept) = stored-scheduler outcome.cell_id q c ring w in
            (
              (completed B Q E outcome flushed, stored B Q E outcome.cell_id q c ring w),
              due_ends n flushed c ring now done,
              record {
                faulted = λ f h. absurd (cc (e, h));
                not_due = λ n h quiet. absurd (cc (now, quiet));
                due = λ n h now.
                    (flushed, c, refl, stored-Left outcome.cell_id q c ring w, rw ring_kept s);
                size_kept = λ d e.
                    same_size (stored B Q E outcome.cell_id q c ring w) c d
                      (stored-Left outcome.cell_id q c ring w).0
                      (ap (λ (m : MmapGuardedMemory). m.size_bytes) s.taken.memory_kept) e;
                scheduler_kept = scheduler_kept;
                consistent = consistent;
                isolated = isolated;
              },
            )
