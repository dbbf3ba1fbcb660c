-- ===== src/Supervisor/Mirror.antt =====
-- A supervisor of one cell and its standby: their steps, and what a cycle keeps of the pair.
use mathlib.Core.Path.{subst}
use mathlib.Core.Option.{some-injective}
use chronos_uvm.Prelude.{
  ℕ, ◌+◌, ◌%◌, ◌≤◌, ◌<◌, ◌≡◌, refl, sym, ap, ◌∙◌, true, false, Bool-cases, inl, inr, ◌⊎◌, Option,
  none, some, List, [], ◌∷◌, Profile, ◌>>=◌, u64, arith,
}
use chronos_uvm.Prelude.Result.{Result, ok, err}
use chronos_uvm.Blake3.{Blake3}
use chronos_uvm.ArrayQueue.{ArrayQueue}
use chronos_uvm.Page.{page_size}
use chronos_uvm.Cell.{Cell}
use chronos_uvm.Io.{drain_for_dispatch}
use chronos_uvm.Replicate.{TickBatch, DeltaRing, StandbyApplyLoop, drain}
use chronos_uvm.Replicate.Ring.{batches}
use chronos_uvm.Replicate.Standby.{apply_batches}
use chronos_uvm.Supervisor.{
  SupervisorError, QuantumFault, Quantum, QuantumExecutor, World, quantum_of, run_one_cycle,
}
use chronos_uvm.Supervisor.Cells.{IsReadable, IsDisciplined}
use chronos_uvm.Supervisor.Settle.{Settled}
use chronos_uvm.Supervisor.Worlds.{find, IsConsistent, ArePaged}
use chronos_uvm.Supervisor.Paged.{Ended-ArePaged}
use chronos_uvm.Supervisor.Cycle.{Ended, Left}
use chronos_uvm.Supervisor.Dispatch.{dispatched, outcome_of, run_one_cycle_lem}
use chronos_uvm.Supervisor.Backed.{Backed, Backed-held, Backed-quantum, Settled-Backed}

-- The supervisor dispatches a cycle, or the streaming task ships what the ring holds.
pub data HaStep : Type 0 where
  cycle ship : HaStep

module _ (B : Blake3) (Q : ArrayQueue TickBatch) (E : QuantumExecutor B) where
  pub record Pair : Type 0 where
    pub world : World B Q E
    pub standby : StandbyApplyLoop

  unfoldable pub ship_batches : Option (DeltaRing Q) → Pair → Option Pair
  ship_batches none x = some x
  ship_batches (some ring) x = do
    (out, ring) ← drain Q ring
    (answers, standby) ← apply_batches out x.standby
    some (record {
      world = record x.world { supervisor = record x.world.supervisor { replication = some ring } };
      standby = standby;
    })

  abbrev pub clock_of : Pair → ℕ
  clock_of x = x.world.supervisor.scheduler.clock.tick

  module _ (p : Profile) where
    unfoldable pub ha_step : HaStep → Pair → Option Pair
    unfolding ship_batches
    ha_step cycle x = do
      (answer, world) ← run_one_cycle B Q E p x.world
      some (record x { world = world })
    ha_step ship x = ship_batches x.world.supervisor.replication x

    unfoldable pub ha_run : List HaStep → Pair → Option Pair
    unfolding ha_step
    ha_run [] x = some x
    ha_run (step ∷ steps) x = ha_step step x >>= ha_run steps

  module _ (id : ℕ) where
    -- The one cell is scheduled, memories are of whole pages, and the standby with the ring has its clean pages.
    pub record Mirrored (x : Pair) : Type 0 where
      pub consistent : IsConsistent B Q E x.world
      pub paged : ArePaged B Q E x.world
      pub alone : x.world.supervisor.scheduler.order ≡ id ∷ []
      pub ring : DeltaRing Q
      pub replicated : x.world.supervisor.replication ≡ some ring
      pub backed :
          (c : Cell B)
          → find B Q E x.world id ≡ some c
          → Backed (batches Q ring) x.standby (clock_of x) (x.world.held id) c.memory.dirty

    -- The world after a cycle, from the cell and the ring that it leaves.
    closes :
        (x : Pair) (w : World B Q E) (tick : ℕ) (q : Quantum B E.Exec) (c : Cell B)
        (ring : DeltaRing Q)
        → IsConsistent B Q E w
        → ArePaged B Q E w
        → w.supervisor.scheduler.order ≡ id ∷ []
        → w.supervisor.scheduler.clock.tick ≡ tick
        → w.supervisor.replication ≡ some ring
        → Left B Q E id q c w
        → Backed (batches Q ring) x.standby tick q.held c.memory.dirty
        → Mirrored (record x { world = w })
    closes x w tick q c ring consistent paged alone at replicated (found, held) b = record {
      consistent = consistent;
      paged = paged;
      alone = alone;
      ring = ring;
      replicated = replicated;
      backed = λ d e.
          subst
            (λ (a : Cell B).
              Backed (batches Q ring) x.standby w.supervisor.scheduler.clock.tick (w.held id)
                a.memory.dirty)
            (some-injective c d (sym found ∙ e))
            (Backed-held (batches Q ring) x.standby tick w.supervisor.scheduler.clock.tick q.held
              (w.held id) c.memory.dirty (omega (arith, at)) held b);
    }

    -- What a step leaves, and the tick of the clock.
    abbrev pub Steps : Pair → ℕ → Option Pair → Type 0
    Steps x ticks o = (y : Pair) × (o ≡ some y) × Mirrored y × (clock_of y ≤ clock_of x + ticks)

    module _ (p : Profile) where
      pub Ended-Mirrored :
          (x : Pair) (m : Mirrored x) (q : Quantum B E.Exec)
          (answer : Result SupervisorError (Option (ℕ × ℕ))) (w : World B Q E)
          → IsReadable q.cell.memory
          → ArePaged B Q E w
          → Backed (batches Q m.ring) x.standby (clock_of x) q.held q.cell.memory.dirty
          → Ended B Q E
              (outcome_of B Q E p x.world id)
              q
              (dispatched B Q E p x.world id [])
              answer
              w
          → Mirrored (record x { world = w })
      Ended-Mirrored x m q answer w r paged b ended =
          split q.result refl (Bool-cases (outcome_of B Q E p x.world id).checkpoint_due)
        where
          alone : w.supervisor.scheduler.order ≡ id ∷ []
          alone = ap (λ s. s.order) ended.scheduler_kept

          at : w.supervisor.scheduler.clock.tick ≡ clock_of x + 1
          at = ap (λ s. s.clock.tick) ended.scheduler_kept

          -- Nothing is sent.
          kept :
              Left B Q E id q q.cell w
              → w.supervisor.replication ≡ x.world.supervisor.replication
              → Mirrored (record x { world = w })
          kept left same =
              closes x w (clock_of x + 1) q q.cell m.ring ended.consistent paged alone at
                (same ∙ m.replicated) left
                (Backed-held (batches Q m.ring) x.standby (clock_of x) (clock_of x + 1) q.held
                  q.held q.cell.memory.dirty (omega arith) (λ o. refl) b)

          split :
              (o : Result QuantumFault ℕ)
              → q.result ≡ o
              → ((outcome_of B Q E p x.world id).checkpoint_due ≡ true)
                ⊎ ((outcome_of B Q E p x.world id).checkpoint_due ≡ false)
              → Mirrored (record x { world = w })
          split (err fault) e d = kept (ended.faulted fault e).1 (ended.faulted fault e).2
          split (ok n) e (inr quiet) = kept (ended.not_due n e quiet).1 (ended.not_due n e quiet).2
          split (ok n) e (inl now) =
              let (flushed, c, done, left, settled) = ended.due n e now in
              let s =
                subst
                  (λ (ring : Option (DeltaRing Q)).
                    Settled B Q (outcome_of B Q E p x.world id) (E.register_digest q.exec q.cell)
                      q.held q.cell ring flushed c w.supervisor.replication)
                  m.replicated settled in
              let (ring, replicated, after) =
                Settled-Backed B Q p (outcome_of B Q E p x.world id)
                  (E.register_digest q.exec q.cell) x.standby (clock_of x) q.held q.cell c m.ring
                  w.supervisor.replication flushed refl
                  (sym (ap (λ (n : ℕ). n % page_size) (ended.size_kept c left.0))
                    ∙ paged id c left.0)
                  r s b in
              closes x w (clock_of x + 1) q c ring ended.consistent paged alone at replicated left
                after

      -- A cycle of a mirrored pair.
      pub cycle_lem :
          (x : Pair)
          → IsDisciplined B E
          → Mirrored x
          → clock_of x + 1 < u64
          → Steps x 1 (ha_step p cycle x)
      unfolding ha_step quantum_of
      cycle_lem x disciplined m room =
          let (c, found, (answer, w), done, ended) =
            run_one_cycle_lem B Q E p x.world id [] disciplined m.consistent (m.paged id) m.alone
              room in
          let drained : Cell B = record c { pending_io = (drain_for_dispatch c.pending_io).1 } in
          let q : Quantum B E.Exec = quantum_of B Q E id c (dispatched B Q E p x.world id []) in
          let ran =
            disciplined drained (x.world.held id) x.world.supervisor.max_instructions_per_quantum
              x.world.exec (m.consistent.cells_valid id c found).readable in
          let b =
            Backed-quantum B (batches Q m.ring) x.standby (clock_of x) drained (x.world.held id) q
              ran (m.backed c found) in
          (
            record x { world = w },
            rw done,
            Ended-Mirrored x m q answer w ran.readable
                (Ended-ArePaged B Q E p x.world w id [] c answer disciplined m.consistent m.paged
                  found ended)
                b ended,
            omega (arith, ap (λ s. s.clock.tick) ended.scheduler_kept),
          )
