-- ===== src/Supervisor/History.antt =====
-- Histories of cycles and shipments, and what a shipment leaves at the standby.
use mathlib.Core.Path.{subst}
use mathlib.Core.Option.{some-injective}
use chronos_uvm.Prelude.{
  ◌*◌, ℕ, ◌+◌, ◌<◌, ◌≡◌, refl, sym, ap, ◌∙◌, false, Option, none, some, List, [], ◌∷◌, ◌++◌, length,
  Profile, ◌>>=◌, u64, arith,
}
use chronos_uvm.Blake3.{Blake3}
use chronos_uvm.ArrayQueue.{ArrayQueue}
use chronos_uvm.Dirty.{DirtyPageSet, is_dirty}
use chronos_uvm.Delta.Engine.{baseline_of, Fresh}
use chronos_uvm.Page.{page_size}
use chronos_uvm.Memory.Pages.{slice-ext, slice-zero_page}
use chronos_uvm.Cell.{Cell}
use chronos_uvm.Replicate.{TickBatch, DeltaRing, StandbyApplyLoop}
use chronos_uvm.Replicate.Ring.{batches, drain_lem}
use chronos_uvm.Replicate.Standby.{apply_batches}
use chronos_uvm.Replicate.Backlog.{Applies-apply_batches}
use chronos_uvm.Supervisor.{QuantumExecutor}
use chronos_uvm.Supervisor.Cells.{pages_of, IsDisciplined}
use chronos_uvm.Supervisor.Worlds.{IsKnown, find, IsConsistent, ArePaged}
use chronos_uvm.Supervisor.Backed.{or_zero, Backed}
use chronos_uvm.Supervisor.Mirror.{
  HaStep, cycle, ship, Pair, ship_batches, ha_step, ha_run, clock_of, Mirrored, Steps, cycle_lem,
}

module _ (B : Blake3) (Q : ArrayQueue TickBatch) (E : QuantumExecutor B) (id : ℕ) where
  -- The standby has every page of the cell that is not dirty.
  abbrev pub UpToDate : Pair B Q E → Type 0
  UpToDate x =
      (c : Cell B)
      → find B Q E x.world id ≡ some c
      → (i : ℕ) → is_dirty c.memory.dirty i ≡ false
      → or_zero (baseline_of x.standby.engine i) ≡ pages_of (x.world.held id) i

  -- A supervisor whose one cell has a memory of zeros, with an empty ring and a new standby.
  pub started-Mirrored :
      (x : Pair B Q E) (ring : DeltaRing Q)
      → IsConsistent B Q E x.world
      → ArePaged B Q E x.world
      → x.world.supervisor.scheduler.order ≡ id ∷ []
      → x.world.supervisor.replication ≡ some ring
      → batches Q ring ≡ []
      → ((offset : ℕ) → x.world.held id offset ≡ 0)
      → Fresh x.standby.engine
      → x.standby.last_applied_tick ≡ 0
      → Mirrored B Q E id x
  started-Mirrored x ring consistent paged alone replicated empty zeros fresh at = record {
    consistent = consistent;
    paged = paged;
    alone = alone;
    ring = ring;
    replicated = replicated;
    backed = λ c e. rw empty (record {
      last = x.standby;
      backlog = refl;
      engine_valid = fresh.valid;
      in_past = omega (arith, at);
      mirrored = λ i h. zero_pages i;
    });
  }
    where
      zero_pages : (i : ℕ) → or_zero (baseline_of x.standby.engine i) ≡ pages_of (x.world.held id) i
      zero_pages i =
          ap or_zero (fresh.unknown i)
          ∙ sym (
              slice-ext (x.world.held id) (λ _. 0) (i * page_size) page_size (λ k l. zeros k)
              ∙ slice-zero_page (i * page_size))

  drained-Backed :
      (bs : List TickBatch) (s : StandbyApplyLoop) (tick : ℕ) (held : ℕ → ℕ) (dirty : DirtyPageSet)
      (b : Backed bs s tick held dirty)
      → Backed [] b.last tick held dirty
  drained-Backed bs s tick held dirty b = record {
    last = b.last;
    backlog = refl;
    engine_valid = b.engine_valid;
    in_past = b.in_past;
    mirrored = b.mirrored;
  }

  module _ (p : Profile) where
    -- A shipment, from what the ring gives and where that takes the standby.
    pub ship_lem :
        (x : Pair B Q E)
        → Mirrored B Q E id x
        → (y : Pair B Q E) × (ha_step B Q E p ship x ≡ some y)
          × Mirrored B Q E id y
          × UpToDate y
          × (clock_of B Q E y ≡ clock_of B Q E x)
          × (y.world.held ≡ x.world.held)
          × (find B Q E y.world ≡ find B Q E x.world)
    unfolding ha_step ship_batches
    ship_lem x m =
        let ((c, found), rest) = subst (IsKnown (find B Q E x.world)) m.alone m.consistent.known in
        let ((out, ring), done, all, empty, cap) = drain_lem Q m.ring in
        let b = m.backed c found in
        let answers =
          ap (λ bs. apply_batches bs x.standby) all
          ∙ Applies-apply_batches (batches Q m.ring) x.standby b.last b.backlog in
        let same_cell =
          λ (d : Cell B) (e : find B Q E x.world id ≡ some d). some-injective c d (sym found ∙ e) in
        (
          record {
            world = record x.world {
              supervisor = record x.world.supervisor { replication = some ring };
            };
            standby = b.last;
          },
          rw (m.replicated, done, answers),
          record {
            consistent = record {
              known = m.consistent.known;
              cells_valid = m.consistent.cells_valid;
            };
            paged = m.paged;
            alone = m.alone;
            ring = ring;
            replicated = refl;
            backed = λ d e.
                rw (empty, sym (same_cell d e))
                  (drained-Backed (batches Q m.ring) x.standby (clock_of B Q E x) (x.world.held id)
                    c.memory.dirty b);
          },
          λ d e i clean.
              b.mirrored i (ap (λ (a : Cell B). is_dirty a.memory.dirty i) (same_cell d e) ∙ clean),
          refl,
          refl,
          refl,
        )

    history_lem :
        (steps : List HaStep) (x : Pair B Q E)
        → IsDisciplined B E
        → Mirrored B Q E id x
        → clock_of B Q E x + length steps < u64
        → Steps B Q E id x (length steps) (ha_run B Q E p steps x)
    unfolding ha_run
    history_lem [] x disciplined m room = (x, refl, m, omega arith)
    history_lem (cycle ∷ steps) x disciplined m room =
        let (y, done, my, at) = cycle_lem B Q E id p x disciplined m (omega (arith, room)) in
        let (z, rest, mz, later) = history_lem steps y disciplined my (omega (arith, room, at)) in
        (z, rw (done, rest), mz, omega (arith, at, later))
    history_lem (ship ∷ steps) x disciplined m room =
        let (y, done, my, fresh, at, held, cells) = ship_lem x m in
        let (z, rest, mz, later) = history_lem steps y disciplined my (omega (arith, room, at)) in
        (z, rw (done, rest), mz, omega (arith, at, later))

    ha_run-append :
        (steps more : List HaStep) (x : Pair B Q E)
        → ha_run B Q E p (steps ++ more) x ≡ (ha_run B Q E p steps x >>= ha_run B Q E p more)
    unfolding ha_run
    ha_run-append [] more x = refl
    ha_run-append (step ∷ steps) more x = then (ha_step B Q E p step x) (ha_run-append steps more)
      where
        then :
            (o : Option (Pair B Q E))
            → ((y : Pair B Q E)
                → ha_run B Q E p (steps ++ more) y
                  ≡ (ha_run B Q E p steps y >>= ha_run B Q E p more))
            → (o >>= ha_run B Q E p (steps ++ more))
              ≡ ((o >>= ha_run B Q E p steps) >>= ha_run B Q E p more)
        then none ih = refl
        then (some y) ih = ih y

    -- A supervisor with one cell whose memory is of whole pages, a ring, and a standby that with
    -- the ring has the cell's clean pages, and an executor that marks every page that it writes
    -- and only pages with a committed byte, clears no mark, keeps the memory well formed, grows it
    -- by whole pages only, and leaves the mapping, the config, the checkpoints and their tick
    -- alone (`IsDisciplined`): any history of cycles and shipments in which the clock does not
    -- reach its last tick ends, with faults, checkpoints and refused pushes on the way. Once a
    -- shipment follows, the standby has every page of the cell that is not dirty, as the cell has
    -- it.
    pub ha_run_lem :
        (steps : List HaStep) (x : Pair B Q E)
        → IsDisciplined B E
        → Mirrored B Q E id x
        → clock_of B Q E x + length steps < u64
        → (y : Pair B Q E) × (ha_run B Q E p (steps ++ ship ∷ []) x ≡ some y)
          × Mirrored B Q E id y
          × UpToDate y
    unfolding ha_run
    ha_run_lem steps x disciplined m room =
        let (y, done, my, at) = history_lem steps x disciplined m room in
        let (z, shipped, mz, fresh, at, held, cells) = ship_lem y my in
        (z, ha_run-append steps (ship ∷ []) x ∙ rw (done, shipped), mz, fresh)
