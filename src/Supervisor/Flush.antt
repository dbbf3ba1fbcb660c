-- ===== src/Supervisor/Flush.antt =====
-- The flush of a cell's dirty pages to the ring.
use chronos_uvm.Prelude.{
  ℕ, ◌*◌, ◌<◌, ◌≡◌, refl, sym, ap, ◌∙◌, true, Option, none, some, List, [], ◌∷◌, ◌++◌, length,
  Profile, arith,
}
use chronos_uvm.Prelude.Bits.{bit}
use chronos_uvm.Prelude.Result.{Result, ok, err}
use chronos_uvm.Page.{page_size}
use chronos_uvm.Blake3.{Blake3}
use chronos_uvm.ArrayQueue.{ArrayQueue}
use chronos_uvm.Dirty.{iter_dirty}
use chronos_uvm.Dirty.Words.{contains}
use chronos_uvm.Dirty.Valid.{iter_dirty_exact}
use chronos_uvm.Memory.{MmapGuardedMemory, page_bytes}
use chronos_uvm.Memory.Pages.{IsPaged, page_bytes_inside}
use chronos_uvm.Checkpoint.Coverage.{Readable}
use chronos_uvm.Scheduler.{DispatchOutcome}
use chronos_uvm.Replicate.{TickBatch, full, DeltaRing}
use chronos_uvm.Replicate.Raws.{raws}
use chronos_uvm.Replicate.Ring.{batches, push_lem}
use chronos_uvm.Supervisor.{
  SupervisorError, replication_backpressure, page_deltas, backpressure, flush,
}
use chronos_uvm.Supervisor.Cells.{pages_of, IsReadable}

-- The dirty pages can be read, and have a leaf in the tree.
pages-Readable :
    (p : Profile) (held : ℕ → ℕ) (m : MmapGuardedMemory) (pages : List ℕ)
    → m.size_bytes < bit 32
    → IsPaged m.size_bytes
    → ((i : ℕ) → contains i pages ≡ true → i * page_size < m.size_bytes)
    → Readable (λ i. page_bytes p held i m) (pages_of held) pages
pages-Readable p held m [] small paged inside = tt
pages-Readable p held m (i ∷ pages) small paged inside = (
  page_bytes_inside p held i m paged (inside i (ground arith)),
  omega (arith, inside i (ground arith)),
  pages-Readable p held m pages small paged (λ j e. inside j (ground (arith, e))),
)

pub dirty-Readable :
    (p : Profile) (held : ℕ → ℕ) (m : MmapGuardedMemory)
    → IsPaged m.size_bytes
    → IsReadable m
    → Readable (λ i. page_bytes p held i m) (pages_of held) (iter_dirty m.dirty)
dirty-Readable p held m paged r =
    pages-Readable p held m (iter_dirty m.dirty)
      (omega (arith, r.bounds.size_le, r.bounds.quota_fits)) paged
      (λ i e. r.inside i (sym (iter_dirty_exact m.dirty i) ∙ e))

page_deltas_lem :
    (p : Profile) (held : ℕ → ℕ) (m : MmapGuardedMemory) (pages : List ℕ)
    → Readable (λ i. page_bytes p held i m) (pages_of held) pages
    → page_deltas p held m pages ≡ some (raws (pages_of held) pages)
unfolding page_deltas
page_deltas_lem p held m [] r = refl
page_deltas_lem p held m (i ∷ pages) r = rw (r.0, page_deltas_lem p held m pages r.2)

module _ (B : Blake3) (Q : ArrayQueue TickBatch) where
  open Q use {capacity}

  -- The batch of the dirty pages.
  abbrev pub batch_of : DispatchOutcome → (ℕ → ℕ) → List ℕ → TickBatch
  batch_of outcome held pages = record { tick = outcome.tick; deltas = raws (pages_of held) pages }

  -- What the flush answers and leaves in the ring: nothing without a ring; with one, the batch where
  -- there is room, and an error that names the cell where there is none.
  abbrev pub Sent :
      DispatchOutcome
      → (ℕ → ℕ)
      → List ℕ
      → Option (DeltaRing Q)
      → Result SupervisorError (Unit {0})
      → Option (DeltaRing Q)
      → Type 0
  Sent outcome held pages none answer ring = (answer ≡ ok tt) × (ring ≡ none)
  Sent outcome held pages (some r) answer ring =
      (r' : DeltaRing Q) × (ring ≡ some r')
      × (length (batches Q r) < capacity r.queue
          → (answer ≡ ok tt) × (batches Q r' ≡ batches Q r ++ batch_of outcome held pages ∷ []))
      × (length (batches Q r) ≡ capacity r.queue
          → (answer ≡ err (replication_backpressure outcome.cell_id (full (capacity r.queue))))
            × (batches Q r' ≡ batches Q r))

  pub flush_lem :
      (p : Profile) (outcome : DispatchOutcome) (held : ℕ → ℕ) (m : MmapGuardedMemory)
      (pages : List ℕ) (replication : Option (DeltaRing Q))
      → Readable (λ i. page_bytes p held i m) (pages_of held) pages
      → (x : Result SupervisorError (Unit {0}) × Option (DeltaRing Q)) × (flush B Q p outcome held m
            pages replication
          ≡ some x)
        × Sent outcome held pages replication x.0 x.1
  unfolding flush backpressure
  flush_lem p outcome held m pages none r = ((ok tt, none), refl, (refl, refl))
  flush_lem p outcome held m pages (some ring) r =
      let ((o, ring'), done, pushed) = push_lem Q (batch_of outcome held pages) ring in
      (
        (backpressure outcome.cell_id o, some ring'),
        rw (page_deltas_lem p held m pages r, done),
        (
          ring',
          refl,
          λ h. (ap (backpressure outcome.cell_id) (pushed.room h).0, (pushed.room h).1),
          λ h. (ap (backpressure outcome.cell_id) (pushed.no_room h).0, (pushed.no_room h).1),
        ),
      )
