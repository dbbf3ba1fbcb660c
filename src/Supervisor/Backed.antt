-- ===== src/Supervisor/Backed.antt =====
-- A standby that, with what is still in the ring, has every clean page of a memory.
use mathlib.Core.Path.{subst}
use chronos_uvm.Prelude.{
  ℕ, ◌+◌, ◌*◌, ◌≤◌, ◌<◌, ◌≡◌, refl, sym, ap, ◌∙◌, true, false, Bool-cases, inl, inr, ◌⊎◌, Option,
  none, some, List, [], ◌∷◌, ◌++◌, if◌then◌else◌, Profile, arith,
}
use chronos_uvm.Page.{page_size, zero_page}
use chronos_uvm.Blake3.{Blake3}
use chronos_uvm.ArrayQueue.{ArrayQueue}
use chronos_uvm.Dirty.{DirtyPageSet, is_dirty, iter_dirty}
use chronos_uvm.Dirty.Words.{contains}
use chronos_uvm.Dirty.Valid.{iter_dirty_exact}
use chronos_uvm.Delta.{max_pages}
use chronos_uvm.Delta
use chronos_uvm.Delta.Engine
use chronos_uvm.Delta.Engine.{baseline_of}
use chronos_uvm.Memory.{MmapGuardedMemory, page_bytes}
use chronos_uvm.Memory.Pages.{IsPaged, length-slice, slice-ext}
use chronos_uvm.Checkpoint.Coverage.{Readable}
use chronos_uvm.Cell.{Cell}
use chronos_uvm.Replicate.{TickBatch, DeltaRing, StandbyApplyLoop}
use chronos_uvm.Replicate.Ring.{batches}
use chronos_uvm.Replicate.Standby.{apply_batch_fresh}
use chronos_uvm.Replicate.Raws.{raws, AreWhole, apply_deltas-raws}
use chronos_uvm.Replicate.Backlog.{Applies, Applies-snoc}
use chronos_uvm.Supervisor.{Quantum}
use chronos_uvm.Supervisor.Cells.{pages_of, IsReadable, Ran}
use chronos_uvm.Supervisor.Flush.{dirty-Readable, batch_of}
use chronos_uvm.Supervisor.Settle.{Settled, Cleaned}
use chronos_uvm.Supervisor.{SupervisorError, replication_backpressure}
use chronos_uvm.Replicate.{full}
use chronos_uvm.Scheduler.{DispatchOutcome}
use chronos_uvm.Prelude.Result.{Result, ok, err}
use chronos_uvm.Prelude.{length, dec_lt}

-- A page that the standby has never seen is a page of zeros, as in a new mapping.
abbrev pub or_zero : Option (List ℕ) → List ℕ
or_zero none = zero_page
or_zero (some page) = page

Readable-AreWhole :
    (p : Profile) (held : ℕ → ℕ) (m : MmapGuardedMemory) (pages : List ℕ)
    → Readable (λ i. page_bytes p held i m) (pages_of held) pages
    → AreWhole (pages_of held) pages
Readable-AreWhole p held m [] r = tt
Readable-AreWhole p held m (i ∷ pages) r = (
  omega (arith, r.1),
  length-slice held (i * page_size) page_size,
  Readable-AreWhole p held m pages r.2,
)

-- `pending` is in the ring, `tick` is that of the clock, and `held` and `dirty` are the cell's.
pub record Backed (pending : List TickBatch) (s : StandbyApplyLoop) (tick : ℕ) (held : ℕ → ℕ)
    (dirty : DirtyPageSet) : Type 0 where
  pub last : StandbyApplyLoop
  pub backlog : Applies pending s last
  pub engine_valid : Delta.Engine.IsValid last.engine
  pub in_past : last.last_applied_tick ≤ tick
  pub mirrored :
      (i : ℕ) → is_dirty dirty i ≡ false → or_zero (baseline_of last.engine i) ≡ pages_of held i

-- The same bytes, a later tick.
pub Backed-held :
    (pending : List TickBatch) (s : StandbyApplyLoop) (tick later : ℕ) (f g : ℕ → ℕ)
    (dirty : DirtyPageSet)
    → tick ≤ later
    → ((offset : ℕ) → g offset ≡ f offset)
    → Backed pending s tick f dirty
    → Backed pending s later g dirty
Backed-held pending s tick later f g dirty le same b = record {
  last = b.last;
  backlog = b.backlog;
  engine_valid = b.engine_valid;
  in_past = omega (arith, le, b.in_past);
  mirrored = λ i h. b.mirrored i h ∙ sym (slice-ext g f (i * page_size) page_size (λ k l. same k));
}

-- A quantum: what it writes is dirty.
pub Backed-quantum :
    (B : Blake3) {Exec : Type 0} (pending : List TickBatch) (s : StandbyApplyLoop) (tick : ℕ)
    (c : Cell B) (held : ℕ → ℕ) (q : Quantum B Exec)
    → Ran B c held q
    → Backed pending s tick held c.memory.dirty
    → Backed pending s tick q.held q.cell.memory.dirty
Backed-quantum B pending s tick c held q ran b = record {
  last = b.last;
  backlog = b.backlog;
  engine_valid = b.engine_valid;
  in_past = b.in_past;
  mirrored = λ i h.
      b.mirrored i (was_clean i h (Bool-cases (is_dirty c.memory.dirty i)))
      ∙ sym (ran.writes_marked i h);
}
  where
    was_clean :
        (i : ℕ)
        → is_dirty q.cell.memory.dirty i ≡ false
        → (is_dirty c.memory.dirty i ≡ true) ⊎ (is_dirty c.memory.dirty i ≡ false)
        → is_dirty c.memory.dirty i ≡ false
    was_clean i h (inr clean) = clean
    was_clean i h (inl dirty) = absurd (cc (ran.marks_kept i dirty, h))

-- A flush of the dirty pages: then every page is as the memory has it.
Backed-flush :
    (p : Profile) (pending : List TickBatch) (s : StandbyApplyLoop) (tick : ℕ) (held : ℕ → ℕ)
    (m : MmapGuardedMemory) (after : DirtyPageSet)
    → IsPaged m.size_bytes
    → IsReadable m
    → Backed pending s tick held m.dirty
    → Backed
        (pending
          ++ (record { tick = tick + 1; deltas = raws (pages_of held) (iter_dirty m.dirty) }) ∷ [])
        s
        (tick + 1)
        held
        after
Backed-flush p pending s tick held m after paged r b =
    let pages = iter_dirty m.dirty in
    let (e, done, valid, view) =
      apply_deltas-raws (pages_of held) pages b.last.engine b.engine_valid
        (Readable-AreWhole p held m pages (dirty-Readable p held m paged r)) in
    let batch : TickBatch = record { tick = tick + 1; deltas = raws (pages_of held) pages } in
    record {
      last = record { engine = e; last_applied_tick = tick + 1 };
      backlog =
          Applies-snoc pending batch s b.last (record { engine = e; last_applied_tick = tick + 1 })
            b.backlog (apply_batch_fresh batch b.last e (omega (arith, b.in_past)) done);
      engine_valid = valid;
      in_past = omega arith;
      mirrored = λ i h. ap or_zero (view i) ∙ sent i (Bool-cases (is_dirty m.dirty i));
    }
  where
    sent :
        (i : ℕ)
        → (is_dirty m.dirty i ≡ true) ⊎ (is_dirty m.dirty i ≡ false)
        → or_zero (
            if contains i (iter_dirty m.dirty)
            then some (pages_of held i)
            else baseline_of b.last.engine i)
          ≡ pages_of held i
    sent i (inl dirty) = rw (iter_dirty_exact m.dirty i, dirty)
    sent i (inr clean) = rw (iter_dirty_exact m.dirty i, clean) (b.mirrored i clean)

module _ (B : Blake3) (Q : ArrayQueue TickBatch) (p : Profile) where
  open Q use {capacity}

  -- The ring and the dirty set after the block of a due cell.
  pub Settled-Backed :
      (outcome : DispatchOutcome) (digest : B.Hash) (s : StandbyApplyLoop) (tick : ℕ) (held : ℕ → ℕ)
      (c c' : Cell B) (ring : DeltaRing Q) (replication : Option (DeltaRing Q))
      (answer : Result SupervisorError (Unit {0}))
      → outcome.tick ≡ tick + 1
      → IsPaged c.memory.size_bytes
      → IsReadable c.memory
      → Settled B Q outcome digest held c (some ring) answer c' replication
      → Backed (batches Q ring) s tick held c.memory.dirty
      → (ring' : DeltaRing Q) × (replication ≡ some ring')
        × Backed (batches Q ring') s (tick + 1) held c'.memory.dirty
  Settled-Backed outcome digest s tick held c c' ring replication answer at paged r settled b =
      let (ring', kept, room, no_room) = settled.sent in
      (
        ring',
        kept,
        split ring' room no_room (dec_lt (length (batches Q ring)) (capacity ring.queue)),
      )
    where
      split :
          (ring' : DeltaRing Q)
          → (length (batches Q ring) < capacity ring.queue
              → (answer ≡ ok tt)
                × (batches Q ring'
                    ≡ batches Q ring ++ batch_of B Q outcome held (iter_dirty c.memory.dirty) ∷ []))
          → (length (batches Q ring) ≡ capacity ring.queue
              → (answer
                  ≡ err (replication_backpressure outcome.cell_id (full (capacity ring.queue))))
                × (batches Q ring' ≡ batches Q ring))
          → Dec (length (batches Q ring) < capacity ring.queue)
          → Backed (batches Q ring') s (tick + 1) held c'.memory.dirty
      split ring' room no_room (yes h) =
          let pages = iter_dirty c.memory.dirty in
          let sent =
            (room h).1
            ∙ ap
                (λ (t : ℕ).
                  batches Q ring ++ (record { tick = t; deltas = raws (pages_of held) pages }) ∷ [])
                at in
          subst (λ (bs : List TickBatch). Backed bs s (tick + 1) held c'.memory.dirty) (sym sent)
            (Backed-flush p (batches Q ring) s tick held c.memory c'.memory.dirty paged r b)
      split ring' room no_room (no n) =
          let (refused, kept) = no_room (omega (arith, Q.bounded ring.queue)) in
          let same : c'.memory ≡ c.memory =
            subst (λ (a : Result SupervisorError (Unit {0})). Cleaned B Q a c c') refused
              settled.cleaned in
          subst (λ (bs : List TickBatch). Backed bs s (tick + 1) held c'.memory.dirty) (sym kept)
            (subst (λ (m : MmapGuardedMemory). Backed (batches Q ring) s (tick + 1) held m.dirty)
              (sym same)
              (Backed-held (batches Q ring) s tick (tick + 1) held held c.memory.dirty (omega arith)
                (λ o. refl) b))
