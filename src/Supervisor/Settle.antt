-- ===== src/Supervisor/Settle.antt =====
-- The block of a due cell: its checkpoint, the flush of its dirty pages, and their clearing.
use chronos_uvm.Prelude.{ℕ, ◌≡◌, refl, ap, Option, some, Profile}
use mathlib.Core.Path.{subst}
use mathlib.Core.List.{map-append}
use chronos_uvm.Prelude.{sym, [], ◌∷◌, map, ◌<◌, u64, arith}
use chronos_uvm.Prelude.Result.{Result, ok, err}
use chronos_uvm.Blake3.{Blake3}
use chronos_uvm.ArrayQueue.{ArrayQueue}
use chronos_uvm.Dirty.{iter_dirty, clear_all}
use chronos_uvm.Dirty.Resets.{Cleared, clear_all_lem}
use chronos_uvm.Memory.{MmapGuardedMemory, page_bytes}
use chronos_uvm.Memory.Pages.{IsPaged}
use chronos_uvm.Smt.Merkle.{merkle_root}
use chronos_uvm.Checkpoint.{CheckpointEntry, latest}
use chronos_uvm.Checkpoint.Tamper.{AreTicks, AreTicks-snoc}
use chronos_uvm.Checkpoint.Chain.{claim, checkpoint-IsChained, checkpoint_inv}
use chronos_uvm.Checkpoint.Coverage.{Tracks, checkpoint-Tracks}
use chronos_uvm.Cell.{Cell}
use chronos_uvm.Scheduler.{DispatchOutcome}
use chronos_uvm.Replicate.{TickBatch, DeltaRing}
use chronos_uvm.Supervisor.{
  SupervisorError, clear_cell_dirty_pages, take_checkpoint, settled, checkpoint_and_flush,
}
use chronos_uvm.Supervisor.Cells.{pages_of, IsReadable, IsValid}
use chronos_uvm.Supervisor.Flush.{dirty-Readable, Sent, flush_lem}

module _ (B : Blake3) (Q : ArrayQueue TickBatch) where
  -- The cell after a checkpoint of its whole memory.
  pub record Taken (tick : ℕ) (digest : B.Hash) (held : ℕ → ℕ) (c c' : Cell B) : Type 0 where
    pub memory_kept : record c'.memory { dirty = c.memory.dirty } ≡ c.memory
    pub at_tick : c'.last_checkpoint_tick ≡ tick
    pub valid : IsValid B c' held
    pub tracks : Tracks B c'.checkpoints.tree (pages_of held)
    pub newest :
        (e : CheckpointEntry B) × (latest B c'.checkpoints ≡ some e)
        × (e.tick ≡ tick)
        × (e.register_digest ≡ digest)
        × (e.smt_root ≡ merkle_root B (λ i. B.hash (pages_of held i)))

  take_checkpoint_lem :
      (p : Profile) (tick : ℕ) (digest : B.Hash) (held : ℕ → ℕ) (c : Cell B)
      → tick < u64
      → IsPaged c.memory.size_bytes
      → IsValid B c held
      → (c' : Cell B) × (take_checkpoint B Q p tick digest held c ≡ some c')
        × (c'.memory ≡ c.memory)
        × Taken tick digest held c c'
  unfolding take_checkpoint
  take_checkpoint_lem p tick digest held c fits paged v =
      let (before, tracks, clean) = v.committed in
      let page_of = λ (i : ℕ). page_bytes p held i c.memory in
      let ((entry, chain), done, tree_valid, tracks', root) =
        checkpoint-Tracks B tick page_of c.memory.dirty digest c.checkpoints before (pages_of held)
          v.tree_valid tracks clean (dirty-Readable p held c.memory paged v.readable) in
      let (chained, newest) =
        checkpoint-IsChained B tick page_of c.memory.dirty digest c.checkpoints (entry, chain)
          v.chained done in
      let (tree, rehashed, ext) =
        checkpoint_inv B tick page_of c.memory.dirty digest c.checkpoints (entry, chain) done in
      (
        record c { checkpoints = chain; last_checkpoint_tick = tick },
        rw done,
        refl,
        record {
          memory_kept = refl;
          at_tick = refl;
          valid = record {
            readable = v.readable;
            tree_valid = tree_valid;
            chained = chained;
            ticks =
                subst (λ es. AreTicks B (map (claim B) es)) (sym ext.appended)
                  (subst (AreTicks B)
                    (sym (map-append (claim B) c.checkpoints.entries (entry ∷ [])))
                    (AreTicks-snoc B (map (claim B) c.checkpoints.entries) (claim B entry) v.ticks
                      (omega (arith, ext.at_tick, fits))));
            committed = (pages_of held, tracks', λ i e. refl);
          };
          tracks = tracks';
          newest = (entry, newest, ext.at_tick, ext.at_digest, root);
        },
      )

  -- The cell after the block: its dirty set is clear if the pages were consumed, and as it was if not.
  abbrev pub Cleaned : Result SupervisorError (Unit {0}) → Cell B → Cell B → Type 0
  Cleaned (ok _) c c' = Cleared c.memory.dirty.capacity_pages c'.memory.dirty
  Cleaned (err _) c c' = c'.memory ≡ c.memory

  settled_lem :
      (tick : ℕ) (digest : B.Hash) (held : ℕ → ℕ) (c c' : Cell B)
      (answer : Result SupervisorError (Unit {0})) (ring : Option (DeltaRing Q))
      → c'.memory ≡ c.memory
      → IsReadable c.memory
      → Taken tick digest held c c'
      → Taken tick digest held c (settled B Q c' (answer, ring)).1
        × Cleaned answer c (settled B Q c' (answer, ring)).1
  unfolding settled clear_cell_dirty_pages
  settled_lem tick digest held c c' (err e) ring same r t = (t, same)
  settled_lem tick digest held c c' (ok u) ring same r t =
      let cleared = clear_all_lem c'.memory.dirty (rw same r.dirty_valid) in
      (
        record {
          memory_kept = ap (λ (m : MmapGuardedMemory). record m { dirty = c.memory.dirty }) same;
          at_tick = t.at_tick;
          valid = record {
            readable = record {
              bounds = record {
                quota_fits = rw same r.bounds.quota_fits;
                size_le = rw same r.bounds.size_le;
                guarded = rw same r.bounds.guarded;
              };
              dirty_valid = cleared.valid;
              inside = λ i e. absurd (cc (cleared.none_dirty i, e));
            };
            tree_valid = t.valid.tree_valid;
            chained = t.valid.chained;
            ticks = t.valid.ticks;
            committed = (pages_of held, t.tracks, λ i e. refl);
          };
          tracks = t.tracks;
          newest = t.newest;
        },
        subst (λ (n : ℕ). Cleared n (clear_all c'.memory.dirty))
            (ap (λ (m : MmapGuardedMemory). m.dirty.capacity_pages) same) cleared,
      )

  settled-answer :
      (c : Cell B) (answer : Result SupervisorError (Unit {0})) (ring : Option (DeltaRing Q))
      → ((settled B Q c (answer, ring)).0 ≡ answer) × ((settled B Q c (answer, ring)).2 ≡ ring)
  unfolding settled
  settled-answer c (ok u) ring = (refl, refl)
  settled-answer c (err e) ring = (refl, refl)

  -- What the block of a due cell does: the checkpoint is of the whole memory as it is, the dirty pages
  -- went to the ring or were refused, and they are clean only if they were consumed.
  pub record Settled (outcome : DispatchOutcome) (digest : B.Hash) (held : ℕ → ℕ) (c : Cell B)
      (replication : Option (DeltaRing Q)) (answer : Result SupervisorError (Unit {0}))
      (c' : Cell B) (ring : Option (DeltaRing Q)) : Type 0 where
    pub taken : Taken outcome.tick digest held c c'
    pub sent : Sent B Q outcome held (iter_dirty c.memory.dirty) replication answer ring
    pub cleaned : Cleaned answer c c'

  -- On a well-formed cell whose memory is of whole pages the block does not panic.
  pub checkpoint_and_flush_lem :
      (p : Profile) (outcome : DispatchOutcome) (digest : B.Hash) (held : ℕ → ℕ) (c : Cell B)
      (replication : Option (DeltaRing Q))
      → outcome.tick < u64
      → IsPaged c.memory.size_bytes
      → IsValid B c held
      → (x : Result SupervisorError (Unit {0}) × Cell B × Option (DeltaRing Q))
        × (checkpoint_and_flush B Q p outcome digest held c replication ≡ some x)
        × Settled outcome digest held c replication x.0 x.1 x.2
  unfolding checkpoint_and_flush
  checkpoint_and_flush_lem p outcome digest held c replication fits paged v =
      let (c₁, takes, same, taken) =
        take_checkpoint_lem p outcome.tick digest held c fits paged v in
      let ((answer, ring), flushes, sent) =
        flush_lem B Q p outcome held c.memory (iter_dirty c.memory.dirty) replication
          (dirty-Readable p held c.memory paged v.readable) in
      let (taken', cleaned) =
        settled_lem outcome.tick digest held c c₁ answer ring same v.readable taken in
      let (answer_kept, ring_kept) = settled-answer c₁ answer ring in
      (
        settled B Q c₁ (answer, ring),
        rw (takes, same, flushes),
        record {
          taken = taken';
          sent = rw (answer_kept, ring_kept) sent;
          cleaned = rw answer_kept cleaned;
        },
      )
