-- ===== src/Replicate/Pipeline.antt =====
-- The whole path of a delta: the primary's engine, the ring, and the standby.
use chronos_uvm.Prelude.{
  ℕ, ◌+◌, ◌≤◌, ◌≡◌, refl, sym, ap, ◌∙◌, Option, some, List, [], ◌∷◌, ◌++◌, length, length-append,
  ◌>>=◌, arith,
}
use mathlib.Core.List.{append_assoc, append-nil}
use chronos_uvm.Prelude.Result.{Result, ok}
use chronos_uvm.ArrayQueue.{ArrayQueue}
use chronos_uvm.Delta.{DeltaEngine}
use chronos_uvm.Delta.Engine.{IsValid, baseline_of}
use chronos_uvm.Delta.Sync.{Synced, latest}
use chronos_uvm.Replicate.{
  TickBatch, RingError, DeltaRing, StandbyApplyLoop, ApplyError, push, drain,
}
use chronos_uvm.Replicate.Ring.{batches, push_lem, drain_lem}
use chronos_uvm.Replicate.Standby.{
  Ticked, diff_ticks, apply_batches, AreTicks, all_writes, accepts, replicate_ticks,
}

module _ (Q : ArrayQueue TickBatch) where
  open Q use {capacity}

  -- The batches pushed one after the other, and the answers.
  pub push_all :
      List TickBatch → DeltaRing Q → Option (List (Result RingError (Unit {0})) × DeltaRing Q)
  push_all [] r = some ([], r)
  push_all (batch ∷ bs) r = do (o, r) ← push Q batch r; (os, r) ← push_all bs r; some (o ∷ os, r)

  abbrev pub taken : List TickBatch → List (Result RingError (Unit {0}))
  taken [] = []
  taken (_ ∷ bs) = ok tt ∷ taken bs

  -- Batches that the ring has room for are all accepted.
  push_all_lem :
      (bs : List TickBatch) (r : DeltaRing Q)
      → length (batches Q r) + length bs ≤ capacity r.queue
      → (r' : DeltaRing Q) × (push_all bs r ≡ some (taken bs, r'))
        × (batches Q r' ≡ batches Q r ++ bs)
  unfolding push_all
  push_all_lem [] r h = (r, refl, sym (append-nil (batches Q r)))
  push_all_lem (batch ∷ bs) r h =
      let ((o, r₁), done, p) = push_lem Q batch r in
      let (answer, held, _) = p.room (omega arith) in
      let (r', rest, all) =
        push_all_lem bs r₁
          (omega (arith, p.kept.1, ap length held, length-append (batches Q r) (batch ∷ []))) in
      (
        r',
        rw (done, rest, answer),
        all ∙ ap (λ xs. xs ++ bs) held ∙ append_assoc (batches Q r) (batch ∷ []) bs,
      )

  -- The primary diffs and pushes the ticks; the streaming task drains them; the standby applies them.
  pub pipeline :
      List Ticked
      → DeltaEngine
      → DeltaRing Q
      → StandbyApplyLoop
      → Option (List (Result ApplyError (Unit {0})) × DeltaEngine × DeltaRing Q × StandbyApplyLoop)
  pipeline ticks p r s = do
    (bs, p) ← diff_ticks ticks p
    (os, r) ← push_all bs r
    (out, r) ← drain Q r
    (answers, s) ← apply_batches out s
    some (answers, p, r, s)

  -- From engines in step and an empty ring with a place for each tick, over ticks that ascend from
  -- the last one that the standby applied, each of whole pages of indices below the most that a
  -- `Vec` of pages can hold: the whole path runs to its end without a panic, every batch is
  -- accepted by the ring and by the standby, the ring is empty again, the engines are in step, and
  -- the standby holds each page as it was last written.
  pub pipeline_lem :
      (ticks : List Ticked) (p : DeltaEngine) (r : DeltaRing Q) (s : StandbyApplyLoop)
      → IsValid p
      → IsValid s.engine
      → Synced p s.engine
      → AreTicks s.last_applied_tick ticks
      → batches Q r ≡ []
      → length ticks ≤ capacity r.queue
      → (p' : DeltaEngine) × (r' : DeltaRing Q) × (s' : StandbyApplyLoop) × (pipeline ticks p r s
          ≡ some (accepts ticks, p', r', s'))
        × (batches Q r' ≡ [])
        × Synced p' s'.engine
        × ((i : ℕ) → baseline_of s'.engine i ≡ latest (all_writes ticks) i (baseline_of s.engine i))
  unfolding pipeline
  pipeline_lem ticks p r s vp vs h ascending empty room =
      let (bs, p', s', done) = replicate_ticks ticks p s vp vs h ascending in
      let (r₁, pushes, held) = push_all_lem bs r (omega (arith, ap length empty, done.as_many)) in
      let ((out, r'), drains, same, left, _) = drain_lem Q r₁ in
      let all : out ≡ bs = same ∙ held ∙ ap (λ xs. xs ++ bs) empty in
      (
        p',
        r',
        s',
        rw (done.diffed, pushes, drains, all, done.applied),
        left,
        done.synced,
        done.pages,
      )
