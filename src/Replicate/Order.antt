-- ===== src/Replicate/Order.antt =====
-- The standby on batches that may come in any order.
use chronos_uvm.Prelude.{◌≤◌, ◌<◌, ◌≡◌, refl, some, List, [], ◌∷◌, arith, dec_lt}
use chronos_uvm.Prelude.Result.{Result, ok, err}
use chronos_uvm.Delta.{PageDelta, DeltaEngine}
use chronos_uvm.Delta.Engine.{IsValid}
use chronos_uvm.Delta.Total.{IsDelta, apply_any}
use chronos_uvm.Replicate.{
  TickBatch, StandbyApplyLoop, ApplyError, out_of_order, apply_deltas, apply_batch,
}
use chronos_uvm.Replicate.Standby.{apply_batches, apply_batch_fresh}

abbrev pub AreDeltas : List PageDelta → Type 0
AreDeltas [] = Unit
AreDeltas (delta ∷ deltas) = IsDelta delta × AreDeltas deltas

apply_deltas_any :
    (deltas : List PageDelta) (s : DeltaEngine)
    → IsValid s
    → AreDeltas deltas
    → (s' : DeltaEngine) × (apply_deltas deltas s ≡ some s') × IsValid s'
unfolding apply_deltas
apply_deltas_any [] s v h = (s, refl, v)
apply_deltas_any (delta ∷ deltas) s v h =
    let (page, s₁, done, c) = apply_any delta s v h.0 in
    let (s', rest, valid) = apply_deltas_any deltas s₁ c.valid h.1 in (s', rw (done, rest), valid)

-- Batches of a primary, whose ticks begin at 1.
abbrev pub AreBatches : List TickBatch → Type 0
AreBatches [] = Unit
AreBatches (batch ∷ batches) = (0 < batch.tick) × AreDeltas batch.deltas × AreBatches batches

-- The answers are right from the state `s` on, and the state that is left is `s'`: an accepted batch
-- moves its tick and its deltas, and a refused one nothing.
abbrev pub AreAnswers :
    StandbyApplyLoop
    → List TickBatch
    → List (Result ApplyError (Unit {0}))
    → StandbyApplyLoop
    → Type 0
AreAnswers s [] [] s' = s' ≡ s
AreAnswers s (batch ∷ batches) (ok _ ∷ answers) s' =
    (s.last_applied_tick < batch.tick)
    × (e : DeltaEngine) × (apply_deltas batch.deltas s.engine ≡ some e)
    × AreAnswers (record { engine = e; last_applied_tick = batch.tick }) batches answers s'
AreAnswers s (batch ∷ batches) (err (out_of_order expected_after got) ∷ answers) s' =
    (batch.tick ≤ s.last_applied_tick)
    × (expected_after ≡ s.last_applied_tick)
    × (got ≡ batch.tick)
    × AreAnswers s batches answers s'
AreAnswers s _ _ s' = ⊥

-- Whatever batches come in whatever order, repeated and late ones included, with ticks from 1 on and
-- deltas that name a page below the most that a `Vec` of pages can hold and bear a whole page where
-- they are raw: the standby does not panic and its engine stays well formed. A batch is accepted
-- exactly when its tick is above the last that the standby applied, and its deltas are then applied; it is otherwise refused with the two ticks in the error, and leaves the standby as it was.
pub apply_batches_any :
    (batches : List TickBatch) (s : StandbyApplyLoop)
    → IsValid s.engine
    → AreBatches batches
    → (answers : List (Result ApplyError (Unit {0}))) × (s' : StandbyApplyLoop) × (apply_batches
          batches s
        ≡ some (answers, s'))
      × IsValid s'.engine
      × AreAnswers s batches answers s'
unfolding apply_batches apply_batch
apply_batches_any [] s v h = ([], s, refl, v, refl)
apply_batches_any (batch ∷ batches) s v (positive, deltas, more) =
    split (dec_lt s.last_applied_tick batch.tick) (λ s v. apply_batches_any batches s v more)
  where
    stale :
        ¬ (s.last_applied_tick < batch.tick)
        → apply_batch batch s ≡ some (err (out_of_order s.last_applied_tick batch.tick), s)
    stale n = ground (arith, positive)

    split :
        Dec (s.last_applied_tick < batch.tick)
        → ((s : StandbyApplyLoop)
            → IsValid s.engine
            → (answers : List (Result ApplyError (Unit {0}))) × (s' : StandbyApplyLoop)
              × (apply_batches batches s ≡ some (answers, s'))
              × IsValid s'.engine
              × AreAnswers s batches answers s')
        → (answers : List (Result ApplyError (Unit {0}))) × (s' : StandbyApplyLoop) × (apply_batches
              (batch ∷ batches)
              s
            ≡ some (answers, s'))
          × IsValid s'.engine
          × AreAnswers s (batch ∷ batches) answers s'
    split (yes later) ih =
        let (e, done, valid) = apply_deltas_any batch.deltas s.engine v deltas in
        let (answers, s', rest, valid', right) =
          ih (record { engine = e; last_applied_tick = batch.tick }) valid in
        (
          ok tt ∷ answers,
          s',
          rw (apply_batch_fresh batch s e later done, rest),
          valid',
          (later, e, done, right),
        )
    split (no n) ih =
        let (answers, s', rest, valid', right) = ih s v in
        (
          err (out_of_order s.last_applied_tick batch.tick) ∷ answers,
          s',
          rw (stale n, rest),
          valid',
          (omega arith, refl, refl, right),
        )
