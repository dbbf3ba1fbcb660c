-- ===== src/Replicate/Examples.antt =====
-- The ring and the standby at concrete batches.
use chronos_uvm.Prelude.{
  ℕ, ◌≡◌, refl, some, List, [], ◌∷◌, ◌++◌, length, length-replicate, replicate, arith,
}
use chronos_uvm.Prelude.Result.{Result}
use chronos_uvm.Page.{page_size}
use chronos_uvm.ArrayQueue.Bounded.{slots}
use chronos_uvm.Delta.{raw, xor, DeltaEngine}
use chronos_uvm.Delta.Engine.{IsValid, baseline_of}
use chronos_uvm.Delta.Sync.{Synced, latest}
use chronos_uvm.Replicate.{
  TickBatch, RingError, ApplyError, DeltaRing, StandbyApplyLoop, push, drain,
}
use chronos_uvm.Replicate.Ring.{batches, Pushed, push_lem, drain_lem}
use chronos_uvm.Replicate.Exchange.{
  RingStep, produce, consume, Exchange, exchange, exchange_in_order,
}
use chronos_uvm.Replicate.Standby.{Ticked, AreTicks, all_writes, accepts, apply_batches}
use chronos_uvm.Replicate.Order.{AreAnswers, apply_batches_any}
use chronos_uvm.Replicate.Pipeline.{pipeline, pipeline_lem}

unfoldable ones : List ℕ
ones = replicate page_size 1

length-ones : length ones ≡ page_size
unfolding ones
length-ones = length-replicate {A = ℕ} page_size 1

abbrev blank : DeltaEngine
blank = record { baseline = []; have_baseline = [] }

blank-IsValid : IsValid blank
blank-IsValid = record { same = refl; pages = tt }

blank-Synced : Synced blank blank
blank-Synced i page h = h

abbrev standby : StandbyApplyLoop
standby = record { engine = blank; last_applied_tick = 0 }

-- A ring of two places.
abbrev ring : DeltaRing (slots TickBatch)
ring = record {
  queue = record { held = []; room = 2; fits = omega arith };
  address = 64;
  last_pushed_tick = 0;
}

abbrev first_batch : TickBatch
first_batch = record { tick = 1; deltas = raw 0 ones ∷ [] }

abbrev late_batch : TickBatch
late_batch = record { tick = 1; deltas = xor 3 [] ∷ [] }

push_lem_example :
    (x : Result RingError (Unit {0}) × DeltaRing (slots TickBatch)) × (push
        (slots TickBatch)
        first_batch
        ring
      ≡ some x)
    × Pushed (slots TickBatch) first_batch ring x.0 x.1
push_lem_example = push_lem (slots TickBatch) first_batch ring

abbrev steps : List RingStep
steps =
    produce first_batch
    ∷ consume
    ∷ produce late_batch
    ∷ produce late_batch
    ∷ produce first_batch
    ∷ consume
    ∷ []

exchange_in_order_example :
    (x : Exchange (DeltaRing (slots TickBatch))) × (exchange (slots TickBatch) steps ring ≡ some x)
    × (batches (slots TickBatch) ring ++ x.sent ≡ x.out ++ batches (slots TickBatch) x.ring)
exchange_in_order_example = exchange_in_order (slots TickBatch) steps ring

abbrev ticks : List Ticked
ticks = (1, (0, ones) ∷ (3, ones) ∷ []) ∷ (4, (0, ones) ∷ []) ∷ []

ticks-AreTicks : AreTicks 0 ticks
ticks-AreTicks = (
  omega arith,
  (omega arith, length-ones, (omega arith, length-ones, tt)),
  (omega arith, (omega arith, length-ones, tt), tt),
)

pipeline_lem_example :
    (p' : DeltaEngine) × (r' : DeltaRing (slots TickBatch)) × (s' : StandbyApplyLoop) × (pipeline
        (slots TickBatch)
        ticks
        blank
        ring
        standby
      ≡ some (accepts ticks, p', r', s'))
    × (batches (slots TickBatch) r' ≡ [])
    × Synced p' s'.engine
    × ((i : ℕ) → baseline_of s'.engine i ≡ latest (all_writes ticks) i (baseline_of blank i))
pipeline_lem_example =
    pipeline_lem (slots TickBatch) ticks blank ring standby blank-IsValid blank-IsValid blank-Synced
      ticks-AreTicks refl (omega arith)

apply_batches_any_example :
    (answers : List (Result ApplyError (Unit {0}))) × (s' : StandbyApplyLoop) × (apply_batches
        (first_batch ∷ late_batch ∷ [])
        standby
      ≡ some (answers, s'))
    × IsValid s'.engine
    × AreAnswers standby (first_batch ∷ late_batch ∷ []) answers s'
apply_batches_any_example =
    apply_batches_any (first_batch ∷ late_batch ∷ []) standby blank-IsValid
      (omega arith, ((omega arith, length-ones), tt), (omega arith, (omega arith, tt), tt))

-- The same ring, full.
abbrev loaded : DeltaRing (slots TickBatch)
loaded = record {
  queue = record { held = first_batch ∷ late_batch ∷ []; room = 2; fits = omega arith };
  address = 64;
  last_pushed_tick = 1;
}

drain_lem_example :
    (x : List TickBatch × DeltaRing (slots TickBatch)) × (drain (slots TickBatch) loaded ≡ some x)
    × (x.0 ≡ batches (slots TickBatch) loaded)
    × (batches (slots TickBatch) x.1 ≡ [])
    × ((slots TickBatch).capacity x.1.queue ≡ (slots TickBatch).capacity loaded.queue)
drain_lem_example = drain_lem (slots TickBatch) loaded
