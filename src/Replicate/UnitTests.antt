-- ===== src/Replicate/UnitTests.antt =====
-- The unit tests of chronos-replicate/src/lib.rs, on the model, with the bounded queue of
-- ArrayQueue/Bounded.antt for that of crossbeam.
use chronos_uvm.Prelude.{
  dec_lt, ℕ, Bool, true, false, ◌&&◌, ◌==◌, ◌≡◌, refl, Option, some, List, [], ◌∷◌, replicate,
  ◌>>=◌,
}
use chronos_uvm.Prelude.Result.{Result, ok, err}
use chronos_uvm.Page.{zero_page}
use chronos_uvm.ArrayQueue.Bounded.{slots, put_if, take_front}
use chronos_uvm.Delta.{raw, apply}
use chronos_uvm.Delta
use chronos_uvm.Replicate.{
  TickBatch, RingError, full, ApplyError, out_of_order, new, push, drain, new_standby, apply_batch,
}

abbrev batch : ℕ → TickBatch
batch tick = record { tick = tick; deltas = [] }

abbrev has_ticks : List TickBatch → List ℕ → Bool
has_ticks [] [] = true
has_ticks (b ∷ bs) (t ∷ ts) = b.tick == t && has_ticks bs ts
has_ticks _ _ = false

push_and_drain_preserves_order : Option Bool
unfolding new push drain
push_and_drain_preserves_order = do
  ring ← new (slots TickBatch) 64 8
  (a, ring) ← push (slots TickBatch) (batch 1) ring
  (b, ring) ← push (slots TickBatch) (batch 2) ring
  (c, ring) ← push (slots TickBatch) (batch 3) ring
  (drained, ring) ← drain (slots TickBatch) ring
  some (has_ticks drained (1 ∷ 2 ∷ 3 ∷ []))

abbrev is_full : Result RingError (Unit {0}) → Bool
is_full (err (full capacity)) = true
is_full (ok u) = false

full_ring_surfaces_backpressure : Option Bool
unfolding new push
full_ring_surfaces_backpressure = do
  ring ← new (slots TickBatch) 64 1
  (first, ring) ← push (slots TickBatch) (batch 1) ring
  (second, ring) ← push (slots TickBatch) (batch 2) ring
  some (is_full second)

abbrev is_out_of_order : Result ApplyError (Unit {0}) → Bool
is_out_of_order (err (out_of_order last tick)) = true
is_out_of_order (ok u) = false

standby_rejects_out_of_order_batches : Option Bool
unfolding new_standby apply_batch
standby_rejects_out_of_order_batches = do
  standby ← new_standby 4
  (first, standby) ←
      apply_batch (record { tick = 5; deltas = raw 0 (1 ∷ replicate (4095) 0) ∷ [] }) standby
  (stale, standby) ← apply_batch (batch 3) standby
  some (is_out_of_order stale)

unit_tests_pass :
    (push_and_drain_preserves_order ≡ some true)
    × (full_ring_surfaces_backpressure ≡ some true)
    × (standby_rejects_out_of_order_batches ≡ some true)
unfolding push_and_drain_preserves_order full_ring_surfaces_backpressure
    standby_rejects_out_of_order_batches put_if take_front dec_lt Delta.new apply zero_page
unit_tests_pass = (refl, refl, refl)
