-- ===== src/EventLog/UnitTests.antt =====
-- The unit tests of chronos-core/src/event_log.rs, on the model. Each clock read is given what the
-- closure of the test answers at that call.
use chronos_uvm.Prelude.{
  ℕ, Bool, true, false, ◌&&◌, not, ◌==◌, ◌≡◌, refl, Option, some, [], debug, ◌>>=◌, length,
}
use chronos_uvm.Prelude.Result.{Result, ok, err}
use chronos_uvm.Prelude.Maps.{get, insert}
use chronos_uvm.EventLog.{
  recording, ReplayError, missing_entry, new, from_replay_log, export_log, wall_clock_now,
}

abbrev same_time : Result ReplayError ℕ → Result ReplayError ℕ → Bool
same_time (ok a) (ok b) = a == b
same_time _ _ = false

record_then_replay_reproduces_clock_values : Option Bool
unfolding new from_replay_log export_log wall_clock_now
record_then_replay_reproduces_clock_values = do
  (v1, recorder) ← wall_clock_now debug 1 1007 (new recording)
  (v2, recorder) ← wall_clock_now debug 1 1014 recorder
  (r1, replay) ← wall_clock_now debug 1 999999 (from_replay_log (export_log recorder))
  (r2, replay) ← wall_clock_now debug 1 999999 replay
  some (not (same_time v1 v2) && same_time v1 r1 && same_time v2 r2)

abbrev is_missing : Result ReplayError ℕ → Bool
is_missing (err (missing_entry tick ordinal)) = true
is_missing _ = false

replay_missing_entry_is_a_hard_error_not_silent_fallback : Option Bool
unfolding from_replay_log wall_clock_now
replay_missing_entry_is_a_hard_error_not_silent_fallback = do
  (answer, replay) ← wall_clock_now debug 0 42 (from_replay_log [])
  some (is_missing answer)

ordinals_reset_across_ticks : Option Bool
unfolding new wall_clock_now
ordinals_reset_across_ticks = do
  (v1, recorder) ← wall_clock_now debug 1 1 (new recording)
  (v2, recorder) ← wall_clock_now debug 1 1 recorder
  (v3, recorder) ← wall_clock_now debug 2 1 recorder
  some (length recorder.log == 3)

unit_tests_pass :
    (record_then_replay_reproduces_clock_values ≡ some true)
    × (replay_missing_entry_is_a_hard_error_not_silent_fallback ≡ some true)
    × (ordinals_reset_across_ticks ≡ some true)
unfolding record_then_replay_reproduces_clock_values ordinals_reset_across_ticks
    replay_missing_entry_is_a_hard_error_not_silent_fallback get insert
unit_tests_pass = (refl, refl, refl)
