-- ===== src/EventLog/Examples.antt =====
-- The recorder at concrete calls.
use chronos_uvm.Prelude.{ℕ, ◌+◌, ◌/◌, ◌≤◌, ◌≡◌, refl, some, List, [], ◌∷◌, debug, arith, length}
use mathlib.Core.List.{reverse}
use mathlib.Core.List.Permᴰ
use chronos_uvm.Prelude.Result.{ok}
use chronos_uvm.EventLog.{
  recording, new, EventRecorder, export_log, from_replay_log, replaying, ReplayEntry,
}
use chronos_uvm.EventLog.Source.{event_recorder}
use chronos_uvm.EventLog.Runs.{Call, now, draw, Source, Reply, time, run}
use chronos_uvm.EventLog.Replay.{answers, Replayable, record_then_replay}
use chronos_uvm.EventLog.Guest.{Ask, clock, random, made, drive, drive_replays}
use chronos_uvm.EventLog.Isolation.{replay_isolated}

abbrev filled : ℕ → List ℕ → List ℕ
filled v [] = []
filled v (x ∷ buf) = v ∷ filled v buf

length-filled : (v : ℕ) (buf : List ℕ) → length (filled v buf) ≡ length buf
length-filled v [] = refl
length-filled v (x ∷ buf) = rw (length-filled v buf)

-- A host whose clock and bytes depend on the call, and a host that is always at the same time.
abbrev live : ℕ → Source
live i = record { real_now = 100 + i; real_random = filled i; keeps_length = length-filled i }

abbrev stopped : ℕ → Source
stopped i = record { real_now = 7; real_random = filled 9; keeps_length = length-filled 9 }

abbrev calls : List Call
calls = now 1 ∷ now 1 ∷ draw 2 (0 ∷ 0 ∷ []) ∷ now 5 ∷ []

record_then_replay_example : (r : EventRecorder) × Replayable debug live stopped calls r
record_then_replay_example =
    record_then_replay debug live stopped calls
      (omega arith, (omega arith, (omega arith, (omega arith, tt)))) (omega arith)

abbrev replayer : EventRecorder
replayer =
    from_replay_log ((1, 0, ReplayEntry.clock 100) ∷ (2, 0, ReplayEntry.random (4 ∷ [])) ∷ [])

replayer-mode : replayer.mode ≡ replaying
unfolding from_replay_log
replayer-mode = refl

replay_isolated_example :
    run (event_recorder debug) live 0 calls replayer
    ≡ run (event_recorder debug) stopped 3 calls replayer
replay_isolated_example = replay_isolated debug live stopped 0 3 calls replayer replayer-mode

-- A guest that reads the clock, and draws a byte once it knows the time.
abbrev asks : List Reply → Ask
asks [] = clock
asks (time (ok t) ∷ past) = random (t ∷ [])
asks (reply ∷ past) = clock

abbrev ticks : ℕ → ℕ
ticks i = i / 2

ticks-up : (i : ℕ) → ticks i ≤ ticks (i + 1)
ticks-up i = omega arith

drive_replays_example :
    (replies : List Reply) × (r : EventRecorder) × (s : EventRecorder) × (replies
      ≡ answers live 0 (made ticks asks live 0 5 []))
    × (drive ticks asks (event_recorder debug) live 0 5 [] (new recording) ≡ some (replies, r))
    × (drive ticks asks
          (event_recorder debug)
          stopped
          0
          5
          []
          (from_replay_log (reverse (export_log r)))
        ≡ some (replies, s))
drive_replays_example =
    drive_replays ticks asks debug live stopped 5 reverse ticks-up (omega arith)
      (λ entries. ∣ Permᴰ.reverse entries ∣₁)
