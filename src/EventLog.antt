-- ===== src/EventLog.antt =====
-- chronos-core/src/event_log.rs: the recorder of the host's answers, and their replay.
-- A closure that the code may call is the answer that it would give. A method returns its result
-- and the new recorder; `none` is a panic, of the overflow check on the ordinal.
pub mod Source
pub mod Runs
pub mod Log
pub mod Replay
pub mod Order
pub mod Guest
pub mod Isolation
mod UnitTests
pub mod Examples
use chronos_uvm.Prelude.{
  ℕ, ◌+◌, ◌≡◌, Option, none, some, List, [], ◌∷◌, map, length, ◌==◌, if◌then◌else◌, Profile, ◌>>=◌,
  add_word, u64, ℕ_discrete,
}
use chronos_uvm.Prelude.Result.{Result, ok, err}
use chronos_uvm.Prelude.Maps.{HashMap, get, insert}

pub data RecorderMode : Type 0 where
  recording replaying : RecorderMode

pub record EventKey : Type 0 where
  pub tick : ℕ
  pub call_ordinal : ℕ

pub same_key : Discrete EventKey
unfolding ℕ_discrete
same_key = hlevel ℕ_discrete

pub data RecordedValue : Type 0 where
  clock : ℕ → RecordedValue
  random : List ℕ → RecordedValue

pub data ReplayEntry : Type 0 where
  clock : ℕ → ReplayEntry
  random : List ℕ → ReplayEntry

pub data ReplayError : Type 0 where
  missing_entry type_mismatch : ℕ → ℕ → ReplayError

pub record EventRecorder : Type 0 where
  pub mode : RecorderMode
  pub log : HashMap EventKey RecordedValue
  pub current_tick : ℕ
  pub current_ordinal : ℕ

unfoldable pub new : RecorderMode → EventRecorder
new mode = record { mode = mode; log = []; current_tick = 0; current_ordinal = 0 }

pub to_recorded : ReplayEntry → RecordedValue
to_recorded (ReplayEntry.clock v) = RecordedValue.clock v
to_recorded (ReplayEntry.random v) = RecordedValue.random v

pub to_entry : RecordedValue → ReplayEntry
to_entry (RecordedValue.clock c) = ReplayEntry.clock c
to_entry (RecordedValue.random r) = ReplayEntry.random r

-- `for (tick, ordinal, entry) in entries { log.insert(..) }`
pub load :
    List (ℕ × ℕ × ReplayEntry) → HashMap EventKey RecordedValue → HashMap EventKey RecordedValue
unfolding to_recorded same_key
load [] log = log
load ((tick, ordinal, entry) ∷ entries) log =
    load entries
      (insert same_key (record { tick = tick; call_ordinal = ordinal }) (to_recorded entry) log)

pub from_replay_log : List (ℕ × ℕ × ReplayEntry) → EventRecorder
unfolding load
from_replay_log entries = record {
  mode = replaying;
  log = load entries [];
  current_tick = 0;
  current_ordinal = 0;
}

pub export_entry : EventKey × RecordedValue → ℕ × ℕ × ReplayEntry
unfolding to_entry
export_entry (k, v) = (k.tick, k.call_ordinal, to_entry v)

pub export_log : EventRecorder → List (ℕ × ℕ × ReplayEntry)
unfolding export_entry
export_log r = map export_entry r.log

pub next_ordinal : Profile → ℕ → EventRecorder → Option (ℕ × EventRecorder)
next_ordinal p tick r = do
  let ordinal = if tick == r.current_tick then r.current_ordinal else 0
  next ← add_word p u64 ordinal 1
  some (ordinal, record r { current_tick = tick; current_ordinal = next })

-- The answer of a clock read in replay, from what the log holds.
pub replay_clock : ℕ → ℕ → Option RecordedValue → Result ReplayError ℕ
replay_clock tick ordinal (some (RecordedValue.clock v)) = ok v
replay_clock tick ordinal (some (RecordedValue.random _)) = err (type_mismatch tick ordinal)
replay_clock tick ordinal none = err (missing_entry tick ordinal)

-- The `match self.mode` of `wall_clock_now`.
pub clock_by_mode :
    RecorderMode → EventKey → ℕ → EventRecorder → Result ReplayError ℕ × EventRecorder
unfolding replay_clock same_key
clock_by_mode recording key now r =
    (ok now, record r { log = insert same_key key (RecordedValue.clock now) r.log })
clock_by_mode replaying key now r =
    (replay_clock key.tick key.call_ordinal (get same_key key r.log), r)

pub wall_clock_now : Profile → ℕ → ℕ → EventRecorder → Option (Result ReplayError ℕ × EventRecorder)
unfolding next_ordinal clock_by_mode
wall_clock_now p tick real_now r = do
  (ordinal, r) ← next_ordinal p tick r
  some (clock_by_mode r.mode (record { tick = tick; call_ordinal = ordinal }) real_now r)

-- The buffer after a draw in replay, from what the log holds.
pub replay_random : ℕ → ℕ → List ℕ → Option RecordedValue → Result ReplayError (List ℕ)
replay_random tick ordinal buf (some (RecordedValue.random v)) =
    if length v == length buf then ok v else err (type_mismatch tick ordinal)
replay_random tick ordinal buf (some (RecordedValue.clock _)) = err (type_mismatch tick ordinal)
replay_random tick ordinal buf none = err (missing_entry tick ordinal)

pub random_by_mode :
    RecorderMode
    → EventKey
    → List ℕ
    → (List ℕ → List ℕ)
    → EventRecorder
    → Result ReplayError (List ℕ) × EventRecorder
unfolding replay_random same_key
random_by_mode recording key buf fill r =
    (ok (fill buf), record r { log = insert same_key key (RecordedValue.random (fill buf)) r.log })
random_by_mode replaying key buf fill r =
    (replay_random key.tick key.call_ordinal buf (get same_key key r.log), r)

-- The `ok` result is the buffer as it is filled; on an error it is left as it was.
pub random_bytes :
    Profile
    → ℕ
    → List ℕ
    → (List ℕ → List ℕ)
    → EventRecorder
    → Option (Result ReplayError (List ℕ) × EventRecorder)
unfolding next_ordinal random_by_mode
random_bytes p tick buf real_random r = do
  (ordinal, r) ← next_ordinal p tick r
  some (random_by_mode r.mode (record { tick = tick; call_ordinal = ordinal }) buf real_random r)
