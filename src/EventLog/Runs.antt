-- ===== src/EventLog/Runs.antt =====
-- Sequences of host calls on a source, as a cell makes them, and on the recorder.
use chronos_uvm.Prelude.{
  ℕ, ◌+◌, ◌≤◌, ◌<◌, ◌≡◌, refl, Option, some, List, [], ◌∷◌, length, ◌==◌, if◌then◌else◌, Profile,
  ◌>>=◌, add_word_fits, u64, arith,
}
use chronos_uvm.Prelude.Result.{Result, ok}
use chronos_uvm.Prelude.Maps.{HashMap, get, insert}
use chronos_uvm.EventLog.Source.{NonDeterminismSource, event_recorder}
use chronos_uvm.EventLog.{
  recording, replaying, EventKey, same_key, RecordedValue, ReplayError, EventRecorder, next_ordinal,
  wall_clock_now, random_bytes, replay_clock, replay_random,
}

-- A clock read, or a draw into a buffer, at a tick.
pub data Call : Type 0 where
  now : ℕ → Call
  draw : ℕ → List ℕ → Call

abbrev pub tick_of : Call → ℕ
tick_of (now tick) = tick
tick_of (draw tick buf) = tick

-- A host: what its clock and its generator answer a call. A slice keeps its length.
pub record Source : Type 0 where
  pub real_now : ℕ
  pub real_random : List ℕ → List ℕ
  pub keeps_length : (buf : List ℕ) → length (real_random buf) ≡ length buf

pub data Reply : Type 0 where
  time : Result ReplayError ℕ → Reply
  bytes : Result ReplayError (List ℕ) → Reply

module _ (N : NonDeterminismSource) where
  unfoldable pub call : Source → Call → N.State → Option (Reply × N.State)
  call src (now tick) s = do (t, s) ← N.wall_clock_now tick src.real_now s; some (time t, s)
  call src (draw tick buf) s = do
    (b, s) ← N.random_bytes tick buf src.real_random s
    some (bytes b, s)

  -- The calls in order; `src i` is the host at the `i`-th of them.
  unfoldable pub run : (ℕ → Source) → ℕ → List Call → N.State → Option (List Reply × N.State)
  unfolding call
  run src i [] s = some ([], s)
  run src i (c ∷ calls) s = do
    (reply, s) ← call (src i) c s
    (replies, s) ← run src (i + 1) calls s
    some (reply ∷ replies, s)

-- The ticks never go back, as those of the one logical clock.
abbrev pub IsOrdered : ℕ → List Call → Type 0
IsOrdered t [] = Unit
IsOrdered t (c ∷ calls) = (t ≤ tick_of c) × IsOrdered (tick_of c) calls

abbrev pub key_at : EventRecorder → ℕ → EventKey
key_at r tick = record {
  tick = tick;
  call_ordinal = if tick == r.current_tick then r.current_ordinal else 0;
}

-- The counters after a call at `tick`, with the log `log`.
abbrev pub advanced : EventRecorder → ℕ → HashMap EventKey RecordedValue → EventRecorder
advanced r tick log = record {
  mode = r.mode;
  log = log;
  current_tick = tick;
  current_ordinal = (key_at r tick).call_ordinal + 1;
}

next_ordinal_lem :
    (p : Profile) (tick : ℕ) (r : EventRecorder)
    → r.current_ordinal + 1 < u64
    → next_ordinal p tick r ≡ some ((key_at r tick).call_ordinal, advanced r tick r.log)
unfolding next_ordinal
next_ordinal_lem p tick r h =
    rw (
      add_word_fits p u64 (if tick == r.current_tick then r.current_ordinal else 0) 1
        (ground arith))

-- What a host answers, and what of it goes into the log.
abbrev pub answer : Source → Call → Reply
answer src (now tick) = time (ok src.real_now)
answer src (draw tick buf) = bytes (ok (src.real_random buf))

abbrev pub value : Source → Call → RecordedValue
value src (now tick) = RecordedValue.clock src.real_now
value src (draw tick buf) = RecordedValue.random (src.real_random buf)

abbrev pub replayed : Call → EventKey → Option RecordedValue → Reply
replayed (now tick) k o = time (replay_clock k.tick k.call_ordinal o)
replayed (draw tick buf) k o = bytes (replay_random k.tick k.call_ordinal buf o)

module _ (p : Profile) (src : Source) (r : EventRecorder) (room : r.current_ordinal + 1 < u64) where
  -- Recording: the host's answer is returned and logged under the call's key.
  pub call-recording :
      (c : Call)
      → r.mode ≡ recording
      → call (event_recorder p) src c r
        ≡ some (
          answer src c,
          advanced r (tick_of c) (insert same_key (key_at r (tick_of c)) (value src c) r.log),
        )
  unfolding call wall_clock_now random_bytes
  call-recording (now tick) m = rw (next_ordinal_lem p tick r room, m)
  call-recording (draw tick buf) m = rw (next_ordinal_lem p tick r room, m)

  -- Replaying: the answer comes from the log alone.
  pub call-replaying :
      (c : Call)
      → r.mode ≡ replaying
      → call (event_recorder p) src c r
        ≡ some (
          replayed c (key_at r (tick_of c)) (get same_key (key_at r (tick_of c)) r.log),
          advanced r (tick_of c) r.log,
        )
  unfolding call wall_clock_now random_bytes
  call-replaying (now tick) m = rw (next_ordinal_lem p tick r room, m)
  call-replaying (draw tick buf) m = rw (next_ordinal_lem p tick r room, m)

-- What was logged is what a replay answers.
pub replayed-value :
    (src : Source) (c : Call) (k : EventKey) → replayed c k (some (value src c)) ≡ answer src c
unfolding replay_clock replay_random
replayed-value src (now tick) k = refl
replayed-value src (draw tick buf) k = ground (arith, src.keeps_length buf)
