-- ===== src/EventLog/Isolation.antt =====
-- A replay takes nothing from its own host.
use chronos_uvm.Prelude.{
  ℕ, ◌+◌, ◌≡◌, refl, ap, Option, none, some, List, [], ◌∷◌, ◌==◌, if◌then◌else◌, Profile, ◌>>=◌,
  add_word, u64,
}
use chronos_uvm.Prelude.Result.{Result}
use chronos_uvm.EventLog.{
  replaying, EventKey, ReplayError, EventRecorder, next_ordinal, wall_clock_now, random_bytes,
  clock_by_mode, random_by_mode,
}
use chronos_uvm.EventLog.Source.{event_recorder}
use chronos_uvm.EventLog.Runs.{Call, now, draw, Source, Reply, time, bytes, call, run}

abbrev StaysReplaying : Option (Reply × EventRecorder) → Type 0
StaysReplaying none = Unit
StaysReplaying (some (reply, r)) = r.mode ≡ replaying

abbrev NextReplaying : Option (ℕ × EventRecorder) → Type 0
NextReplaying none = Unit
NextReplaying (some (n, r)) = r.mode ≡ replaying

-- The counters move alike in either mode, and the mode stays.
next_ordinal-NextReplaying :
    (p : Profile) (tick : ℕ) (r : EventRecorder)
    → r.mode ≡ replaying
    → NextReplaying (next_ordinal p tick r)
unfolding next_ordinal
next_ordinal-NextReplaying p tick r m =
    elim (add_word p u64 (if tick == r.current_tick then r.current_ordinal else 0) 1)
      as (λ o. NextReplaying (
        o >>= λ next. some (
          if tick == r.current_tick then r.current_ordinal else 0,
          record r { current_tick = tick; current_ordinal = next },
        ))) [ none ↦ tt | some n ↦ m ]

-- The key of the call whose ordinal was handed out.
abbrev keyed : ℕ → ℕ → EventKey
keyed tick ordinal = record { tick = tick; call_ordinal = ordinal }

abbrev clocked : ℕ → ℕ → ℕ × EventRecorder → Option (Result ReplayError ℕ × EventRecorder)
clocked tick real (ordinal, r) = some (clock_by_mode r.mode (keyed tick ordinal) real r)

abbrev drawn :
    ℕ
    → List ℕ
    → (List ℕ → List ℕ)
    → ℕ × EventRecorder
    → Option (Result ReplayError (List ℕ) × EventRecorder)
drawn tick buf real (ordinal, r) = some (random_by_mode r.mode (keyed tick ordinal) buf real r)

next-clocked :
    (tick a b : ℕ) (o : Option (ℕ × EventRecorder))
    → NextReplaying o
    → (o >>= clocked tick a) ≡ (o >>= clocked tick b)
unfolding clock_by_mode
next-clocked tick a b none m = refl
next-clocked tick a b (some (n, r)) m = rw m

next-drawn :
    (tick : ℕ) (buf : List ℕ) (a b : List ℕ → List ℕ) (o : Option (ℕ × EventRecorder))
    → NextReplaying o
    → (o >>= drawn tick buf a) ≡ (o >>= drawn tick buf b)
unfolding random_by_mode
next-drawn tick buf a b none m = refl
next-drawn tick buf a b (some (n, r)) m = rw m

clocked-StaysReplaying :
    (tick a : ℕ) (o : Option (ℕ × EventRecorder))
    → NextReplaying o
    → StaysReplaying ((o >>= clocked tick a) >>= λ (t, r). some (time t, r))
unfolding clock_by_mode
clocked-StaysReplaying tick a none m = tt
clocked-StaysReplaying tick a (some (n, r)) m = rw m

drawn-StaysReplaying :
    (tick : ℕ) (buf : List ℕ) (a : List ℕ → List ℕ) (o : Option (ℕ × EventRecorder))
    → NextReplaying o
    → StaysReplaying ((o >>= drawn tick buf a) >>= λ (b, r). some (bytes b, r))
unfolding random_by_mode
drawn-StaysReplaying tick buf a none m = tt
drawn-StaysReplaying tick buf a (some (n, r)) m = rw m

call-same :
    (p : Profile) (src other : Source) (c : Call) (r : EventRecorder)
    → r.mode ≡ replaying
    → call (event_recorder p) src c r ≡ call (event_recorder p) other c r
unfolding call wall_clock_now random_bytes
call-same p src other (now tick) r m =
    ap (λ o. o >>= λ (t, r). some (time t, r))
      (next-clocked tick src.real_now other.real_now (next_ordinal p tick r)
        (next_ordinal-NextReplaying p tick r m))
call-same p src other (draw tick buf) r m =
    ap (λ o. o >>= λ (b, r). some (bytes b, r))
      (next-drawn tick buf src.real_random other.real_random (next_ordinal p tick r)
        (next_ordinal-NextReplaying p tick r m))

call-StaysReplaying :
    (p : Profile) (src : Source) (c : Call) (r : EventRecorder)
    → r.mode ≡ replaying
    → StaysReplaying (call (event_recorder p) src c r)
unfolding call wall_clock_now random_bytes
call-StaysReplaying p src (now tick) r m =
    clocked-StaysReplaying tick src.real_now (next_ordinal p tick r)
      (next_ordinal-NextReplaying p tick r m)
call-StaysReplaying p src (draw tick buf) r m =
    drawn-StaysReplaying tick buf src.real_random (next_ordinal p tick r)
      (next_ordinal-NextReplaying p tick r m)

abbrev consed : Reply → List Reply × EventRecorder → Option (List Reply × EventRecorder)
consed reply (replies, r) = some (reply ∷ replies, r)

-- A recorder in replay mode, with any log, gives every sequence of calls the same replies, errors
-- and panics whatever its host would answer: a value that is missing from the log is never taken
-- from the host.
pub replay_isolated :
    (p : Profile) (src other : ℕ → Source) (i j : ℕ) (calls : List Call) (r : EventRecorder)
    → r.mode ≡ replaying
    → run (event_recorder p) src i calls r ≡ run (event_recorder p) other j calls r
unfolding run
replay_isolated p src other i j [] r m = refl
replay_isolated p src other i j (c ∷ calls) r m = rw (call-same p (src i) (other j) c r m) (
    rest (call (event_recorder p) (other j) c r) (call-StaysReplaying p (other j) c r m)
      (λ r m. replay_isolated p src other (i + 1) (j + 1) calls r m))
  where
    rest :
        (o : Option (Reply × EventRecorder))
        → StaysReplaying o
        → ((r : EventRecorder)
            → r.mode ≡ replaying
            → run (event_recorder p) src (i + 1) calls r
              ≡ run (event_recorder p) other (j + 1) calls r)
        → (o >>= λ (reply, r). run (event_recorder p) src (i + 1) calls r >>= consed reply)
          ≡ (o >>= λ (reply, r). run (event_recorder p) other (j + 1) calls r >>= consed reply)
    rest none m ih = refl
    rest (some (reply, r)) m ih = rw (ih r m)
