-- ===== src/EventLog/Replay.antt =====
-- A recorded run, and its replay on another host.
use chronos_uvm.Prelude.{
  ℕ, ◌+◌, ◌≤◌, ◌<◌, ◌≡◌, ◌≢◌, ◌⊎◌, inl, inr, refl, ap, ◌∙◌, some, List, [], ◌∷◌, length, Profile,
  u64, ℕ_discrete, arith,
}
use mathlib.Core.Logic.{ite}
use chronos_uvm.Prelude.Maps.{HashMap, get, insert, get-insert}
use chronos_uvm.EventLog.{
  recording, replaying, EventKey, same_key, RecordedValue, EventRecorder, new, from_replay_log,
  export_log,
}
use chronos_uvm.EventLog.Log.{IsUnique, insert-IsUnique, load-export}
use chronos_uvm.EventLog.Source.{event_recorder}
use chronos_uvm.EventLog.Runs.{
  Call, tick_of, Source, Reply, run, IsOrdered, key_at, advanced, answer, value, replayed,
  call-recording, call-replaying, replayed-value,
}

-- The key was given out before the recorder came where it is.
abbrev Before : EventKey → EventRecorder → Type 0
Before k r =
    (k.tick < r.current_tick) ⊎ ((k.tick ≡ r.current_tick) × (k.call_ordinal < r.current_ordinal))

-- What the hosts answered, in order.
abbrev pub answers : (ℕ → Source) → ℕ → List Call → List Reply
answers src i [] = []
answers src i (c ∷ calls) = answer (src i) c ∷ answers src (i + 1) calls

-- A recorded run that ends in `r'`, as a replayer sees it that has the log of the end.
pub record Recorded (p : Profile) (src other : ℕ → Source) (i : ℕ) (calls : List Call)
    (r r' : EventRecorder) : Type 0 where
  pub runs : run (event_recorder p) src i calls r ≡ some (answers src i calls, r')
  pub unique : IsUnique r'.log
  kept : (k : EventKey) → Before k r → get same_key k r'.log ≡ get same_key k r.log
  pub replays :
      (s : EventRecorder)
      → s.mode ≡ replaying
      → s.current_tick ≡ r.current_tick
      → s.current_ordinal ≡ r.current_ordinal
      → ((k : EventKey) → get same_key k s.log ≡ get same_key k r'.log)
      → (s' : EventRecorder) × (run (event_recorder p) other i calls s
          ≡ some (answers src i calls, s'))

module _ (t : ℕ) (r : EventRecorder) (k : EventKey) (log : HashMap EventKey RecordedValue)
    (later : r.current_tick ≤ t) where
  Before-advanced : Before k r → Before k (advanced r t log)
  Before-advanced (inl h) = step (ℕ_discrete k.tick t)
    where
      step : Dec (k.tick ≡ t) → Before k (advanced r t log)
      step (yes e) = inr (e, ground arith)
      step (no n) = inl (omega arith)
  Before-advanced (inr h) = step (ℕ_discrete r.current_tick t)
    where
      step : Dec (r.current_tick ≡ t) → Before k (advanced r t log)
      step (yes e) = inr (omega (arith, e, h.0), ground (arith, h.1))
      step (no n) = inl (omega (arith, h.0))

  Before-fresh : Before k r → key_at r t ≢ k
  Before-fresh (inl h) e = omega (arith, ap (λ (j : EventKey). j.tick) e)
  Before-fresh (inr h) e =
      ground
        (arith, h.0, h.1, ap (λ (j : EventKey). j.tick) e, ap (λ (j : EventKey). j.call_ordinal) e)

pub records_and_replays :
    (p : Profile) (src other : ℕ → Source) (i : ℕ) (calls : List Call) (r : EventRecorder)
    → r.mode ≡ recording
    → IsUnique r.log
    → IsOrdered r.current_tick calls
    → r.current_ordinal + length calls < u64
    → (r' : EventRecorder) × Recorded p src other i calls r r'
unfolding run
records_and_replays p src other i [] r m u o room = (
  r,
  record { runs = refl; unique = u; kept = λ k b. refl; replays = λ s ms t n agree. (s, refl) },
)
records_and_replays p src other i (c ∷ calls) r m u o room =
    let key : EventKey = key_at r (tick_of c) in
    let log : HashMap EventKey RecordedValue = insert same_key key (value (src i) c) r.log in
    let next : EventRecorder = advanced r (tick_of c) log in
    let (r', rest) =
      records_and_replays p src other (i + 1) calls next m
        (insert-IsUnique key (value (src i) c) r.log u) o.1 (ground (arith, room)) in
    (
      r',
      record {
        runs = rw (call-recording p (src i) r (omega (arith, room)) c m, rest.runs);
        unique = rest.unique;
        kept = λ k b.
            rest.kept k (Before-advanced (tick_of c) r k log o.0 b)
            ∙ get-insert same_key key k (value (src i) c) r.log
            ∙ untouched k b (same_key key k);
        replays = λ s ms t n agree.
            let same : key_at s (tick_of c) ≡ key = rw (t, n) in
            let reply : replayed c (key_at s (tick_of c))
                  (get same_key (key_at s (tick_of c)) s.log)
                ≡ answer (src i) c =
              ap (λ (k : EventKey). replayed c k (get same_key k s.log)) same
              ∙ ap (replayed c key) (agree key ∙ found r' rest.kept)
              ∙ replayed-value (src i) c key in
            let (s', done) =
              rest.replays (advanced s (tick_of c) s.log) ms refl
                (ap (λ (k : EventKey). k.call_ordinal + 1) same) agree in
            (s', rw (call-replaying p (other i) s (omega (arith, room, n)) c ms, reply, done));
      },
    )
  where
    found :
        (r' : EventRecorder)
        → ((k : EventKey)
            → Before k (
                advanced r
                  (tick_of c)
                  (insert same_key (key_at r (tick_of c)) (value (src i) c) r.log))
            → get same_key k r'.log
              ≡ get same_key k (insert same_key (key_at r (tick_of c)) (value (src i) c) r.log))
        → get same_key (key_at r (tick_of c)) r'.log ≡ some (value (src i) c)
    found r' kept =
        kept (key_at r (tick_of c)) (inr (refl, omega arith))
        ∙ get-insert same_key (key_at r (tick_of c)) (key_at r (tick_of c)) (value (src i) c) r.log
        ∙ itself (same_key (key_at r (tick_of c)) (key_at r (tick_of c)))
      where
        itself :
            (d : Dec (key_at r (tick_of c) ≡ key_at r (tick_of c)))
            → ite d (some (value (src i) c)) (get same_key (key_at r (tick_of c)) r.log)
              ≡ some (value (src i) c)
        itself (yes _) = refl
        itself (no n) = absurd (n refl)

    untouched :
        (k : EventKey)
        → Before k r
        → (d : Dec (key_at r (tick_of c) ≡ k))
        → ite d (some (value (src i) c)) (get same_key k r.log) ≡ get same_key k r.log
    untouched k b (yes e) = absurd (Before-fresh (tick_of c) r k r.log o.0 b e)
    untouched k b (no _) = refl

-- The replies of the hosts, the recorder at the end, and a replay of its exported log.
pub record Replayable (p : Profile) (src other : ℕ → Source) (calls : List Call) (r : EventRecorder)
    : Type 0 where
  pub recorded : run (event_recorder p) src 0 calls (new recording) ≡ some (answers src 0 calls, r)
  replayed_log :
      (s : EventRecorder) × (run (event_recorder p) other 0 calls (from_replay_log (export_log r))
        ≡ some (answers src 0 calls, s))

-- For clock reads and draws at ticks that never go back, fewer than `u64` of them, in either build:
-- a recorder in record mode returns what the host answers to each call and does not panic, and a
-- recorder made from its exported log returns the same answers to the same calls, whatever its own
-- host would answer.
pub record_then_replay :
    (p : Profile) (src other : ℕ → Source) (calls : List Call)
    → IsOrdered 0 calls
    → length calls < u64
    → (r : EventRecorder) × Replayable p src other calls r
unfolding new from_replay_log export_log
record_then_replay p src other calls o room =
    let (r, recorded) =
      records_and_replays p src other 0 calls (new recording) refl tt o (omega (arith, room)) in
    (
      r,
      record {
        recorded = recorded.runs;
        replayed_log =
            recorded.replays (from_replay_log (export_log r)) refl refl refl
              (λ k. load-export k r.log recorded.unique);
      },
    )
