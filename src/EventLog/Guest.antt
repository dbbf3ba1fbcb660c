-- ===== src/EventLog/Guest.antt =====
-- A guest whose next call depends on the replies that it got, on any source: on a replay it makes the
-- same calls.
use mathlib.Core.List.{Perm}
use chronos_uvm.Prelude.{
  ℕ, zero, suc, ◌+◌, ◌≤◌, ◌<◌, ◌≡◌, refl, ap, Option, none, some, List, [], ◌∷◌, ◌++◌, length,
  Profile, ◌>>=◌, u64, arith,
}
use chronos_uvm.EventLog.{recording, ReplayEntry, EventRecorder, new, from_replay_log, export_log}
use chronos_uvm.EventLog.Source.{NonDeterminismSource, event_recorder}
use chronos_uvm.EventLog.Runs.{Call, now, draw, Source, Reply, call, run, IsOrdered, answer}
use chronos_uvm.EventLog.Replay.{answers, record_then_replay}
use chronos_uvm.EventLog.Order.{replay_any_order}

pub data Ask : Type 0 where
  clock : Ask
  random : List ℕ → Ask

abbrev pub at_tick : ℕ → Ask → Call
at_tick tick clock = now tick
at_tick tick (random buf) = draw tick buf

module _ {R : Type 0} where
  -- A reply, and those to the later calls.
  abbrev with_first : Reply → Option (List Reply × R) → Option (List Reply × R)
  with_first reply o = do (replies, r) ← o; some (reply ∷ replies, r)

  abbrev in_turn : Option (Reply × R) → (R → Option (List Reply × R)) → Option (List Reply × R)
  in_turn o f = do (reply, r) ← o; with_first reply (f r)

  with_first_inv :
      (reply a : Reply) (o : Option (List Reply × R)) (later : List Reply) (r' : R)
      → with_first reply o ≡ some (a ∷ later, r')
      → (reply ≡ a) × (o ≡ some (later, r'))
  with_first_inv reply a none later r' h = absurd (cc h)
  with_first_inv reply a (some (replies, r)) later r' h =
      let same : (replies ≡ later) × (r ≡ r') = (cc h, cc h) in
      (cc h, λ i. some (same.0 i, same.1 i))

  -- Where both succeed, each does.
  in_turn_inv :
      (o : Option (Reply × R)) (f : R → Option (List Reply × R)) (a : Reply) (later : List Reply)
      (r' : R)
      → in_turn o f ≡ some (a ∷ later, r')
      → (r : R) × (o ≡ some (a, r)) × (f r ≡ some (later, r'))
  in_turn_inv none f a later r' h = absurd (cc h)
  in_turn_inv (some (reply, r)) f a later r' h =
      let (first, rest) = with_first_inv reply a (f r) later r' h in
      (r, ap (λ x. some (x, r)) first, rest)

module _ (ticks : ℕ → ℕ) (guest : List Reply → Ask) where
  module _ (N : NonDeterminismSource) where
    -- The next `n` calls of the guest on any source, which has got `past`; the `i`-th call is at the tick
    -- `ticks i`.
    pub drive : (ℕ → Source) → ℕ → ℕ → List Reply → N.State → Option (List Reply × N.State)
    drive src i zero past s = some ([], s)
    drive src i (suc n) past s = do
      (reply, s) ← call N (src i) (at_tick (ticks i) (guest past)) s
      (replies, s) ← drive src (i + 1) n (past ++ reply ∷ []) s
      some (reply ∷ replies, s)

  -- The calls that it makes where `src` answers them.
  pub made : (ℕ → Source) → ℕ → ℕ → List Reply → List Call
  made src i zero past = []
  made src i (suc n) past =
      let c = at_tick (ticks i) (guest past) in
      c ∷ made src (i + 1) n (past ++ answer (src i) c ∷ [])

  -- On a host that replies to them as `src` does, these are the calls that it makes.
  drive-made :
      (N : NonDeterminismSource) (src host : ℕ → Source) (i n : ℕ) (past : List Reply)
      (r r' : N.State)
      → run N host i (made src i n past) r ≡ some (answers src i (made src i n past), r')
      → drive N host i n past r ≡ some (answers src i (made src i n past), r')
  unfolding drive made run
  drive-made N src host i zero past r r' h = h
  drive-made N src host i (suc n) past r r' h =
      let c = at_tick (ticks i) (guest past) in
      let later = past ++ answer (src i) c ∷ [] in
      let (r₁, first, rest) =
        in_turn_inv (call N (host i) c r) (run N host (i + 1) (made src (i + 1) n later))
          (answer (src i) c) (answers src (i + 1) (made src (i + 1) n later)) r' h in
      rw (first, drive-made N src host (i + 1) n later r₁ r' rest)

  length-made : (src : ℕ → Source) (i n : ℕ) (past : List Reply) → length (made src i n past) ≡ n
  unfolding made
  length-made src i zero past = refl
  length-made src i (suc n) past =
      rw (length-made src (i + 1) n (past ++ answer (src i) (at_tick (ticks i) (guest past)) ∷ []))

  made-IsOrdered :
      (src : ℕ → Source) (i n t : ℕ) (past : List Reply)
      → ((i : ℕ) → ticks i ≤ ticks (i + 1))
      → t ≤ ticks i
      → IsOrdered t (made src i n past)
  unfolding made
  made-IsOrdered src i zero t past up le = tt
  made-IsOrdered src i (suc n) t past up le = at (guest past) (
      made-IsOrdered src (i + 1) n (ticks i)
        (past ++ answer (src i) (at_tick (ticks i) (guest past)) ∷ []) up (up i))
    where
      at :
          (ask : Ask)
          → IsOrdered
              (ticks i)
              (made src (i + 1) n (past ++ answer (src i) (at_tick (ticks i) ask) ∷ []))
          → IsOrdered t (
              at_tick (ticks i) ask
              ∷ made src (i + 1) n (past ++ answer (src i) (at_tick (ticks i) ask) ∷ []))
      at clock h = (le, h)
      at (random buf) h = (le, h)

  -- For fewer than `u64` calls, at ticks that never go back, of a guest whose calls depend on the replies
  -- so far: what it gets from a recorder in record mode is what the host answers, and on any other host,
  -- from a recorder made from the exported entries in whatever order, it gets the same replies, and so
  -- makes the same calls.
  pub drive_replays :
      (p : Profile) (src other : ℕ → Source) (n : ℕ)
      (reordered : List (ℕ × ℕ × ReplayEntry) → List (ℕ × ℕ × ReplayEntry))
      → ((i : ℕ) → ticks i ≤ ticks (i + 1))
      → n < u64
      → ((entries : List (ℕ × ℕ × ReplayEntry)) → Perm (reordered entries) entries)
      → (replies : List Reply) × (r : EventRecorder) × (s : EventRecorder) × (replies
          ≡ answers src 0 (made src 0 n []))
        × (drive (event_recorder p) src 0 n [] (new recording) ≡ some (replies, r))
        × (drive (event_recorder p) other 0 n [] (from_replay_log (reordered (export_log r)))
            ≡ some (replies, s))
  drive_replays p src other n reordered up room perm =
      let calls = made src 0 n [] in
      let ordered = made-IsOrdered src 0 n 0 [] up (omega arith) in
      let few : length calls < u64 = omega (arith, room, length-made src 0 n []) in
      let (r, replayable) = record_then_replay p src other calls ordered few in
      let (s, done) =
        replay_any_order p src other calls (answers src 0 calls) r (reordered (export_log r))
          ordered few replayable.recorded (perm (export_log r)) in
      (
        answers src 0 calls,
        r,
        s,
        refl,
        drive-made (event_recorder p) src src 0 n [] (new recording) r replayable.recorded,
        drive-made (event_recorder p) src other 0 n [] (from_replay_log (reordered (export_log r)))
            s done,
      )
