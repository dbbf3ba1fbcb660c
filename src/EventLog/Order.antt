-- ===== src/EventLog/Order.antt =====
-- The order of the entries of an export does not matter: an iteration over a `HashMap` yields them in
-- any order.
use mathlib.Core.Logic.{ite, ∥∥₁_elim}
use mathlib.Core.Logic.Or
use mathlib.Core.Path.{subst}
use mathlib.Core.Option.{some-injective}
use mathlib.Core.List.{
  Mem, Perm, Permᴰ, Pairwise, not-mem-nil, mem-cons_self, eq-or-mem_of_mem-cons,
}
use mathlib.Core.List.Perm
use mathlib.Core.HLevel.{¬_prop}
use chronos_uvm.Prelude.{
  ℕ, ◌<◌, ◌≡◌, ◌≢◌, refl, sym, ap, ◌∙◌, Option, none, some, List, [], ◌∷◌, map, length, Profile,
  u64, arith, ℕ_discrete,
}
use chronos_uvm.Prelude.Maps.{HashMap, get, insert, get-insert}
use chronos_uvm.EventLog.{
  recording, EventKey, same_key, RecordedValue, ReplayEntry, EventRecorder, new, from_replay_log,
  export_log, export_entry, load, to_recorded,
}
use chronos_uvm.EventLog.Log.{IsUnique, load-export}
use chronos_uvm.EventLog.Replay.{answers, records_and_replays}
use chronos_uvm.EventLog.Source.{event_recorder}
use chronos_uvm.EventLog.Runs.{Call, Source, Reply, run, IsOrdered}

abbrev Entry : Type 0
Entry = ℕ × ℕ × ReplayEntry

abbrev key_of : Entry → EventKey
key_of (tick, ordinal, entry) = record { tick = tick; call_ordinal = ordinal }

abbrev Log : Type 0
Log = HashMap EventKey RecordedValue

Option-IsSet : IsSet (Option RecordedValue)
Option-IsSet = hlevel ℕ_discrete

insert_same :
    (x : Entry) (m n : Log)
    → ((k : EventKey) → get same_key k m ≡ get same_key k n)
    → (k : EventKey)
    → get same_key k (insert same_key (key_of x) (to_recorded x.2) m)
      ≡ get same_key k (insert same_key (key_of x) (to_recorded x.2) n)
insert_same x m n same k =
    get-insert same_key (key_of x) k (to_recorded x.2) m
    ∙ ap (ite (same_key (key_of x) k) (some (to_recorded x.2))) (same k)
    ∙ sym (get-insert same_key (key_of x) k (to_recorded x.2) n)

insert_swap :
    (x y : Entry) (m : Log)
    → key_of x ≢ key_of y
    → (k : EventKey)
    → get same_key k (
        insert same_key
          (key_of y)
          (to_recorded y.2)
          (insert same_key (key_of x) (to_recorded x.2) m))
      ≡ get same_key k (
          insert same_key
            (key_of x)
            (to_recorded x.2)
            (insert same_key (key_of y) (to_recorded y.2) m))
insert_swap x y m other k =
    get-insert same_key (key_of y) k (to_recorded y.2)
      (insert same_key (key_of x) (to_recorded x.2) m)
    ∙ ap (ite (same_key (key_of y) k) (some (to_recorded y.2)))
        (get-insert same_key (key_of x) k (to_recorded x.2) m)
    ∙ step (same_key (key_of x) k) (same_key (key_of y) k)
    ∙ sym (
        get-insert same_key (key_of x) k (to_recorded x.2)
          (insert same_key (key_of y) (to_recorded y.2) m)
        ∙ ap (ite (same_key (key_of x) k) (some (to_recorded x.2)))
            (get-insert same_key (key_of y) k (to_recorded y.2) m))
  where
    step :
        (d : Dec (key_of x ≡ k)) (e : Dec (key_of y ≡ k))
        → ite e (some (to_recorded y.2)) (ite d (some (to_recorded x.2)) (get same_key k m))
          ≡ ite d (some (to_recorded x.2)) (ite e (some (to_recorded y.2)) (get same_key k m))
    step (yes p) (yes q) = absurd (other (p ∙ sym q))
    step (yes p) (no _) = refl
    step (no _) (yes q) = refl
    step (no _) (no _) = refl

load_same :
    (xs : List Entry) (m n : Log)
    → ((k : EventKey) → get same_key k m ≡ get same_key k n)
    → (k : EventKey) → get same_key k (load xs m) ≡ get same_key k (load xs n)
unfolding load
load_same [] m n same k = same k
load_same (x ∷ xs) m n same k =
    load_same xs (insert same_key (key_of x) (to_recorded x.2) m)
      (insert same_key (key_of x) (to_recorded x.2) n) (insert_same x m n same) k

AreDistinct : List Entry → Type 0
AreDistinct = Pairwise (λ x y. key_of x ≢ key_of y)

-- The map that a list of entries with distinct keys makes does not depend on their order.
load_any_order :
    {xs ys : List Entry} (m : Log)
    → Permᴰ xs ys
    → AreDistinct xs
    → (k : EventKey) → get same_key k (load xs m) ≡ get same_key k (load ys m)
unfolding load AreDistinct
load_any_order m Permᴰ.nil d k = refl
load_any_order m (Permᴰ.cons {a = a} {l₂ = l₂} e p) (Pairwise.cons h d) k =
    load_any_order (insert same_key (key_of a) (to_recorded a.2) m) p d k
    ∙ ap (λ (x : Entry). get same_key k (load l₂ (insert same_key (key_of x) (to_recorded x.2) m)))
        e
load_any_order m (Permᴰ.swap {a = a} {b = b} {b' = b'} {l = l} e f) (Pairwise.cons h d) k =
    load_same l
      (insert same_key (key_of b) (to_recorded b.2)
        (insert same_key (key_of a) (to_recorded a.2) m))
      (insert same_key (key_of a) (to_recorded a.2)
        (insert same_key (key_of b) (to_recorded b.2) m))
      (insert_swap a b m (h b mem-cons_self)) k
    ∙ ap (λ (x : Entry). get same_key k (load (b ∷ x ∷ l) m)) e
    ∙ ap (λ (x : Entry). get same_key k (load (x ∷ b' ∷ l) m)) f
load_any_order m (Permᴰ.trans p q) d k =
    load_any_order m p d k
    ∙ load_any_order m q
        (Perm.pairwise {R = λ x y. key_of x ≢ key_of y} (λ x y. ¬_prop) (λ x y n e. n (sym e))
          ∣ p ∣₁ d)
        k

absent :
    (k : EventKey) (m : Log)
    → get same_key k m ≡ none
    → (x : Entry) → Mem x (map export_entry m)
    → k ≢ key_of x
unfolding export_entry get
absent k [] e x at same = not-mem-nil at
absent k ((j, w) ∷ m) e x at same =
    elim (same_key j k) as (λ d. ite d (some w) (get same_key k m) ≡ none → ⊥) [
      | yes q ↦ λ h. cc h
      | no n ↦ λ h.
          Or.elim (λ a b. absurd a) (eq-or-mem_of_mem-cons at)
            (λ here. n (sym (same ∙ ap key_of here))) (λ there. absent k m h x there same)
    ]
      e

IsUnique-AreDistinct : (m : Log) → IsUnique m → AreDistinct (map export_entry m)
unfolding AreDistinct export_entry
IsUnique-AreDistinct [] u = Pairwise.nil
IsUnique-AreDistinct ((k, v) ∷ m) u = Pairwise.cons (absent k m u.0) (IsUnique-AreDistinct m u.1)

-- Fewer than `u64` clock reads and draws, at ticks that never go back, that were recorded with the
-- replies `replies`: a recorder made from the entries of the exported log, in any order, gives the same
-- replies to the same calls, whatever its own host would answer.
pub replay_any_order :
    (p : Profile) (src other : ℕ → Source) (calls : List Call) (replies : List Reply)
    (r : EventRecorder) (entries : List (ℕ × ℕ × ReplayEntry))
    → IsOrdered 0 calls
    → length calls < u64
    → run (event_recorder p) src 0 calls (new recording) ≡ some (replies, r)
    → Perm entries (export_log r)
    → (s : EventRecorder) × (run (event_recorder p) other 0 calls (from_replay_log entries)
        ≡ some (replies, s))
unfolding new from_replay_log export_log
replay_any_order p src other calls replies r entries o room done perm =
    let (r', recorded) =
      records_and_replays p src other 0 calls (new recording) refl tt o (omega (arith, room)) in
    let loaded : (k : EventKey)
        → Perm entries (map export_entry r'.log)
        → get same_key k (load entries []) ≡ get same_key k r'.log =
      λ k perm. ∥∥₁_elim (Perm.symm perm) (Option-IsSet _ _) (λ d.
        sym (load_any_order [] d (IsUnique-AreDistinct r'.log recorded.unique) k)
        ∙ load-export k r'.log recorded.unique) in
    subst
      (λ (x : List Reply × EventRecorder).
        Perm entries (map export_entry x.1.log)
        → (s : EventRecorder) × (run (event_recorder p) other 0 calls (from_replay_log entries)
            ≡ some (x.0, s)))
      (some-injective (answers src 0 calls, r') (replies, r) (sym recorded.runs ∙ done))
      (λ perm. recorded.replays (from_replay_log entries) refl refl refl (λ k. loaded k perm)) perm
