-- ===== src/EventLog/Log.antt =====
-- The log as a map: its keys are distinct, and an export that is loaded again has the same values.
use chronos_uvm.Prelude.{◌≡◌, refl, sym, ap, ◌∙◌, ◌≢◌, Option, none, some, [], ◌∷◌, map}
use chronos_uvm.Prelude.Maps.{HashMap, get, insert, get-insert}
use chronos_uvm.EventLog.{
  EventKey, same_key, RecordedValue, to_recorded, to_entry, load, export_entry,
}
use mathlib.Core.Logic.{ite}

abbrev pub IsUnique : HashMap EventKey RecordedValue → Type 0
IsUnique [] = Unit
IsUnique ((k, v) ∷ m) = (get same_key k m ≡ none) × IsUnique m

pub insert-IsUnique :
    (k : EventKey) (v : RecordedValue) (m : HashMap EventKey RecordedValue)
    → IsUnique m
    → IsUnique (insert same_key k v m)
unfolding insert get
insert-IsUnique k v [] u = (refl, tt)
insert-IsUnique k v ((j, w) ∷ m) u =
    elim (same_key j k) as (λ d. IsUnique (ite d ((k, v) ∷ m) ((j, w) ∷ insert same_key k v m))) [
      | yes e ↦ (rw (sym e) u.0, u.1)
      | no ne ↦ (get-insert same_key k j v m ∙ rest ne (same_key k j), insert-IsUnique k v m u.1)
    ]
  where
    rest : j ≢ k → (d : Dec (k ≡ j)) → ite d (some v) (get same_key j m) ≡ none
    rest ne (yes e) = absurd (ne (sym e))
    rest ne (no _) = u.0

to_recorded-to_entry : (v : RecordedValue) → to_recorded (to_entry v) ≡ v
unfolding to_recorded to_entry
to_recorded-to_entry (RecordedValue.clock v) = refl
to_recorded-to_entry (RecordedValue.random v) = refl

abbrev or_else : Option RecordedValue → Option RecordedValue → Option RecordedValue
or_else none b = b
or_else (some a) b = some a

load_lem :
    (k : EventKey) (m log : HashMap EventKey RecordedValue)
    → IsUnique m
    → get same_key k (load (map export_entry m) log)
      ≡ or_else (get same_key k m) (get same_key k log)
unfolding load export_entry get
load_lem k [] log u = refl
load_lem k ((j, w) ∷ m) log u =
    load_lem k m (insert same_key j (to_recorded (to_entry w)) log) u.1
    ∙ ap (or_else (get same_key k m)) (get-insert same_key j k (to_recorded (to_entry w)) log)
    ∙ step (same_key j k)
  where
    step :
        (d : Dec (j ≡ k))
        → or_else (get same_key k m) (ite d (some (to_recorded (to_entry w))) (get same_key k log))
          ≡ or_else (ite d (some w) (get same_key k m)) (get same_key k log)
    step (yes e) = rw (sym e, u.0, to_recorded-to_entry w)
    step (no _) = refl

pub load-export :
    (k : EventKey) (m : HashMap EventKey RecordedValue)
    → IsUnique m
    → get same_key k (load (map export_entry m) []) ≡ get same_key k m
unfolding get
load-export k m u = load_lem k m [] u ∙ or_none (get same_key k m)
  where
    or_none : (o : Option RecordedValue) → or_else o none ≡ o
    or_none none = refl
    or_none (some a) = refl
