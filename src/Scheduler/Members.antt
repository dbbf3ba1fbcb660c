-- ===== src/Scheduler/Members.antt =====
-- Cells that come and go between dispatches.
use chronos_uvm.Prelude.{
  ℕ, ◌+◌, ◌≤◌, ◌<◌, ◌≡◌, ◌≢◌, refl, sym, ap, ◌∙◌, false, Option, none, some, List, [], ◌∷◌, ◌++◌,
  length, Profile, u64, arith, ◌>>=◌,
}
use chronos_uvm.Prelude.Maps.{HashMap}
use chronos_uvm.Blake3.{Blake3}
use chronos_uvm.Dirty.Words.{contains}
use chronos_uvm.Cell.{Cell}
use chronos_uvm.Scheduler.{
  DispatchOutcome, Scheduler, register_cell, deregister_cell, retain_others, next_dispatch,
}
use chronos_uvm.Scheduler.Step.{outcome, rotated, next_dispatch_front, next_dispatch-none}

-- A call on the scheduler.
pub data Change : Type 0 where
  register deregister : ℕ → Change
  next : Change

contains-snoc :
    (id j : ℕ) (ids : List ℕ)
    → contains id ids ≡ false
    → id ≢ j
    → contains id (ids ++ j ∷ []) ≡ false
contains-snoc id j [] h n = ground (arith, n)
contains-snoc id j (i ∷ ids) h n = ground (arith, h, contains-snoc id j ids (ground (arith, h)) n)

-- `retain` takes every entry of the cell out, and puts no cell in.
contains-retain_others_self : (id : ℕ) (ids : List ℕ) → contains id (retain_others id ids) ≡ false
unfolding retain_others
contains-retain_others_self id [] = refl
contains-retain_others_self id (i ∷ ids) = ground (arith, contains-retain_others_self id ids)

contains-retain_others :
    (id j : ℕ) (ids : List ℕ) → contains id ids ≡ false → contains id (retain_others j ids) ≡ false
unfolding retain_others
contains-retain_others id j [] h = refl
contains-retain_others id j (i ∷ ids) h =
    ground (arith, h, contains-retain_others id j ids (ground (arith, h)))

-- The cell is not registered again.
abbrev pub IsGone : ℕ → List Change → Type 0
IsGone id [] = Unit
IsGone id (register j ∷ changes) = (id ≢ j) × IsGone id changes
IsGone id (deregister j ∷ changes) = IsGone id changes
IsGone id (next ∷ changes) = IsGone id changes

-- No outcome is of the cell.
abbrev pub AreOthers : ℕ → List (Option DispatchOutcome) → Type 0
AreOthers id [] = Unit
AreOthers id (none ∷ outcomes) = AreOthers id outcomes
AreOthers id (some o ∷ outcomes) = (id ≢ o.cell_id) × AreOthers id outcomes

module _ (B : Blake3) (p : Profile) (cells : HashMap ℕ (Cell B)) where
  -- The calls in order, and what the dispatches return.
  pub changed : List Change → Scheduler → Option (List (Option DispatchOutcome) × Scheduler)
  changed [] s = some ([], s)
  changed (register id ∷ changes) s = changed changes (register_cell id s)
  changed (deregister id ∷ changes) s = changed changes (deregister_cell id s)
  changed (next ∷ changes) s = do
    (o, s) ← next_dispatch B p cells s
    (outcomes, s) ← changed changes s
    some (o ∷ outcomes, s)

  abbrev pub Avoids : ℕ → Option (List (Option DispatchOutcome) × Scheduler) → Type 0
  Avoids id o =
      (x : List (Option DispatchOutcome) × Scheduler) × (o ≡ some x)
      × AreOthers id x.0
      × (contains id x.1.order ≡ false)

  avoids_lem :
      (id : ℕ) (changes : List Change) (s : Scheduler)
      → contains id s.order ≡ false
      → IsGone id changes
      → s.clock.tick + length changes < u64
      → Avoids id (changed changes s)
  unfolding changed register_cell deregister_cell
  avoids_lem id [] s h gone room = (([], s), refl, tt, h)
  avoids_lem id (register j ∷ changes) s h gone room =
      avoids_lem id changes (register_cell j s) (contains-snoc id j s.order h gone.0) gone.1
        (omega (arith, room))
  avoids_lem id (deregister j ∷ changes) s h gone room =
      avoids_lem id changes (deregister_cell j s) (contains-retain_others id j s.order h) gone
        (omega (arith, room))
  avoids_lem id (next ∷ changes) s h gone room =
      by_order s.order refl
        (λ t later keeps. avoids_lem id changes t keeps gone (omega (arith, room, later)))
    where
      by_order :
          (order : List ℕ)
          → s.order ≡ order
          → ((t : Scheduler)
              → t.clock.tick ≤ s.clock.tick + 1
              → contains id t.order ≡ false
              → Avoids id (changed changes t))
          → Avoids id (changed (next ∷ changes) s)
      by_order [] e rest =
          let (x, done, others, keeps) = rest s (omega arith) h in
          ((none ∷ x.0, x.1), rw (next_dispatch-none B p cells s e, done), others, keeps)
      by_order (j ∷ order) e rest =
          let away : contains id (j ∷ order) ≡ false = ap (contains id) (sym e) ∙ h in
          let other : id ≢ j = λ same. ground (arith, same, away) in
          let (x, done, others, keeps) =
            rest (rotated B p cells s j order) (omega arith)
              (contains-snoc id j order (ground (arith, away)) other) in
          (
            (some (outcome B p cells s j) ∷ x.0, x.1),
            rw (next_dispatch_front B p cells s j order e (omega (arith, room)), done),
            (other, others),
            keeps,
          )

  -- Once a cell is deregistered, any sequence of registrations of other cells, deregistrations and
  -- dispatches, while the tick fits a `u64`, panics nowhere, never dispatches that cell, and ends with
  -- it out of the order.
  pub deregister_cell_lem :
      (id : ℕ) (changes : List Change) (s : Scheduler)
      → IsGone id changes
      → s.clock.tick + length changes < u64
      → Avoids id (changed changes (deregister_cell id s))
  unfolding deregister_cell
  deregister_cell_lem id changes s gone room =
      avoids_lem id changes (deregister_cell id s) (contains-retain_others_self id s.order) gone
        (omega (arith, room))
