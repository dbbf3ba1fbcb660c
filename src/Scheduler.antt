-- ===== src/Scheduler.antt =====
-- chronos-core/src/scheduler.rs: the round-robin scheduler.
pub mod Step
pub mod Rotation
pub mod Members
mod UnitTests
mod Examples
use chronos_uvm.Prelude.{
  ℕ, ◌+◌, Bool, false, Option, none, some, List, [], ◌∷◌, ◌++◌, ◌==◌, if◌then◌else◌, Profile, ◌>>=◌,
  ℕ_discrete,
}
use chronos_uvm.Prelude.Maps.{HashMap, get}
use chronos_uvm.Blake3.{Blake3}
use chronos_uvm.Clock
use chronos_uvm.Clock.{LogicalClock, advance, snapshot}
use chronos_uvm.Cell.{Cell, checkpoint_due}

pub record DispatchOutcome : Type 0 where
  pub cell_id : ℕ
  pub tick : ℕ
  pub checkpoint_due : Bool

pub record Scheduler : Type 0 where
  pub order : List ℕ
  pub clock : LogicalClock

unfoldable pub new : List ℕ → Scheduler
new cell_ids = record { order = cell_ids; clock = Clock.new }

unfoldable pub register_cell : ℕ → Scheduler → Scheduler
register_cell cell_id s = record s { order = s.order ++ (cell_id ∷ []) }

pub retain_others : ℕ → List ℕ → List ℕ
retain_others cell_id [] = []
retain_others cell_id (id ∷ ids) =
    let rest = retain_others cell_id ids in if id == cell_id then rest else id ∷ rest

pub deregister_cell : ℕ → Scheduler → Scheduler
unfolding retain_others
deregister_cell cell_id s = record s { order = retain_others cell_id s.order }

pub current_tick : Scheduler → ℕ
current_tick s = snapshot s.clock

module _ (B : Blake3) where
  -- `.map(|c| c.checkpoint_due(tick)).unwrap_or(false)`
  unfoldable pub due_of : ℕ → Option (Cell B) → Bool
  due_of tick none = false
  due_of tick (some c) = checkpoint_due B tick c

  -- The outer `none` is a panic, the inner one the code's.
  pub dispatch :
      Profile
      → HashMap ℕ (Cell B)
      → List ℕ
      → Scheduler
      → Option (Option DispatchOutcome × Scheduler)
  unfolding due_of
  dispatch p cells [] s = some (none, s)
  dispatch p cells (cell_id ∷ order) s = do
    (tick, clock) ← advance p s.clock
    some (
      some (record {
        cell_id = cell_id;
        tick = tick;
        checkpoint_due = due_of tick (get ℕ_discrete cell_id cells);
      }),
      record { order = order ++ (cell_id ∷ []); clock = clock },
    )

  pub next_dispatch :
      Profile → HashMap ℕ (Cell B) → Scheduler → Option (Option DispatchOutcome × Scheduler)
  unfolding dispatch
  next_dispatch p cells s = dispatch p cells s.order s
