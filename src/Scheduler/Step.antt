-- ===== src/Scheduler/Step.antt =====
-- One dispatch.
use chronos_uvm.Prelude.{
  ℕ, ◌+◌, ◌<◌, ◌≡◌, none, some, List, [], ◌∷◌, ◌++◌, Profile, add_word_fits, u64, ℕ_discrete,
}
use chronos_uvm.Prelude.Maps.{HashMap, get}
use chronos_uvm.Blake3.{Blake3}
use chronos_uvm.Clock.{advance}
use chronos_uvm.Cell.{Cell}
use chronos_uvm.Scheduler.{Scheduler, DispatchOutcome, due_of, dispatch, next_dispatch}

module _ (B : Blake3) (p : Profile) (cells : HashMap ℕ (Cell B)) (s : Scheduler) where
  -- The outcome of the dispatch of a cell at the next tick.
  abbrev pub outcome : ℕ → DispatchOutcome
  outcome id =
      let tick = s.clock.tick + 1 in
      record { cell_id = id; tick = tick; checkpoint_due = due_of B tick (get ℕ_discrete id cells) }

  abbrev pub rotated : ℕ → List ℕ → Scheduler
  rotated id rest = record { order = rest ++ id ∷ []; clock = record { tick = s.clock.tick + 1 } }

  pub next_dispatch_front :
      (id : ℕ) (rest : List ℕ)
      → s.order ≡ id ∷ rest
      → s.clock.tick + 1 < u64
      → next_dispatch B p cells s ≡ some (some (outcome id), rotated id rest)
  unfolding next_dispatch dispatch advance
  next_dispatch_front id rest e h = rw (e, add_word_fits p u64 s.clock.tick 1 h)

  pub next_dispatch-none : s.order ≡ [] → next_dispatch B p cells s ≡ some (none, s)
  unfolding next_dispatch dispatch
  next_dispatch-none e = rw e
