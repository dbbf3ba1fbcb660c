-- ===== src/Scheduler/UnitTests.antt =====
-- The unit tests of chronos-core/src/scheduler.rs, on the model, over the host of HostMemory/Bump.antt.
use chronos_uvm.Prelude.{
  ℕ, Bool, true, false, ◌&&◌, ◌==◌, ◌≡◌, refl, Option, none, some, List, [], ◌∷◌, zero, suc, debug,
  ◌>>=◌, ℕ_discrete,
}
use chronos_uvm.Prelude.Result.{Result, ok, err}
use chronos_uvm.Prelude.Maps.{HashMap, get, insert}
use chronos_uvm.Blake3.Toy.{toy}
use chronos_uvm.HostMemory.Bump.{bump}
use chronos_uvm.Memory.{MemFault}
use chronos_uvm.EventLog.{recording}
use chronos_uvm.Cell
use chronos_uvm.Cell.{Cell, checkpoint_due, with_memory}
use chronos_uvm.Memory
use chronos_uvm.Dirty
use chronos_uvm.Clock
use chronos_uvm.Scheduler.{DispatchOutcome, Scheduler, new, next_dispatch}

abbrev unwrap : {E A : Type 0} → Result E A → Option A
unwrap (ok a) = some a
unwrap (err e) = none

abbrev Host : Type 0
Host = (bump 1099511627776).Host

make_cell : ℕ → Host → Option (Cell toy × Host)
unfolding Cell.new
make_cell id host = do
  (made, host) ←
      Cell.new toy debug (bump 1099511627776)
        (record {
          id = id;
          initial_memory_bytes = 4096;
          quota_bytes = 65536;
          checkpoint_interval_ticks = 4;
        })
        recording host
  cell ← unwrap made
  some (cell, host)

-- `for id in [..] { cells.insert(id, make_cell(id)); }`
make_cells : List ℕ → Host → HashMap ℕ (Cell toy) → Option (HashMap ℕ (Cell toy))
unfolding make_cell
make_cells [] host cells = some cells
make_cells (id ∷ ids) host cells = do
  (cell, host) ← make_cell id host
  make_cells ids host (insert ℕ_discrete id cell cells)

-- The outcomes of `n` dispatches, each unwrapped.
outcomes : ℕ → HashMap ℕ (Cell toy) → Scheduler → Option (List DispatchOutcome)
unfolding next_dispatch
outcomes zero cells s = some []
outcomes (suc n) cells s = do
  (o, s) ← next_dispatch toy debug cells s
  outcome ← o
  rest ← outcomes n cells s
  some (outcome ∷ rest)

abbrev are : {A : Type 0} → (A → ℕ) → List A → List ℕ → Bool
are f [] [] = true
are f (a ∷ as') (n ∷ ns) = f a == n && are f as' ns
are f _ _ = false

round_robin_visits_every_cell_before_repeating : Option Bool
unfolding make_cells outcomes new
round_robin_visits_every_cell_before_repeating = do
  cells ← make_cells (1 ∷ 2 ∷ 3 ∷ []) [] []
  seen ← outcomes 6 cells (new (1 ∷ 2 ∷ 3 ∷ []))
  some (are (λ o. o.cell_id) seen (1 ∷ 2 ∷ 3 ∷ 1 ∷ 2 ∷ 3 ∷ []))

tick_advances_globally_not_per_cell : Option Bool
unfolding make_cells outcomes new
tick_advances_globally_not_per_cell = do
  cells ← make_cells (1 ∷ 2 ∷ []) [] []
  os ← outcomes 2 cells (new (1 ∷ 2 ∷ []))
  some (are (λ o. o.tick) os (1 ∷ 2 ∷ []))

abbrev number : Bool → ℕ
number false = 0
number true = 1

checkpoint_due_respects_configured_interval : Option Bool
unfolding make_cells outcomes new
checkpoint_due_respects_configured_interval = do
  cells ← make_cells (1 ∷ []) [] []
  os ← outcomes 5 cells (new (1 ∷ []))
  some (are (λ o. number o.checkpoint_due) os (0 ∷ 0 ∷ 0 ∷ 1 ∷ 1 ∷ []))

unit_tests_pass :
    (round_robin_visits_every_cell_before_repeating ≡ some true)
    × (tick_advances_globally_not_per_cell ≡ some true)
    × (checkpoint_due_respects_configured_interval ≡ some true)
unfolding round_robin_visits_every_cell_before_repeating tick_advances_globally_not_per_cell
    checkpoint_due_respects_configured_interval get insert checkpoint_due with_memory Memory.new
    Dirty.new Clock.advance Clock.new ℕ_discrete
unit_tests_pass = (refl, refl, refl)
