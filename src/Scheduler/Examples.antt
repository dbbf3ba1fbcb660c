-- ===== src/Scheduler/Examples.antt =====
-- The scheduler at concrete cells.
use chronos_uvm.Prelude.{ℕ, ◌≡◌, some, List, [], ◌∷◌, debug, arith}
use chronos_uvm.Prelude.Maps.{HashMap}
use chronos_uvm.Blake3.Toy.{toy}
use chronos_uvm.EventLog.{recording}
use chronos_uvm.Cell.{Cell, CellConfig, with_memory}
use chronos_uvm.Scheduler.{deregister_cell}
use chronos_uvm.Scheduler.Members.{register, deregister, next, changed, Avoids, deregister_cell_lem}
use chronos_uvm.Scheduler.Rotation.{dispatch_many, turns, round_robin}

abbrev config : CellConfig
config = record {
  id = 1;
  initial_memory_bytes = 4096;
  quota_bytes = 65536;
  checkpoint_interval_ticks = 4;
}

abbrev cells : HashMap ℕ (Cell toy)
cells =
    (
      1,
      with_memory toy config recording (record {
        base = 0;
        mapped_len = 69632;
        size_bytes = 4096;
        quota_bytes = 65536;
        dirty = record { bits = 0 ∷ []; capacity_pages = 16; count = 0 };
      }),
    )
    ∷ []

abbrev ids : List ℕ
ids = 1 ∷ 2 ∷ 3 ∷ []

round_robin_example :
    dispatch_many toy debug cells 6 (record { order = ids; clock = record { tick = 0 } })
    ≡ some (turns toy debug cells 2 0 ids, record { order = ids; clock = record { tick = 6 } })
round_robin_example = round_robin toy debug cells 2 ids 0 (omega arith)

deregister_cell_lem_example : Avoids toy debug cells 2 (
    changed toy debug cells
      (next ∷ register 4 ∷ next ∷ deregister 1 ∷ next ∷ next ∷ [])
      (deregister_cell 2 (record { order = ids; clock = record { tick = 0 } })))
deregister_cell_lem_example =
    deregister_cell_lem toy debug cells 2
      (next ∷ register 4 ∷ next ∷ deregister 1 ∷ next ∷ next ∷ [])
      (record { order = ids; clock = record { tick = 0 } }) ((λ e. omega (arith, e)), tt)
      (omega arith)
