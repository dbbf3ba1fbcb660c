-- ===== src/Supervisor/Examples.antt =====
-- The supervisor at concrete worlds.
use chronos_uvm.Prelude.{
  ℕ_discrete, ℕ, ◌≡◌, refl, Option, some, List, [], ◌∷◌, debug, release, arith,
}
use chronos_uvm.Prelude.Result.{Result, ok}
use chronos_uvm.Blake3.Toy.{toy}
use chronos_uvm.ArrayQueue.Bounded.{slots}
use chronos_uvm.EventLog.{recording}
use chronos_uvm.Cell.{Cell, with_memory, checkpoint_due}
use chronos_uvm.Checkpoint
use chronos_uvm.Prelude.Maps.{get, insert}
use chronos_uvm.Scheduler.{due_of}
use chronos_uvm.Replicate.{TickBatch}
use chronos_uvm.Supervisor.{SupervisorError, World, quantum_of, run_one_cycle, spawn_cell}
use chronos_uvm.Supervisor.Worlds.{find, get-insert_self}
use chronos_uvm.Supervisor.Cycle.{Ended}
use chronos_uvm.Supervisor.Dispatch.{dispatched, outcome_of, run_one_cycle_lem}
use chronos_uvm.Supervisor.Spawn.{Spawns, spawn_cell_lem}
use chronos_uvm.Supervisor.Writer.{writer, writer-IsDisciplined}
use chronos_uvm.Supervisor.Mirror.{cycle, ship, Pair, ha_run, Mirrored}
use chronos_uvm.Supervisor.Recency.{IsRecent, run_one_cycle-IsRecent}
use chronos_uvm.Supervisor.Failover.{HasRoot, failover_lem}
use chronos_uvm.Supervisor.History.{UpToDate, ha_run_lem}
use chronos_uvm.Supervisor.Fixture.{
  ring, config, tenant, start, no_cell, start-IsConsistent, host, running, running-IsConsistent,
  tenant-IsPaged, running-ArePaged, pair, pair-Mirrored, writes,
}
use chronos_uvm.Supervisor.Isolation.{serve}
use chronos_uvm.Supervisor.Tenants.{added-AreTenants}
use chronos_uvm.Memory.Layout.{region_of}
use chronos_uvm.Supervisor.Worlds.{get-insert_ne}
use chronos_uvm.Supervisor.Fixture.{memory}
use chronos_uvm.Supervisor.Audit.{served-IsSound, verify_chain_served}
use chronos_uvm.Checkpoint.{latest, hash_of, verify_chain}
use chronos_uvm.Checkpoint.Chain.{claim}
use chronos_uvm.Blake3.{Collision}
use chronos_uvm.Prelude.{map, ◌⊎◌}
use chronos_uvm.Supervisor.Isolation.{
  Request, spawn, Process, IsSound, AreSeparate, serve_all, serve_all_lem,
}

spawn_cell_lem_example :
    Spawns toy
      (slots TickBatch)
      writer
      debug
      host
      config
      recording
      start
      []
      (spawn_cell toy (slots TickBatch) writer debug host config recording start [])
spawn_cell_lem_example =
    spawn_cell_lem toy (slots TickBatch) writer debug host config recording start []
      start-IsConsistent (omega arith)

run_one_cycle_lem_example :
    (c : Cell toy) × (find toy (slots TickBatch) writer running 1 ≡ some c)
    × (x : Result SupervisorError (Option (ℕ × ℕ)) × World toy (slots TickBatch) writer)
    × (run_one_cycle toy (slots TickBatch) writer release running ≡ some x)
    × Ended toy
        (slots TickBatch)
        writer
        (outcome_of toy (slots TickBatch) writer release running 1)
        (quantum_of toy
          (slots TickBatch)
          writer
          1
          c
          (dispatched toy (slots TickBatch) writer release running 1 []))
        (dispatched toy (slots TickBatch) writer release running 1 [])
        x.0
        x.1
run_one_cycle_lem_example =
    run_one_cycle_lem toy (slots TickBatch) writer release running 1 [] writer-IsDisciplined
      running-IsConsistent (running-ArePaged 1) refl (omega arith)

ha_run_lem_example :
    (y : Pair toy (slots TickBatch) writer) × (ha_run toy
        (slots TickBatch)
        writer
        release
        (cycle ∷ cycle ∷ ship ∷ cycle ∷ ship ∷ [])
        pair
      ≡ some y)
    × Mirrored toy (slots TickBatch) writer 1 y
    × UpToDate toy (slots TickBatch) writer 1 y
ha_run_lem_example =
    ha_run_lem toy (slots TickBatch) writer 1 release (cycle ∷ cycle ∷ ship ∷ cycle ∷ []) pair
      writer-IsDisciplined pair-Mirrored (omega arith)

failover_lem_example :
    (y : Pair toy (slots TickBatch) writer) × (ha_run toy
        (slots TickBatch)
        writer
        release
        (cycle ∷ ship ∷ [])
        pair
      ≡ some y)
    × HasRoot toy (slots TickBatch) writer 1 y
unfolding due_of checkpoint_due with_memory Checkpoint.new get insert ℕ_discrete
failover_lem_example =
    failover_lem toy (slots TickBatch) writer 1 release pair tenant 1 ring writer-IsDisciplined
      pair-Mirrored refl (omega arith) (get-insert_self 1 tenant []) writes refl (omega arith)

run_one_cycle-IsRecent_example :
    (x : Result SupervisorError (Option (ℕ × ℕ)) × World toy (slots TickBatch) writer)
    × (run_one_cycle toy (slots TickBatch) writer release running ≡ some x)
    × IsRecent toy (slots TickBatch) writer 1 tenant x.1
unfolding with_memory
run_one_cycle-IsRecent_example =
    run_one_cycle-IsRecent toy (slots TickBatch) writer release running 1 [] tenant 1
      writer-IsDisciplined running-IsConsistent refl (omega arith) (get-insert_self 1 tenant [])
      tenant-IsPaged (omega arith) writes

-- No cell, in a process with another mapping.
abbrev process : Process toy (slots TickBatch) writer host
process = record { world = start; host = (4096, 8192) ∷ [] }

process-IsSound : IsSound toy (slots TickBatch) writer host process
process-IsSound = record {
  consistent = start-IsConsistent;
  paged = λ id c e. absurd (no_cell id c e);
  tenants = record {
    mapped = λ id c e. absurd (no_cell id c e);
    apart = λ id j c d n e f. absurd (no_cell id c e);
  };
}

abbrev requests : List Request
requests =
    spawn config recording
    ∷ Request.cycle
    ∷ spawn (record config { id = 2 }) recording
    ∷ spawn config recording
    ∷ Request.cycle
    ∷ []

serve_all_lem_example :
    (y : Process toy (slots TickBatch) writer host) × (serve_all toy
        (slots TickBatch)
        writer
        host
        debug
        requests
        process
      ≡ some y)
    × IsSound toy (slots TickBatch) writer host y
    × AreSeparate toy (slots TickBatch) writer host y.world
serve_all_lem_example =
    serve_all_lem toy (slots TickBatch) writer host debug requests process writer-IsDisciplined
      process-IsSound (omega arith, refl, (omega arith, refl, (omega arith, refl, tt)))
      (omega arith)

-- The world `running`, in a process with just the mapping of its cell.
abbrev alone : Process toy (slots TickBatch) writer host
alone = record { world = running; host = region_of memory ∷ [] }

alone-IsSound : IsSound toy (slots TickBatch) writer host alone
unfolding with_memory
alone-IsSound = record {
  consistent = running-IsConsistent;
  paged = running-ArePaged;
  tenants =
      added-AreTenants toy (slots TickBatch) writer host 1 tenant start running [] alone.host
        (record {
          mapped = λ id c e. absurd (no_cell id c e);
          apart = λ id j c d n e f. absurd (no_cell id c e);
        })
        (record {
          cells = λ j n. get-insert_ne 1 j tenant [] n;
          mappings = λ j n offset. ground (arith, n);
        })
        (get-insert_self 1 tenant []) refl tt;
}

-- One cycle, in which the quantum does not fault.
one_cycle :
    (x : Result SupervisorError (Option (ℕ × ℕ)) × World toy (slots TickBatch) writer)
    × (run_one_cycle toy (slots TickBatch) writer release running ≡ some x)
    × IsRecent toy (slots TickBatch) writer 1 tenant x.1
unfolding with_memory
one_cycle =
    run_one_cycle-IsRecent toy (slots TickBatch) writer release running 1 [] tenant 1
      writer-IsDisciplined running-IsConsistent refl (omega arith) (get-insert_self 1 tenant [])
      tenant-IsPaged (omega arith) writes

abbrev cycled : Process toy (slots TickBatch) writer host
cycled = record { world = one_cycle.0.1; host = alone.host }

served :
    serve_all toy (slots TickBatch) writer host release (Request.cycle ∷ []) alone ≡ some cycled
unfolding serve_all serve
served = rw one_cycle.1

cycled-IsSound : IsSound toy (slots TickBatch) writer host cycled
cycled-IsSound =
    served-IsSound toy (slots TickBatch) writer host release (Request.cycle ∷ []) alone cycled
      writer-IsDisciplined alone-IsSound tt (omega arith) served

-- The tenant after the cycle, with one checkpoint.
abbrev checked : Cell toy
checked = one_cycle.2.0

verify_chain_served_example :
    (verify_chain toy (map (claim toy) checked.checkpoints.entries)
      ≡ ok (hash_of toy (latest toy checked.checkpoints)))
    × ((map (claim toy) checked.checkpoints.entries ≡ map (claim toy) checked.checkpoints.entries)
        ⊎ Collision toy)
verify_chain_served_example =
    verify_chain_served toy (slots TickBatch) writer host release (Request.cycle ∷ []) alone cycled
      1 checked (map (claim toy) checked.checkpoints.entries) writer-IsDisciplined alone-IsSound tt
      (omega arith) served one_cycle.2.1
      (cycled-IsSound.consistent.cells_valid 1 checked one_cycle.2.1).ticks
      (cycled-IsSound.consistent.cells_valid 1 checked one_cycle.2.1).chained
