-- ===== src/Supervisor/Fixture.antt =====
-- A supervisor with one cell of 16 pages, checkpointed at every tick, and a ring of two places.
use chronos_uvm.Prelude.{
  ℕ, ◌*◌, ◌≡◌, refl, sym, ap, ◌∙◌, some, [], ◌∷◌, ◌==◌, if◌then◌else◌, release, arith, ℕ_discrete,
}
use chronos_uvm.Prelude.Result.{ok}
use chronos_uvm.Prelude.Maps.{get, insert}
use chronos_uvm.Page.{page_size, zero_page}
use chronos_uvm.Blake3.Toy.{toy}
use mathlib.Core.Path.{subst}
use mathlib.Core.Option.{some-injective}
use chronos_uvm.HostMemory.{HostMemory}
use chronos_uvm.HostMemory.Bump.{bump}
use chronos_uvm.ArrayQueue.Bounded.{slots}
use chronos_uvm.Dirty.Resets.{fresh, fresh-Cleared}
use chronos_uvm.Memory.{MmapGuardedMemory}
use chronos_uvm.Memory.Pages.{IsPaged, slice-zero_page}
use chronos_uvm.EventLog.{recording}
use chronos_uvm.Smt.Root
use chronos_uvm.Smt
use chronos_uvm.Checkpoint
use chronos_uvm.Checkpoint.Chain.{new-IsChained}
use chronos_uvm.Checkpoint.Coverage.{new-Tracks}
use chronos_uvm.Cell.{Cell, CellConfig, with_memory}
use chronos_uvm.Replicate.{TickBatch, DeltaRing}
use chronos_uvm.Supervisor.{World, quantum_of}
use chronos_uvm.Supervisor.Cells.{IsValid}
use chronos_uvm.Supervisor.Worlds.{
  find, IsConsistent, ArePaged, inserted-IsValid, get-insert_self, get-insert_ne,
}
use chronos_uvm.Supervisor.Dispatch.{dispatched}
use chronos_uvm.Supervisor.Writer.{writer, write_lem}
use chronos_uvm.Delta.Engine.{Fresh}
use chronos_uvm.Supervisor.Mirror.{Pair, Mirrored}
use chronos_uvm.Supervisor.History.{started-Mirrored}

abbrev pub config : CellConfig
config = record {
  id = 1;
  initial_memory_bytes = 8192;
  quota_bytes = 65536;
  checkpoint_interval_ticks = 1;
}

abbrev pub memory : MmapGuardedMemory
memory = record {
  base = 4096;
  mapped_len = 69632;
  size_bytes = 8192;
  quota_bytes = 65536;
  dirty = fresh 16;
}

abbrev pub tenant : Cell toy
tenant = with_memory toy config recording memory

-- Both pages are whole.
pub tenant-IsPaged : IsPaged tenant.memory.size_bytes
unfolding with_memory
tenant-IsPaged = refl

tenant-IsValid : IsValid toy tenant (λ offset. 0)
unfolding with_memory Checkpoint.new
tenant-IsValid =
    let cleared = fresh-Cleared 16 (omega arith) in
    record {
      readable = record {
        bounds = record { quota_fits = omega arith; size_le = omega arith; guarded = omega arith };
        dirty_valid = cleared.valid;
        inside = λ i h. absurd (cc (cleared.none_dirty i, h));
      };
      tree_valid = Smt.Root.new-IsValid toy;
      chained = new-IsChained toy;
      ticks = tt;
      committed = (λ i. zero_page, new-Tracks toy, λ i h. slice-zero_page (i * page_size));
    }

abbrev pub ring : DeltaRing (slots TickBatch)
ring = record {
  queue = record { held = []; room = 2; fits = omega arith };
  address = 64;
  last_pushed_tick = 0;
}

-- No cell yet.
abbrev pub start : World toy (slots TickBatch) writer
start = record {
  supervisor = record {
    cells = [];
    scheduler = record { order = []; clock = record { tick = 0 } };
    replication = some ring;
    max_instructions_per_quantum = 1000;
  };
  held = λ id offset. 0;
  exec = 7;
}

pub no_cell : (id : ℕ) (c : Cell toy) → find toy (slots TickBatch) writer start id ≡ some c → ⊥
unfolding get
no_cell id c h = cc h

pub start-IsConsistent : IsConsistent toy (slots TickBatch) writer start
start-IsConsistent = record { known = tt; cells_valid = λ id c h. absurd (no_cell id c h) }

abbrev pub host : HostMemory
host = bump 1048576

-- The tenant is in place and scheduled.
abbrev pub running : World toy (slots TickBatch) writer
running = record start {
  supervisor = record start.supervisor {
    cells = insert ℕ_discrete 1 tenant [];
    scheduler = record { order = 1 ∷ []; clock = record { tick = 0 } };
  };
  held = λ j. if j == 1 then (λ offset. 0) else start.held j;
}

pub running-IsConsistent : IsConsistent toy (slots TickBatch) writer running
running-IsConsistent = record {
  known = ((tenant, get-insert_self 1 tenant []), tt);
  cells_valid =
      inserted-IsValid toy (slots TickBatch) writer 1 tenant (λ offset. 0) start start-IsConsistent
        tenant-IsValid;
}

pub running-ArePaged : ArePaged toy (slots TickBatch) writer running
running-ArePaged j d e = at (ℕ_discrete 1 j)
  where
    at : Dec (1 ≡ j) → IsPaged d.memory.size_bytes
    at (yes is) =
        let found : find toy (slots TickBatch) writer running 1 ≡ some d =
          ap (find toy (slots TickBatch) writer running) is ∙ e in
        subst (λ (a : Cell toy). IsPaged a.memory.size_bytes)
          (some-injective tenant d (sym (get-insert_self 1 tenant []) ∙ found)) tenant-IsPaged
    at (no n) = absurd (no_cell j d (sym (get-insert_ne 1 j tenant [] n) ∙ e))

-- With a standby that has seen nothing.
abbrev pub pair : Pair toy (slots TickBatch) writer
pair = record {
  world = running;
  standby = record { engine = record { baseline = []; have_baseline = [] }; last_applied_tick = 0 };
}

blank-Fresh : Fresh pair.standby.engine
blank-Fresh = record { valid = record { same = refl; pages = tt }; unknown = λ i. refl }

pub pair-Mirrored : Mirrored toy (slots TickBatch) writer 1 pair
pair-Mirrored =
    started-Mirrored toy (slots TickBatch) writer 1 pair ring running-IsConsistent running-ArePaged
      refl refl refl (λ offset. refl) blank-Fresh refl

pub writes :
    (quantum_of toy
      (slots TickBatch)
      writer
      1
      tenant
      (dispatched toy (slots TickBatch) writer release running 1 [])).result
    ≡ ok 1
unfolding quantum_of with_memory
writes = write_lem _ (running.held 1) 7 tenant-IsValid.readable (omega arith) (omega arith)
