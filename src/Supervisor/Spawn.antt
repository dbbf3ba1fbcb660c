-- ===== src/Supervisor/Spawn.antt =====
-- `spawn_cell`: a new cell is well formed, and the others are as they were.
use chronos_uvm.Prelude.{
  ◌*◌, ◌<◌, ◌≡◌, refl, Option, none, some, [], ◌∷◌, ◌++◌, Profile, ◌>>=◌, u32, arith, ℕ_discrete,
}
use chronos_uvm.Prelude.Result.{Result, ok, err}
use chronos_uvm.Prelude.Maps.{get, insert}
use chronos_uvm.Page.{page_size, zero_page}
use chronos_uvm.Blake3.{Blake3}
use chronos_uvm.HostMemory.{AreApart, HostMemory}
use chronos_uvm.ArrayQueue.{ArrayQueue}
use chronos_uvm.Memory
use chronos_uvm.Memory.{MemFault, MmapGuardedMemory}
use chronos_uvm.Memory.Layout.{region_of, Made, Refused, Outcome, new_lem}
use chronos_uvm.Memory.Pages.{slice-zero_page}
use chronos_uvm.EventLog.{RecorderMode}
use chronos_uvm.Smt
use chronos_uvm.Smt.Root
use chronos_uvm.Checkpoint
use chronos_uvm.Checkpoint.Chain.{new-IsChained}
use chronos_uvm.Checkpoint.Coverage.{new-Tracks}
use chronos_uvm.Cell
use chronos_uvm.Cell.{Cell, CellConfig, with_memory}
use chronos_uvm.Scheduler.{register_cell}
use chronos_uvm.Replicate.{TickBatch}
use chronos_uvm.Supervisor.{
  SupervisorError, duplicate_cell, memory_init, replication_backpressure, QuantumExecutor, World,
  spawned, spawn_cell,
}
use chronos_uvm.Supervisor.Cells.{IsValid}
use chronos_uvm.Supervisor.Worlds.{
  IsKnown-snoc, IsKnown-insert, get-insert_self, get-insert_ne, find, IsConsistent, Isolated,
  inserted-IsValid,
}

module _ (B : Blake3) where
  -- A cell around a new memory, over a mapping of zeros.
  with_memory-IsValid :
      (p : Profile) (M : HostMemory) (config : CellConfig) (mode : RecorderMode) (h : M.Host)
      (m : MmapGuardedMemory) (h' : M.Host)
      → Made p M config.initial_memory_bytes config.quota_bytes h m h'
      → IsValid B (with_memory B config mode m) (λ offset. 0)
  unfolding with_memory Checkpoint.new
  with_memory-IsValid p M config mode h m h' made = record {
    readable = record {
      bounds = made.valid;
      dirty_valid = made.clean.valid;
      inside = λ i e. absurd (cc (made.clean.none_dirty i, e));
    };
    tree_valid = Smt.Root.new-IsValid B;
    chained = new-IsChained B;
    ticks = tt;
    committed = (λ i. zero_page, new-Tracks B, λ i e. slice-zero_page (i * page_size));
  }

module _ (B : Blake3) (Q : ArrayQueue TickBatch) (E : QuantumExecutor B) where
  -- What an answer of `spawn_cell` says of the world and the host before and after.
  abbrev pub Answered :
      (p : Profile) (M : HostMemory) (config : CellConfig)
      → World B Q E
      → M.Host
      → Result SupervisorError (Unit {0})
      → World B Q E
      → M.Host
      → Type 0
  Answered p M config w h (ok _) w' h' =
      (find B Q E w config.id ≡ none)
      × ((c : Cell B) × (find B Q E w' config.id ≡ some c)
          × (c.config ≡ config)
          × (c.memory.size_bytes ≡ config.initial_memory_bytes)
          × (M.mappings h' ≡ region_of c.memory ∷ M.mappings h)
          × AreApart (region_of c.memory) (M.mappings h))
      × (w'.supervisor.scheduler.order ≡ w.supervisor.scheduler.order ++ config.id ∷ [])
      × (w'.supervisor.scheduler.clock ≡ w.supervisor.scheduler.clock)
      × Isolated B Q E config.id w w'
  Answered p M config w h (err (duplicate_cell id)) w' h' =
      (id ≡ config.id) × ((c : Cell B) × (find B Q E w config.id ≡ some c)) × (w' ≡ w) × (h' ≡ h)
  Answered p M config w h (err (memory_init id e)) w' h' =
      (id ≡ config.id)
      × (w' ≡ w)
      × Refused p M config.initial_memory_bytes config.quota_bytes h e
      × (M.mappings h' ≡ M.mappings h)
  Answered p M config w h (err (replication_backpressure id e)) w' h' = ⊥

  module _ (p : Profile) (M : HostMemory) (config : CellConfig) (mode : RecorderMode)
      (w : World B Q E) (h : M.Host) where
    abbrev pub Spawns : Option (Result SupervisorError (Unit {0}) × World B Q E × M.Host) → Type 0
    Spawns o =
        (x : Result SupervisorError (Unit {0}) × World B Q E × M.Host) × (o ≡ some x)
        × Answered p M config w h x.0 x.1 x.2
        × IsConsistent B Q E x.1

    -- What follows `Cell::new`.
    abbrev answered :
        Result MemFault (Cell B) × M.Host
        → Option (Result SupervisorError (Unit {0}) × World B Q E × M.Host)
    answered (c, h') = let (answer, w') = spawned B Q E config.id c w in some (answer, w', h')

    spawned_lem :
        IsConsistent B Q E w
        → find B Q E w config.id ≡ none
        → (r : Result MemFault MmapGuardedMemory) (h' : M.Host)
        → Outcome p M config.initial_memory_bytes config.quota_bytes h r h'
        → Memory.new p M config.initial_memory_bytes config.quota_bytes h ≡ some (r, h')
        → Spawns (Cell.new B p M config mode h >>= answered)
    unfolding Cell.new with_memory spawned register_cell
    spawned_lem k fresh (err e) h' (refused, kept) made =
        ((err (memory_init config.id e), w, h'), rw made, (refl, refl, refused, kept), k)
    spawned_lem k fresh (ok m) h' made done =
        let c : Cell B = with_memory B config mode m in
        let id = config.id in
        let (answer, w') = spawned B Q E id (ok c) w in
        (
          (answer, w', h'),
          rw done,
          (
            fresh,
            (
              c,
              get-insert_self id c w.supervisor.cells,
              refl,
              made.sizes.0,
              made.mapped,
              made.apart,
            ),
            refl,
            refl,
            record {
              cells = λ j n. get-insert_ne id j c w.supervisor.cells n;
              mappings = λ j n offset. ground (arith, n);
            },
          ),
          record {
            known =
                IsKnown-snoc (λ j. get ℕ_discrete j (insert ℕ_discrete id c w.supervisor.cells))
                  w.supervisor.scheduler.order id
                  (IsKnown-insert id c w.supervisor.cells w.supervisor.scheduler.order k.known)
                  (c, get-insert_self id c w.supervisor.cells);
            cells_valid =
                inserted-IsValid B Q E id c (λ offset. 0) w k
                  (with_memory-IsValid B p M config mode h m h' made);
          },
        )

    -- Spawning in a consistent world, under a `u32` quota and whatever the host answers, does not
    -- panic. An id that is taken is refused and a memory that cannot be made is reported, each with
    -- the world and the host's mappings as they were; otherwise the cell is new, of the initial
    -- size, last in the order, over a new mapping apart from every other, and no other cell changes.
    -- The world stays consistent.
    pub spawn_cell_lem :
        IsConsistent B Q E w
        → config.quota_bytes < u32
        → Spawns (spawn_cell B Q E p M config mode w h)
    unfolding spawn_cell
    spawn_cell_lem k fits = by_id (find B Q E w config.id) refl
      where
        by_id :
            (o : Option (Cell B))
            → find B Q E w config.id ≡ o
            → Spawns (spawn_cell B Q E p M config mode w h)
        by_id (some c) e =
            ((err (duplicate_cell config.id), w, h), rw e, (refl, (c, e), refl, refl), k)
        by_id none e =
            let ((r, h'), made, outcome) =
              new_lem p M config.initial_memory_bytes config.quota_bytes h fits in
            let (x, done, answer, consistent) = spawned_lem k e r h' outcome made in
            (x, rw e done, answer, consistent)
