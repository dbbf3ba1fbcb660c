-- ===== src/Supervisor/Isolation.antt =====
-- Two tenants never reach one byte, over any history of spawns and cycles.
use chronos_uvm.Prelude.{
  ℕ, ◌+◌, ◌≤◌, ◌<◌, ◌≡◌, ◌≢◌, refl, sym, ap, ◌∙◌, ◌%◌, ℕ_discrete, inl, inr, Option, some, List, [],
  ◌∷◌, length, Profile, ◌>>=◌, u32, u64, arith,
}
use chronos_uvm.Prelude.Result.{Result, ok, err}
use chronos_uvm.Blake3.{Blake3}
use chronos_uvm.HostMemory.{Apart, HostMemory}
use chronos_uvm.ArrayQueue.{ArrayQueue}
use chronos_uvm.Memory.{MmapGuardedMemory, translate}
use chronos_uvm.Memory.Layout.{region_of}
use chronos_uvm.Memory.Bounds.{IsValid, translate-ok}
use chronos_uvm.EventLog.{RecorderMode}
use chronos_uvm.Cell.{Cell, CellConfig}
use chronos_uvm.Replicate.{TickBatch}
use chronos_uvm.Supervisor.{
  SupervisorError, duplicate_cell, memory_init, replication_backpressure, QuantumExecutor, World,
  spawn_cell, run_one_cycle,
}
use chronos_uvm.Supervisor.Cells.{IsDisciplined}
use chronos_uvm.Supervisor.Worlds.{find, IsConsistent, ArePaged}
use chronos_uvm.Supervisor.Paged.{Ended-ArePaged}
use mathlib.Core.Path.{subst}
use mathlib.Core.Option.{some-injective}
use chronos_uvm.Page.{page_size}
use chronos_uvm.Memory.Pages.{IsPaged}
use chronos_uvm.Supervisor.Dispatch.{run_one_cycle_lem, run_one_cycle_empty}
use chronos_uvm.Supervisor.Spawn.{Answered, spawn_cell_lem}
use chronos_uvm.Supervisor.Tenants.{AreTenants, Answered-AreTenants, Ended-AreTenants}

-- What the host process asks of the supervisor.
pub data Request : Type 0 where
  spawn : CellConfig → RecorderMode → Request
  cycle : Request

-- The quotas are `u32`, and the initial sizes are of whole pages.
abbrev pub AreRequests : List Request → Type 0
AreRequests [] = Unit
AreRequests (spawn config mode ∷ requests) =
    (config.quota_bytes < u32) × IsPaged config.initial_memory_bytes × AreRequests requests
AreRequests (cycle ∷ requests) = AreRequests requests

-- Accesses that are let through in memories of regions apart.
translated-Apart :
    (m n : MmapGuardedMemory) (ptr len a qtr ken b : ℕ)
    → IsValid m
    → IsValid n
    → Apart (region_of m) (region_of n)
    → translate ptr len m ≡ ok a
    → translate qtr ken n ≡ ok b
    → Apart (a, len) (b, ken)
translated-Apart m n ptr len a qtr ken b v u apart e f =
    let (inside, at) = translate-ok ptr len a m e in
    let (within, there) = translate-ok qtr ken b n f in
    elim apart [
      | inl h ↦ inl (omega (arith, h, inside, at, there, v.size_le, v.guarded))
      | inr h ↦ inr (omega (arith, h, within, at, there, u.size_le, u.guarded))
    ]

module _ (B : Blake3) (Q : ArrayQueue TickBatch) (E : QuantumExecutor B) (M : HostMemory) where
  pub record Process : Type 0 where
    pub world : World B Q E
    pub host : M.Host

  -- The accesses that `translate` lets through in two cells have no byte in common.
  abbrev pub AreSeparate : World B Q E → Type 0
  AreSeparate w =
      (id j : ℕ) (c d : Cell B) (ptr len a qtr ken b : ℕ)
      → id ≢ j
      → find B Q E w id ≡ some c
      → find B Q E w j ≡ some d
      → translate ptr len c.memory ≡ ok a
      → translate qtr ken d.memory ≡ ok b
      → Apart (a, len) (b, ken)

  unfoldable pub serve : Profile → Request → Process → Option Process
  serve p (spawn config mode) x = do
    (answer, world, host) ← spawn_cell B Q E p M config mode x.world x.host
    some (record { world = world; host = host })
  serve p cycle x = do
    (answer, world) ← run_one_cycle B Q E p x.world
    some (record { world = world; host = x.host })

  unfoldable pub serve_all : Profile → List Request → Process → Option Process
  unfolding serve
  serve_all p [] x = some x
  serve_all p (request ∷ requests) x = serve p request x >>= serve_all p requests

  abbrev pub clock_of : Process → ℕ
  clock_of x = x.world.supervisor.scheduler.clock.tick

  pub record IsSound (x : Process) : Type 0 where
    pub consistent : IsConsistent B Q E x.world
    pub paged : ArePaged B Q E x.world
    pub tenants : AreTenants B Q E M x.world x.host

  AreTenants-AreSeparate : (x : Process) → IsSound x → AreSeparate x.world
  AreTenants-AreSeparate x k id j c d ptr len a qtr ken b n found there e f =
      translated-Apart c.memory d.memory ptr len a qtr ken b
        (k.consistent.cells_valid id c found).readable.bounds
        (k.consistent.cells_valid j d there).readable.bounds
        (k.tenants.apart id j c d n found there) e f

  abbrev Served : Process → ℕ → Option Process → Type 0
  Served x ticks o = (y : Process) × (o ≡ some y) × IsSound y × (clock_of y ≤ clock_of x + ticks)

  -- A spawn with an initial size of whole pages.
  Answered-ArePaged :
      (p : Profile) (config : CellConfig) (w w' : World B Q E) (h h' : M.Host)
      (answer : Result SupervisorError (Unit {0}))
      → ArePaged B Q E w
      → IsPaged config.initial_memory_bytes
      → Answered B Q E p M config w h answer w' h'
      → ArePaged B Q E w'
  Answered-ArePaged p config w w' h h' (ok u) paged initial
        (fresh, (c, found, made, size, grown, apart), order, clock, isolated) =
      λ j d e. at j d e (ℕ_discrete config.id j)
    where
      at :
          (j : ℕ) (d : Cell B)
          → find B Q E w' j ≡ some d
          → Dec (config.id ≡ j)
          → IsPaged d.memory.size_bytes
      at j d e (yes is) =
          let same : d ≡ c = some-injective d c (sym (ap (find B Q E w') is ∙ e) ∙ found) in
          ap (λ (a : Cell B). a.memory.size_bytes % page_size) same
          ∙ (ap (λ (n : ℕ). n % page_size) size ∙ initial)
      at j d e (no n) = paged j d (sym (isolated.cells j n) ∙ e)
  Answered-ArePaged p config w w' h h' (err (duplicate_cell id)) paged initial
        (is, there, same, kept) =
      subst (ArePaged B Q E) (sym same) paged
  Answered-ArePaged p config w w' h h' (err (memory_init id f)) paged initial
        (is, same, refused, kept) =
      subst (ArePaged B Q E) (sym same) paged
  Answered-ArePaged p config w w' h h' (err (replication_backpressure id f)) paged initial never =
      absurd never

  spawn-Served :
      (p : Profile) (config : CellConfig) (mode : RecorderMode) (x : Process)
      → IsSound x
      → config.quota_bytes < u32
      → IsPaged config.initial_memory_bytes
      → Served x 1 (serve p (spawn config mode) x)
  unfolding serve
  spawn-Served p config mode x k fits paged =
      let ((answer, w, h), done, answered, consistent) =
        spawn_cell_lem B Q E p M config mode x.world x.host k.consistent fits in
      let (tenants, clock) =
        Answered-AreTenants B Q E M p config x.world w x.host h answer k.tenants answered in
      (
        record { world = w; host = h },
        rw done,
        record {
          consistent = consistent;
          paged = Answered-ArePaged p config x.world w x.host h answer k.paged paged answered;
          tenants = tenants;
        },
        omega (arith, ap (λ c. c.tick) clock),
      )

  cycle-Served :
      (p : Profile) (x : Process)
      → IsDisciplined B E
      → IsSound x
      → clock_of x + 1 < u64
      → Served x 1 (serve p cycle x)
  unfolding serve
  cycle-Served p x disciplined k room = by_order x.world.supervisor.scheduler.order refl
    where
      by_order :
          (order : List ℕ)
          → x.world.supervisor.scheduler.order ≡ order
          → Served x 1 (serve p cycle x)
      by_order [] e = (x, rw (run_one_cycle_empty B Q E p x.world e), k, omega arith)
      by_order (id ∷ rest) e =
          let (c, found, (answer, w), done, ended) =
            run_one_cycle_lem B Q E p x.world id rest disciplined k.consistent (k.paged id) e
              room in
          (
            record { world = w; host = x.host },
            rw done,
            record {
              consistent = ended.consistent;
              paged =
                  Ended-ArePaged B Q E p x.world w id rest c answer disciplined k.consistent k.paged
                    found ended;
              tenants =
                  Ended-AreTenants B Q E M p x.world w x.host id rest c answer disciplined
                    k.consistent k.tenants found ended;
            },
            omega (arith, ap (λ s. s.clock.tick) ended.scheduler_kept),
          )

  -- From a consistent supervisor whose cells have each their own mapping and memories of whole
  -- pages, with an executor that marks every page that it writes and only pages with a committed
  -- byte, clears no mark, keeps the memory well formed, grows it by whole pages only, and leaves
  -- the mapping, the config, the checkpoints and their tick alone (`IsDisciplined`): any history
  -- of cycles and of spawns with a `u32` quota and an initial size of whole pages, in which the
  -- clock does not reach its last tick, panics nowhere, whatever the host answers to `mmap` and
  -- `mprotect`, and in the end no access that `translate` lets through in one cell has a byte in
  -- common with one in another cell.
  pub serve_all_lem :
      (p : Profile) (requests : List Request) (x : Process)
      → IsDisciplined B E
      → IsSound x
      → AreRequests requests
      → clock_of x + length requests < u64
      → (y : Process) × (serve_all p requests x ≡ some y) × IsSound y × AreSeparate y.world
  unfolding serve_all
  serve_all_lem p [] x disciplined k requests room = (x, refl, k, AreTenants-AreSeparate x k)
  serve_all_lem p (spawn config mode ∷ requests) x disciplined k (fits, paged, all) room =
      let (y, done, ky, at) = spawn-Served p config mode x k fits paged in
      let (z, rest, kz, separate) =
        serve_all_lem p requests y disciplined ky all (omega (arith, room, at)) in
      (z, rw (done, rest), kz, separate)
  serve_all_lem p (cycle ∷ requests) x disciplined k all room =
      let (y, done, ky, at) = cycle-Served p x disciplined k (omega (arith, room)) in
      let (z, rest, kz, separate) =
        serve_all_lem p requests y disciplined ky all (omega (arith, room, at)) in
      (z, rw (done, rest), kz, separate)
