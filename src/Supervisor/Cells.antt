-- ===== src/Supervisor/Cells.antt =====
-- What the supervisor keeps of each cell, and what it relies on of a quantum.
use chronos_uvm.Prelude.{
  map, ℕ, ◌*◌, ◌%◌, ◌<◌, ◌≡◌, ◌∙◌, true, false, List, Bool-cases, inl, inr, ◌⊎◌,
}
use chronos_uvm.Page.{page_size}
use chronos_uvm.Blake3.{Blake3}
use chronos_uvm.Dirty.{is_dirty}
use chronos_uvm.Dirty
use chronos_uvm.Dirty.Valid
use chronos_uvm.Memory
use chronos_uvm.Memory.{slice, MmapGuardedMemory}
use chronos_uvm.Memory.Bounds
use chronos_uvm.Memory.Layout.{region_of}
use chronos_uvm.Smt
use chronos_uvm.Smt.Root
use chronos_uvm.Checkpoint.Chain.{claim, IsChained}
use chronos_uvm.Checkpoint.Tamper.{AreTicks}
use chronos_uvm.Checkpoint.Coverage.{Tracks}
use chronos_uvm.Cell.{Cell}
use chronos_uvm.Supervisor.{Quantum, QuantumExecutor}

-- The pages of a mapping.
abbrev pub pages_of : (ℕ → ℕ) → ℕ → List ℕ
pages_of held i = slice held (i * page_size) page_size

-- A memory as the store path keeps it: it is well formed, and every dirty page has a byte that
-- `translate` lets through. The last page may be a partial one.
pub record IsReadable (m : MmapGuardedMemory) : Type 0 where
  pub bounds : Memory.Bounds.IsValid m
  pub dirty_valid : Dirty.Valid.IsValid m.dirty
  pub inside : (i : ℕ) → is_dirty m.dirty i ≡ true → i * page_size < m.size_bytes

module _ (B : Blake3) where
  -- The chain is verifiable, and its tree has the hash of each page as it was when the page was last
  -- clean: a page that is not dirty is as the tree has it.
  pub record IsValid (c : Cell B) (held : ℕ → ℕ) : Type 0 where
    pub readable : IsReadable c.memory
    pub tree_valid : Smt.Root.IsValid B c.checkpoints.tree
    pub chained : IsChained B c.checkpoints
    pub ticks : AreTicks B (map (claim B) c.checkpoints.entries)
    pub committed :
        (before : ℕ → List ℕ) × Tracks B c.checkpoints.tree before
        × ((i : ℕ) → is_dirty c.memory.dirty i ≡ false → pages_of held i ≡ before i)

  -- What the supervisor relies on of a quantum: the store path marks the pages that it writes, and only
  -- pages that have a committed byte, a partial last page included; it clears no mark, and the memory
  -- stays well formed and where it is mapped, and grows by whole pages; the checkpoints, their tick and
  -- the config are left alone.
  pub record Ran (c : Cell B) (held : ℕ → ℕ) {Exec : Type 0} (q : Quantum B Exec) : Type 0 where
    pub readable : IsReadable q.cell.memory
    pub marks_kept :
        (i : ℕ) → is_dirty c.memory.dirty i ≡ true → is_dirty q.cell.memory.dirty i ≡ true
    pub writes_marked :
        (i : ℕ) → is_dirty q.cell.memory.dirty i ≡ false → pages_of q.held i ≡ pages_of held i
    pub grown : q.cell.memory.size_bytes % page_size ≡ c.memory.size_bytes % page_size
    pub chain_kept : q.cell.checkpoints ≡ c.checkpoints
    pub checkpoint_tick_kept : q.cell.last_checkpoint_tick ≡ c.last_checkpoint_tick
    pub config_kept : q.cell.config ≡ c.config
    pub region_kept : region_of q.cell.memory ≡ region_of c.memory

  -- An executor of which every quantum, faulted or not, is such.
  abbrev pub IsDisciplined : QuantumExecutor B → Type 0
  IsDisciplined E =
      (c : Cell B) (held : ℕ → ℕ) (max : ℕ) (exec : E.Exec)
      → IsReadable c.memory
      → Ran c held (E.run_quantum c held max exec)

  -- A quantum keeps the cell well formed.
  pub Ran-IsValid :
      {Exec : Type 0} (c : Cell B) (held : ℕ → ℕ) (q : Quantum B Exec)
      → Ran c held q
      → IsValid c held
      → IsValid q.cell q.held
  Ran-IsValid c held q ran v =
      let (before, tracks, clean) = v.committed in
      record {
        readable = ran.readable;
        tree_valid = rw ran.chain_kept v.tree_valid;
        chained = rw ran.chain_kept v.chained;
        ticks = rw ran.chain_kept v.ticks;
        committed = (
          before,
          rw ran.chain_kept tracks,
          λ i e.
              ran.writes_marked i e
              ∙ clean i (was_clean i e (Bool-cases (is_dirty c.memory.dirty i))),
        );
      }
    where
      was_clean :
          (i : ℕ)
          → is_dirty q.cell.memory.dirty i ≡ false
          → (is_dirty c.memory.dirty i ≡ true) ⊎ (is_dirty c.memory.dirty i ≡ false)
          → is_dirty c.memory.dirty i ≡ false
      was_clean i e (inr clean) = clean
      was_clean i e (inl dirty) = absurd (cc (ran.marks_kept i dirty, e))
