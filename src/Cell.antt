-- ===== src/Cell.antt =====
-- chronos-core/src/cell.rs: the state of one tenant.
use chronos_uvm.Prelude.{ℕ, ◌-◌, Bool, leb, Option, some, Profile, ◌>>=◌}
use chronos_uvm.Prelude.Result.{Result, ok, err}
use chronos_uvm.Blake3.{Blake3}
use chronos_uvm.HostMemory.{HostMemory}
use chronos_uvm.Memory
use chronos_uvm.Memory.{MemFault, MmapGuardedMemory}
use chronos_uvm.EventLog
use chronos_uvm.EventLog.{RecorderMode, EventRecorder}
use chronos_uvm.Checkpoint
use chronos_uvm.Checkpoint.{CheckpointChain}
use chronos_uvm.Io
use chronos_uvm.Io.{FdTable, PendingCompletions, no_completions}

pub record CellConfig : Type 0 where
  pub id : ℕ
  pub initial_memory_bytes : ℕ
  pub quota_bytes : ℕ
  pub checkpoint_interval_ticks : ℕ

module _ (B : Blake3) where
  pub record Cell : Type 0 where
    pub config : CellConfig
    pub memory : MmapGuardedMemory
    pub recorder : EventRecorder
    pub checkpoints : CheckpointChain B
    pub fd_table : FdTable
    pub pending_io : PendingCompletions
    pub last_checkpoint_tick : ℕ

  -- A cell around the memory that was made for it.
  unfoldable pub with_memory : CellConfig → RecorderMode → MmapGuardedMemory → Cell
  with_memory config mode memory = record {
    config = config;
    memory = memory;
    recorder = EventLog.new mode;
    checkpoints = Checkpoint.new B;
    fd_table = Io.new;
    pending_io = no_completions;
    last_checkpoint_tick = 0;
  }

  unfoldable pub new :
      Profile
      → (M : HostMemory) → CellConfig
      → RecorderMode
      → M.Host
      → Option (Result MemFault Cell × M.Host)
  unfolding with_memory
  new p M config recorder_mode h = do
    (memory, h) ← Memory.new p M config.initial_memory_bytes config.quota_bytes h
    some (elim memory [ err e ↦ err e | ok m ↦ ok (with_memory config recorder_mode m) ], h)

  -- `saturating_sub` stops at 0, as `-` does here.
  unfoldable pub checkpoint_due : ℕ → Cell → Bool
  checkpoint_due current_tick c =
      leb c.config.checkpoint_interval_ticks (current_tick - c.last_checkpoint_tick)
