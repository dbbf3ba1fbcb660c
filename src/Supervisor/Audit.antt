-- ===== src/Supervisor/Audit.antt =====
-- An audit of a cell's checkpoints, after any history of the supervisor.
use mathlib.Core.Path.{subst}
use mathlib.Core.Option.{some-injective}
use chronos_uvm.Prelude.{ℕ, ◌+◌, ◌<◌, ◌≡◌, sym, ◌∙◌, ◌⊎◌, some, List, length, map, Profile, u64}
use chronos_uvm.Prelude.Result.{ok}
use chronos_uvm.Blake3.{Blake3, Collision}
use chronos_uvm.HostMemory.{HostMemory}
use chronos_uvm.ArrayQueue.{ArrayQueue}
use chronos_uvm.Checkpoint.{Claim, latest, hash_of, verify_chain}
use chronos_uvm.Checkpoint.Chain.{claim}
use chronos_uvm.Checkpoint.Tamper.{AreTicks, verify_chain_binding}
use chronos_uvm.Cell.{Cell}
use chronos_uvm.Replicate.{TickBatch}
use chronos_uvm.Supervisor.{QuantumExecutor}
use chronos_uvm.Supervisor.Cells.{IsDisciplined}
use chronos_uvm.Supervisor.Worlds.{find}
use chronos_uvm.Supervisor.Isolation.{
  Request, AreRequests, Process, IsSound, clock_of, serve_all, serve_all_lem,
}

module _ (B : Blake3) (Q : ArrayQueue TickBatch) (E : QuantumExecutor B) (M : HostMemory) where
  pub served-IsSound :
      (p : Profile) (requests : List Request) (x y : Process B Q E M)
      → IsDisciplined B E
      → IsSound B Q E M x
      → AreRequests requests
      → clock_of B Q E M x + length requests < u64
      → serve_all B Q E M p requests x ≡ some y
      → IsSound B Q E M y
  served-IsSound p requests x y disciplined k all room done =
      let (z, served, sound, separate) =
        serve_all_lem B Q E M p requests x disciplined k all room in
      subst (IsSound B Q E M) (some-injective z y (sym served ∙ done)) sound

  -- With an executor that marks every page that it writes and only pages with a committed byte,
  -- clears no mark, keeps the memory well formed, grows it by whole pages only, and leaves the
  -- mapping, the config, the checkpoints and their tick alone (`IsDisciplined`): after any history
  -- of cycles and of spawns with a `u32` quota and an initial size of whole pages, from a sound
  -- process, in which the clock does not reach its last tick, the claims of any cell's checkpoints
  -- verify to the chain hash of the latest, and any other claims, of `u64` ticks, that verify to
  -- that hash, with a tick, a root or a register digest changed, or a checkpoint added or left
  -- out, would give a collision of BLAKE3.
  pub verify_chain_served :
      (p : Profile) (requests : List Request) (x y : Process B Q E M) (id : ℕ) (c : Cell B)
      (claims : List (Claim B))
      → IsDisciplined B E
      → IsSound B Q E M x
      → AreRequests requests
      → clock_of B Q E M x + length requests < u64
      → serve_all B Q E M p requests x ≡ some y
      → find B Q E y.world id ≡ some c
      → AreTicks B claims
      → verify_chain B claims ≡ ok (hash_of B (latest B c.checkpoints))
      → (verify_chain B (map (claim B) c.checkpoints.entries)
          ≡ ok (hash_of B (latest B c.checkpoints)))
        × ((claims ≡ map (claim B) c.checkpoints.entries) ⊎ Collision B)
  verify_chain_served p requests x y id c claims disciplined k all room done found ticks verified =
      let sound = served-IsSound p requests x y disciplined k all room done in
      let valid = sound.consistent.cells_valid id c found in
      (
        valid.chained,
        verify_chain_binding B claims (map (claim B) c.checkpoints.entries) ticks valid.ticks
            (verified ∙ sym valid.chained),
      )
