-- ===== src/Supervisor/Paged.antt =====
-- Memories of whole pages, over a cycle.
use chronos_uvm.Prelude.{ℕ, ◌≡◌, sym, ap, ◌∙◌, ◌%◌, Option, some, List, Profile, ℕ_discrete}
use chronos_uvm.Prelude.Result.{Result}
use chronos_uvm.Page.{page_size}
use chronos_uvm.Blake3.{Blake3}
use chronos_uvm.ArrayQueue.{ArrayQueue}
use chronos_uvm.Memory.Pages.{IsPaged}
use chronos_uvm.Cell.{Cell}
use chronos_uvm.Io.{drain_for_dispatch}
use chronos_uvm.Replicate.{TickBatch}
use chronos_uvm.Supervisor.{SupervisorError, QuantumExecutor, World, quantum_of}
use chronos_uvm.Supervisor.Cells.{IsDisciplined}
use chronos_uvm.Supervisor.Worlds.{find, IsConsistent, ArePaged}
use chronos_uvm.Supervisor.Cycle.{Ended}
use chronos_uvm.Supervisor.Dispatch.{dispatched, outcome_of}

module _ (B : Blake3) (Q : ArrayQueue TickBatch) (E : QuantumExecutor B) where
  -- `run_one_cycle` keeps every memory of whole pages.
  pub Ended-ArePaged :
      (p : Profile) (w w' : World B Q E) (id : ℕ) (rest : List ℕ) (c : Cell B)
      (answer : Result SupervisorError (Option (ℕ × ℕ)))
      → IsDisciplined B E
      → IsConsistent B Q E w
      → ArePaged B Q E w
      → find B Q E w id ≡ some c
      → Ended B Q E
          (outcome_of B Q E p w id)
          (quantum_of B Q E id c (dispatched B Q E p w id rest))
          (dispatched B Q E p w id rest)
          answer
          w'
      → ArePaged B Q E w'
  unfolding quantum_of
  Ended-ArePaged p w w' id rest c answer disciplined k paged found ended j d e =
      at (ℕ_discrete id j)
    where
      grown :
          (quantum_of B Q E id c (dispatched B Q E p w id rest)).cell.memory.size_bytes % page_size
          ≡ c.memory.size_bytes % page_size
      grown =
          (disciplined (record c { pending_io = (drain_for_dispatch c.pending_io).1 }) (w.held id)
            w.supervisor.max_instructions_per_quantum w.exec
            (k.cells_valid id c found).readable).grown

      at : Dec (id ≡ j) → IsPaged d.memory.size_bytes
      at (yes is) =
          ap (λ (n : ℕ). n % page_size) (ended.size_kept d (ap (find B Q E w') is ∙ e))
          ∙ (grown ∙ paged id c found)
      at (no n) = paged j d (sym (ended.isolated.cells j n) ∙ e)
