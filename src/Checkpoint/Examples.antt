-- ===== src/Checkpoint/Examples.antt =====
-- The checkpoint chain at concrete inputs, over the stand-in hash.
use chronos_uvm.Prelude.{ℕ, zero, suc, ◌≡◌, ◌⊎◌, refl, Option, some, List, [], ◌∷◌, false, arith}
use chronos_uvm.Page.{zero_page}
use chronos_uvm.Blake3.{Collision}
use chronos_uvm.Blake3.Toy.{toy, digest}
use chronos_uvm.Dirty.{DirtyPageSet, iter_dirty, is_dirty}
use chronos_uvm.Smt.Merkle.{merkle_root}
use chronos_uvm.Smt
use chronos_uvm.Checkpoint.{CheckpointEntry, CheckpointChain, Claim, new, latest, checkpoint}
use chronos_uvm.Checkpoint.Chain.{IsChained, new-IsChained, checkpoint-IsChained}
use chronos_uvm.Checkpoint.Tamper.{verify_chain_binding}
use chronos_uvm.Checkpoint.Coverage.{Tracks, Readable, new-Tracks, checkpoint-Tracks}

-- Page 0 of ten is dirty.
abbrev page_zero : DirtyPageSet
page_zero = record { bits = 1 ∷ []; capacity_pages = 10; count = 1 }

-- Page 0 was written; a shut function, so that a page is not computed with.
memory : ℕ → List ℕ
memory zero = 5 ∷ []
memory (suc i) = zero_page

page_bytes : ℕ → Option (List ℕ)
page_bytes i = some (memory i)

abbrev start : CheckpointChain toy
start = new toy

start-IsValid : Smt.Root.IsValid toy start.tree
unfolding new Smt.new
start-IsValid = Smt.Root.new-IsValid toy

clean : (i : ℕ) → is_dirty page_zero i ≡ false → memory i ≡ zero_page
unfolding is_dirty memory
clean zero h = cc
clean (suc i) h = refl

readable : Readable page_bytes memory (iter_dirty page_zero)
unfolding iter_dirty page_bytes
readable = (refl, omega arith, tt)

checkpoint-Tracks_example :
    (r : CheckpointEntry toy × CheckpointChain toy) × (checkpoint toy 4 page_bytes page_zero 11
        start
      ≡ some r)
    × Smt.Root.IsValid toy r.1.tree
    × Tracks toy r.1.tree memory
    × (r.0.smt_root ≡ merkle_root toy (λ i. digest (memory i)))
checkpoint-Tracks_example =
    checkpoint-Tracks toy 4 page_bytes page_zero 11 start (λ _. zero_page) memory start-IsValid
      (new-Tracks toy) clean readable

-- The first checkpoint of a new chain.
first_checkpoint :
    (r : CheckpointEntry toy × CheckpointChain toy) × (checkpoint toy 4 page_bytes page_zero 11
        (new toy)
      ≡ some r)
first_checkpoint =
    let all =
      checkpoint-Tracks toy 4 page_bytes page_zero 11 start (λ _. zero_page) memory start-IsValid
        (new-Tracks toy) clean readable in
    (all.0, all.1)

checkpoint-IsChained_example :
    IsChained toy first_checkpoint.0.1
    × (latest toy first_checkpoint.0.1 ≡ some first_checkpoint.0.0)
checkpoint-IsChained_example =
    checkpoint-IsChained toy 4 page_bytes page_zero 11 (new toy) first_checkpoint.0
      (new-IsChained toy) first_checkpoint.1

verify_chain_binding_example :
    (◌≡◌ {A = List (Claim toy)} ((1, 3, 4) ∷ []) ((1, 3, 4) ∷ [])) ⊎ Collision toy
verify_chain_binding_example =
    verify_chain_binding toy ((1, 3, 4) ∷ []) ((1, 3, 4) ∷ []) (omega arith, tt) (omega arith, tt)
      refl
