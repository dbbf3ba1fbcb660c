-- ===== src/Smt/Examples.antt =====
-- smt.rs's tree at concrete inputs, over the stand-in hash.
use chronos_uvm.Prelude.{ℕ, ◌<◌, ◌≡◌, ◌⊎◌, refl, ◌∷◌, [], arith, ℕ_discrete}
use chronos_uvm.Prelude.Bits.{bit}
use chronos_uvm.Prelude.Maps.{get, insert}
use chronos_uvm.Page.{zero_page}
use chronos_uvm.Blake3.{Collision}
use chronos_uvm.Blake3.Toy.{toy}
use chronos_uvm.Smt.{SparseMerkleTree, new, update_leaf, leaf_hash, root, climb}
use chronos_uvm.Smt.Merkle.{merkle_root}
use chronos_uvm.Smt.Root.{IsValid, new-IsValid, update_leaf_lem, root_lem, root-update_leaf_zero}
use chronos_uvm.Smt.Binding.{root_binding}

abbrev empty : SparseMerkleTree toy
empty = new toy

abbrev one_leaf : SparseMerkleTree toy
one_leaf = update_leaf toy 1234 (9 ∷ []) empty

abbrev two_leaves : SparseMerkleTree toy
two_leaves = update_leaf toy 5 (2 ∷ []) one_leaf

-- The leaves of `two_leaves`, inserted in the other order.
abbrev reordered : SparseMerkleTree toy
reordered = update_leaf toy 1234 (9 ∷ []) (update_leaf toy 5 (2 ∷ []) empty)

empty-IsValid : IsValid toy empty
empty-IsValid = new-IsValid toy

one_leaf-IsValid : IsValid toy one_leaf
one_leaf-IsValid = (update_leaf_lem toy empty 1234 (9 ∷ []) empty-IsValid (omega arith)).valid

two_leaves-IsValid : IsValid toy two_leaves
two_leaves-IsValid = (update_leaf_lem toy one_leaf 5 (2 ∷ []) one_leaf-IsValid (omega arith)).valid

same_root : root toy two_leaves ≡ root toy reordered
unfolding root update_leaf new climb insert ℕ_discrete get
same_root = refl

root_lem_example : root toy two_leaves ≡ merkle_root toy (leaf_hash toy two_leaves)
root_lem_example = root_lem toy two_leaves two_leaves-IsValid

root-update_leaf_zero_example : root toy (update_leaf toy 7 zero_page one_leaf) ≡ root toy one_leaf
unfolding get update_leaf new insert ℕ_discrete
root-update_leaf_zero_example =
    root-update_leaf_zero toy one_leaf 7 one_leaf-IsValid (omega arith) refl

root_binding_example :
    ((i : ℕ) → i < bit 32 → leaf_hash toy two_leaves i ≡ leaf_hash toy two_leaves i) ⊎ Collision toy
root_binding_example =
    root_binding toy two_leaves two_leaves two_leaves-IsValid two_leaves-IsValid refl
