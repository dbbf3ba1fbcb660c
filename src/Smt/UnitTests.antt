-- ===== src/Smt/UnitTests.antt =====
-- The unit tests of chronos-mem/src/smt.rs that are about the tree, on the model, over any hash: a
-- test that asks for two different roots passes, or a collision of BLAKE3 is at hand.
use mathlib.Core.Bool.{decide, decide_iff}
use chronos_uvm.Prelude.{
  ℕ, Bool, true, not, ◌≡◌, ◌≢◌, ◌⊎◌, inl, inr, refl, sym, ap, List, [], ◌∷◌, replicate, arith,
  ℕ_discrete,
}
use chronos_uvm.Prelude.Maps.{get, insert}
use chronos_uvm.Page.{page_size, zero_page}
use chronos_uvm.Blake3.{Blake3, Collision}
use chronos_uvm.Smt.{SparseMerkleTree, new, update_leaf, leaf_hash, root, default_hashes}
use chronos_uvm.Smt.Root.{new-IsValid, update_leaf_lem}
use chronos_uvm.Smt.Binding.{root_binding}

-- `[byte; PAGE_SIZE]`
abbrev pub page_of : ℕ → List ℕ
page_of byte = replicate page_size byte

module _ (B : Blake3) where
  -- `==` of two hashes, as the assertions use it
  abbrev pub same : B.Hash → B.Hash → Bool
  same g h = decide (B.same_hash g h)

  same_lem : (g h : B.Hash) → g ≡ h → same g h ≡ true
  same_lem g h e = (decide_iff (B.same_hash g h)).1 e

  -- Two hashes that only a collision could make equal.
  pub differ_or_collide :
      (g h : B.Hash) → (g ≡ h → Collision B) → (not (same g h) ≡ true) ⊎ Collision B
  unfolding decide
  differ_or_collide g h collides = decided (B.same_hash g h)
    where
      decided : (d : Dec (g ≡ h)) → (not (decide d) ≡ true) ⊎ Collision B
      decided (yes e) = inr (collides e)
      decided (no ne) = inl refl

  empty_tree_root_is_stable : Bool
  empty_tree_root_is_stable = let t1 = new B in let t2 = new B in same (root B t1) (root B t2)

  touching_a_leaf_changes_the_root : Bool
  touching_a_leaf_changes_the_root =
      let t = new B in
      let empty_root = root B t in
      let touched_root = root B (update_leaf B 1234 (page_of 9) t) in
      not (same empty_root touched_root)

  -- `for (idx, byte) in [..] { t.update_leaf(idx, &[byte; PAGE_SIZE]); }`
  update_leaves : List (ℕ × ℕ) → SparseMerkleTree B → SparseMerkleTree B
  update_leaves [] t = t
  update_leaves ((idx, byte) ∷ rest) t = update_leaves rest (update_leaf B idx (page_of byte) t)

  same_touched_pages_same_root_across_instances : Bool
  unfolding update_leaves
  same_touched_pages_same_root_across_instances =
      let touched = (0, 1) ∷ (5, 2) ∷ (1000000, 3) ∷ [] in
      let t1 = update_leaves touched (new B) in
      let t2 = update_leaves touched (new B) in same (root B t1) (root B t2)

  nines : page_of 9 ≢ zero_page
  unfolding zero_page
  nines e = absurd (omega (arith, ap first e))
    where
      first : List ℕ → ℕ
      first [] = 0
      first (x ∷ xs) = x

  touched_differs : root B (new B) ≡ root B (update_leaf B 1234 (page_of 9) (new B)) → Collision B
  unfolding leaf_hash new update_leaf default_hashes get insert ℕ_discrete
  touched_differs e =
      elim (root_binding B (new B) (update_leaf B 1234 (page_of 9) (new B)) (new-IsValid B)
        (update_leaf_lem B (new B) 1234 (page_of 9) (new-IsValid B) (omega arith)).valid e) [
          | inl agree ↦ record {
            left = page_of 9;
            right = zero_page;
            differ = nines;
            collide = sym (agree 1234 (omega arith));
          }
          | inr c ↦ c
        ]

  unit_tests_pass :
      (empty_tree_root_is_stable ≡ true)
      × ((touching_a_leaf_changes_the_root ≡ true) ⊎ Collision B)
      × (same_touched_pages_same_root_across_instances ≡ true)
  unfolding empty_tree_root_is_stable touching_a_leaf_changes_the_root
      same_touched_pages_same_root_across_instances
  unit_tests_pass = (
    same_lem (root B (new B)) (root B (new B)) refl,
    differ_or_collide _ _ touched_differs,
    same_lem _ _ refl,
  )
