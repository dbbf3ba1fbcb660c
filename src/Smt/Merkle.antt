-- ===== src/Smt/Merkle.antt =====
-- The tree that smt.rs stands for: a full binary tree over the leaf hashes.
use chronos_uvm.Prelude.{ℕ, zero, suc, ◌+◌, ◌*◌, ◌≡◌, refl}
use chronos_uvm.Blake3.{Blake3}
use chronos_uvm.Smt.{combine}

module _ (B : Blake3) (leaf : ℕ → B.Hash) where
  -- The hash of the node at height `d` and index `i`, over the leaves `i * 2 ^ d` and so on.
  unfoldable pub node : ℕ → ℕ → B.Hash
  node zero i = leaf i
  node (suc d) i = combine B (node d (i * 2)) (node d (i * 2 + 1))

-- The root of the whole tree: the specification of `root`.
unfoldable pub merkle_root : (B : Blake3) → (ℕ → B.Hash) → B.Hash
merkle_root B leaf = node B leaf 32 0

module _ (B : Blake3) where
  node-ext :
      (leaf leaf' : ℕ → B.Hash)
      → ((i : ℕ) → leaf i ≡ leaf' i)
      → (d i : ℕ) → node B leaf d i ≡ node B leaf' d i
  unfolding node
  node-ext leaf leaf' h zero i = h i
  node-ext leaf leaf' h (suc d) i =
      rw (node-ext leaf leaf' h d (i * 2), node-ext leaf leaf' h d (i * 2 + 1)) refl

  pub merkle_root-ext :
      (leaf leaf' : ℕ → B.Hash)
      → ((i : ℕ) → leaf i ≡ leaf' i)
      → merkle_root B leaf ≡ merkle_root B leaf'
  unfolding merkle_root
  merkle_root-ext leaf leaf' h = node-ext leaf leaf' h 32 0
