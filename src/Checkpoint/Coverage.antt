-- ===== src/Checkpoint/Coverage.antt =====
-- Rehashing the dirty pages alone keeps the tree in step with the whole memory.
use chronos_uvm.Prelude.{
  ℕ, ◌<◌, ◌≡◌, ◌⊎◌, inl, inr, refl, sym, ap, ◌∙◌, true, false, Option, some, List, [], ◌∷◌,
  ℕ_discrete, ◌==◌, if◌then◌else◌, arith, Bool-cases,
}
use chronos_uvm.Prelude.Bits.{bit}
use chronos_uvm.Page.{zero_page}
use chronos_uvm.Blake3.{Blake3}
use chronos_uvm.Dirty.{DirtyPageSet, iter_dirty, is_dirty}
use chronos_uvm.Dirty.Words.{contains}
use chronos_uvm.Dirty.Valid.{iter_dirty_exact}
use chronos_uvm.Smt.{default_hashes, SparseMerkleTree, leaf_hash, update_leaf, root}
use chronos_uvm.Smt.Merkle.{merkle_root, merkle_root-ext}
use chronos_uvm.Smt.Root.{IsValid, update_leaf_lem, root_lem}
use chronos_uvm.Smt
use chronos_uvm.Prelude.Maps.{get}
use chronos_uvm.Checkpoint.{CheckpointEntry, CheckpointChain, new, rehash, checkpoint}
use chronos_uvm.Checkpoint.Chain.{checkpoint_lem}

-- The memory's `page_bytes` returns the page at each of the indices.
abbrev pub Readable : (ℕ → Option (List ℕ)) → (ℕ → List ℕ) → List ℕ → Type 0
Readable page_bytes memory [] = Unit
Readable page_bytes memory (i ∷ pages) =
    (page_bytes i ≡ some (memory i)) × (i < bit 32) × Readable page_bytes memory pages

module _ (B : Blake3) where
  open B use {Hash, hash}

  -- The tree after the pages were rehashed.
  record Rehashed (memory : ℕ → List ℕ) (pages : List ℕ) (t t' : SparseMerkleTree B) : Type 0 where
    valid : IsValid B t'
    leaf :
        (i : ℕ) → leaf_hash B t' i ≡ (if contains i pages then hash (memory i) else leaf_hash B t i)

  rehash_lem :
      (page_bytes : ℕ → Option (List ℕ)) (memory : ℕ → List ℕ) (pages : List ℕ)
      (t : SparseMerkleTree B)
      → IsValid B t
      → Readable page_bytes memory pages
      → (t' : SparseMerkleTree B) × (rehash B page_bytes pages t ≡ some t')
        × Rehashed memory pages t t'
  unfolding rehash
  rehash_lem page_bytes memory [] t v h = (t, refl, record { valid = v; leaf = λ i. refl })
  rehash_lem page_bytes memory (p ∷ pages) t v h =
      let u = update_leaf_lem B t p (memory p) v h.1 in
      let (t', ok, r) =
        rehash_lem page_bytes memory pages (update_leaf B p (memory p) t) u.valid h.2 in
      (
        t',
        rw (h.0, ok),
        record { valid = r.valid; leaf = λ i. r.leaf i ∙ step i (u.leaf i) (ℕ_discrete p i) },
      )
    where
      step :
          (i : ℕ)
          → leaf_hash B (update_leaf B p (memory p) t) i
            ≡ (if i == p then hash (memory p) else leaf_hash B t i)
          → Dec (p ≡ i)
          → (if contains i pages
              then hash (memory i)
              else leaf_hash B (update_leaf B p (memory p) t) i)
            ≡ (if contains i (p ∷ pages) then hash (memory i) else leaf_hash B t i)
      step i e (yes same) = ground (arith, e, ap (λ (k : ℕ). hash (memory k)) same)
      step i e (no other) = ground (arith, e)

  -- The tree has the hash of every page.
  abbrev pub Tracks : SparseMerkleTree B → (ℕ → List ℕ) → Type 0
  Tracks t memory = (i : ℕ) → leaf_hash B t i ≡ hash (memory i)

  -- A new chain has the hash of a memory of zeros.
  pub new-Tracks : Tracks (new B).tree (λ _. zero_page)
  unfolding new Smt.new leaf_hash default_hashes get
  new-Tracks i = refl

  -- If the tree had the hash of every page as it was, and every page that is not marked dirty is
  -- still as it was, then a checkpoint that can read the dirty pages does not panic, and leaves the
  -- tree with the hash of every page as it is: its root is that of the whole memory, though only the
  -- dirty pages were read.
  pub checkpoint-Tracks :
      (tick : ℕ) (page_bytes : ℕ → Option (List ℕ)) (dirty : DirtyPageSet) (digest : Hash)
      (c : CheckpointChain B) (before memory : ℕ → List ℕ)
      → IsValid B c.tree
      → Tracks c.tree before
      → ((i : ℕ) → is_dirty dirty i ≡ false → memory i ≡ before i)
      → Readable page_bytes memory (iter_dirty dirty)
      → (r : CheckpointEntry B × CheckpointChain B) × (checkpoint B tick page_bytes dirty digest c
          ≡ some r)
        × IsValid B r.1.tree
        × Tracks r.1.tree memory
        × (r.0.smt_root ≡ merkle_root B (λ i. hash (memory i)))
  checkpoint-Tracks tick page_bytes dirty digest c before memory v tracks clean readable =
      let (tree, rehashed, t) = rehash_lem page_bytes memory (iter_dirty dirty) c.tree v readable in
      let (r, done, ext) = checkpoint_lem B tick page_bytes dirty digest c tree rehashed in
      let all : Tracks tree memory = λ i. t.leaf i ∙ now i (Bool-cases (is_dirty dirty i)) in
      (
        r,
        done,
        rw ext.tree_kept t.valid,
        rw ext.tree_kept all,
        ext.at_root ∙ (root_lem B tree t.valid ∙ merkle_root-ext B _ _ all),
      )
    where
      now :
          (i : ℕ)
          → (is_dirty dirty i ≡ true) ⊎ (is_dirty dirty i ≡ false)
          → (if contains i (iter_dirty dirty) then hash (memory i) else leaf_hash B c.tree i)
            ≡ hash (memory i)
      now i (inl d) = rw (iter_dirty_exact dirty i, d)
      now i (inr d) = rw (iter_dirty_exact dirty i, d) (tracks i ∙ ap hash (sym (clean i d)))
