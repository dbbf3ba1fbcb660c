-- ===== src/Smt/Root.antt =====
-- `root` and `update_leaf` of smt.rs against the full tree.
use chronos_uvm.Prelude.{
  ℕ, zero, suc, ◌+◌, ◌<◌, ◌≡◌, refl, sym, ap, ◌∙◌, none, List, [], ◌∷◌, ℕ_discrete, if◌then◌else◌,
  ◌==◌, arith,
}
use chronos_uvm.Prelude.Bits.{bit}
use chronos_uvm.Prelude.Maps.{HashMap, get, get-insert}
use chronos_uvm.Page.{zero_page}
use chronos_uvm.Blake3.{Blake3}
use chronos_uvm.Smt.{
  SparseMerkleTree, get_or, default_hashes, new, update_leaf, leaf_hash, climb, first_value, root,
  root_of, tree_depth,
}
use chronos_uvm.Smt.Merkle.{node, merkle_root, merkle_root-ext}
use chronos_uvm.Smt.Levels.{KeysBelow, KeysBelow-insert, IsLevel, IsLevel-climb}

module _ (B : Blake3) where
  open B use {Hash, hash}

  -- The tree has the program's table of defaults, and page indices of 32 bits.
  pub record IsValid (t : SparseMerkleTree B) : Type 0 where
    pub table : t.defaults ≡ default_hashes B
    pub below : KeysBelow (bit 32) t.leaves

  -- At height 32 only index 0 is left, so the first value is that of the root.
  top :
      (leaf : ℕ → Hash) (d : ℕ) (m : HashMap ℕ Hash)
      → IsLevel B leaf 0 d m
      → get_or (default_hashes B d) (first_value B m) ≡ node B leaf d 0
  unfolding get
  top leaf d [] l = l.agrees 0
  top leaf d ((k, h) ∷ m) l = ground (arith, l.below, l.agrees 0)

  -- The leaves are level 0.
  start :
      (t : SparseMerkleTree B) (k : ℕ)
      → t.defaults ≡ default_hashes B
      → KeysBelow (bit k) t.leaves
      → IsLevel B (leaf_hash B t) k 0 t.leaves
  unfolding leaf_hash node
  start t k table b = record {
    agrees = λ i. ap (λ (f : ℕ → Hash). get_or (f 0) (get ℕ_discrete i t.leaves)) (sym table);
    below = b;
  }

  climbed :
      (t : SparseMerkleTree B) (k : ℕ)
      → t.defaults ≡ default_hashes B
      → KeysBelow (bit k) t.leaves
      → get_or (t.defaults k) (first_value B (climb B t.defaults k 0 t.leaves))
        ≡ node B (leaf_hash B t) k 0
  climbed t k table b =
      ap (λ (f : ℕ → Hash). get_or (f k) (first_value B (climb B f k 0 t.leaves))) table
      ∙ top (leaf_hash B t) k _
          (IsLevel-climb B (leaf_hash B t) k 0 k t.leaves (omega arith) (start t k table b))

  -- An empty level is all default.
  empty_climb : (f : ℕ → Hash) (n d : ℕ) → climb B f n d [] ≡ []
  unfolding climb
  empty_climb f zero d = refl
  empty_climb f (suc n) d = empty_climb f n (d + 1)

  root_of_lem :
      (f : ℕ → Hash) (m : HashMap ℕ Hash)
      → root_of B f m ≡ get_or (f tree_depth) (first_value B (climb B f tree_depth 0 m))
  unfolding root_of
  root_of_lem f [] =
      ap (λ m. get_or (f tree_depth) (first_value B m)) (sym (empty_climb f tree_depth 0))
  root_of_lem f (entry ∷ m) = refl

  -- `root` is the root of the full binary tree over the 2^32 leaf hashes, whatever the order in
  -- which the map of the leaves is iterated.
  pub root_lem : (t : SparseMerkleTree B) → IsValid t → root B t ≡ merkle_root B (leaf_hash B t)
  unfolding merkle_root root
  root_lem t v = root_of_lem t.defaults t.leaves ∙ climbed t 32 v.table v.below

  -- What `update_leaf` leaves: a valid tree in which that page alone has a new leaf.
  pub record Updated (t : SparseMerkleTree B) (idx : ℕ) (page : List ℕ) (t' : SparseMerkleTree B)
      : Type 0 where
    pub valid : IsValid t'
    pub leaf : (i : ℕ) → leaf_hash B t' i ≡ (if i == idx then hash page else leaf_hash B t i)

  pub update_leaf_lem :
      (t : SparseMerkleTree B) (idx : ℕ) (page : List ℕ)
      → IsValid t
      → idx < bit 32
      → Updated t idx page (update_leaf B idx page t)
  unfolding update_leaf leaf_hash
  update_leaf_lem t idx page v h = record {
    valid = record {
      table = v.table;
      below = KeysBelow-insert (bit 32) idx (hash page) t.leaves h v.below;
    };
    leaf = λ i. ground (arith, get-insert ℕ_discrete idx i (hash page) t.leaves);
  }

  pub new-IsValid : IsValid (new B)
  unfolding new
  new-IsValid = record { table = refl; below = tt }

  blank_leaf :
      (t : SparseMerkleTree B) (idx : ℕ)
      → IsValid t
      → get ℕ_discrete idx t.leaves ≡ none
      → leaf_hash B t idx ≡ hash zero_page
  unfolding leaf_hash default_hashes
  blank_leaf t idx v absent = rw (absent, v.table)

  -- Hashing a page of zeros that was not hashed before leaves the root as it was: a clean page and
  -- one that was written and is zero again are not told apart.
  pub root-update_leaf_zero :
      (t : SparseMerkleTree B) (idx : ℕ)
      → IsValid t
      → idx < bit 32
      → get ℕ_discrete idx t.leaves ≡ none
      → root B (update_leaf B idx zero_page t) ≡ root B t
  root-update_leaf_zero t idx v h absent =
      let u = update_leaf_lem t idx zero_page v h in
      root_lem (update_leaf B idx zero_page t) u.valid
      ∙ (merkle_root-ext B _ _ (λ i. u.leaf i ∙ unchanged i (ℕ_discrete i idx))
          ∙ sym (root_lem t v))
    where
      absent_leaf : leaf_hash B t idx ≡ hash zero_page
      absent_leaf = blank_leaf t idx v absent

      unchanged :
          (i : ℕ)
          → Dec (i ≡ idx)
          → (if i == idx then hash zero_page else leaf_hash B t i) ≡ leaf_hash B t i
      unchanged i (yes e) = rw (e, absent_leaf) (ground arith)
      unchanged i (no ne) = ground arith
