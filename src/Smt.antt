-- ===== src/Smt.antt =====
-- chronos-mem/src/smt.rs, the tree: leaves by page index, and the root over all 2^32 pages.
pub mod Merkle
pub mod Levels
pub mod Root
pub mod Binding
mod Examples
pub mod UnitTests
use chronos_uvm.Prelude.{
  ℕ, zero, suc, ◌+◌, ◌*◌, ◌/◌, Bool, true, false, Option, none, some, List, [], ◌∷◌, ◌++◌,
  ℕ_discrete, if◌then◌else◌,
}
use chronos_uvm.Prelude.Maps.{HashMap, get, insert, contains_key}
use chronos_uvm.Page.{zero_page}
use chronos_uvm.Blake3.{Blake3}

abbrev pub tree_depth : ℕ
tree_depth = 32

-- `unwrap_or` on a lookup
abbrev pub get_or {ℓ} : {A : Type ℓ} → A → Option A → A
get_or d none = d
get_or d (some a) = a

module _ (B : Blake3) where
  open B use {Hash, hash, as_bytes}

  -- `hasher.update(left); hasher.update(right); hasher.finalize()`
  pub combine : Hash → Hash → Hash
  combine left right = hash (as_bytes left ++ as_bytes right)

  -- The array `default_hashes`, as a function of the index.
  unfoldable pub default_hashes : ℕ → Hash
  unfolding zero_page combine
  default_hashes zero = hash zero_page
  default_hashes (suc d) = let prev = default_hashes d in combine prev prev

  pub record SparseMerkleTree : Type 0 where
    pub leaves : HashMap ℕ Hash
    pub defaults : ℕ → Hash

  unfoldable pub new : SparseMerkleTree
  new = record { leaves = []; defaults = default_hashes }

  pub update_leaf : ℕ → List ℕ → SparseMerkleTree → SparseMerkleTree
  update_leaf page_idx page_bytes t = record t {
    leaves = insert ℕ_discrete page_idx (hash page_bytes) t.leaves;
  }

  unfoldable pub leaf_hash : SparseMerkleTree → ℕ → Hash
  leaf_hash t page_idx = get_or (t.defaults 0) (get ℕ_discrete page_idx t.leaves)

  -- The hash that the loop over a level computes for `parent`.
  pub parent_hash : Hash → HashMap ℕ Hash → ℕ → Hash
  unfolding combine
  parent_hash default_child level parent =
      let left_idx = parent * 2 in
      combine (get_or default_child (get ℕ_discrete left_idx level))
        (get_or default_child (get ℕ_discrete (left_idx + 1) level))

  -- `for (&idx, _) in level.iter()`, over the entries left, with `next` as filled so far.
  pub fill_next : Hash → HashMap ℕ Hash → List (ℕ × Hash) → HashMap ℕ Hash → HashMap ℕ Hash
  unfolding parent_hash
  fill_next default_child level [] next = next
  fill_next default_child level ((idx, _) ∷ entries) next =
      let parent = idx / 2 in
      fill_next default_child level entries (
        if contains_key ℕ_discrete parent next
        then next
        else insert ℕ_discrete parent (parent_hash default_child level parent) next)

  -- `for depth in 0..TREE_DEPTH`, with `rounds` rounds left.
  pub climb : (ℕ → Hash) → ℕ → ℕ → HashMap ℕ Hash → HashMap ℕ Hash
  unfolding fill_next
  climb defaults zero depth level = level
  climb defaults (suc rounds) depth level =
      climb defaults rounds (depth + 1) (fill_next (defaults depth) level level [])

  -- `into_values().next()`
  abbrev pub first_value : HashMap ℕ Hash → Option Hash
  first_value [] = none
  first_value ((_, h) ∷ _) = some h

  -- The early return for an empty map, and the value that is left after the levels.
  pub root_of : (ℕ → Hash) → HashMap ℕ Hash → Hash
  root_of defaults [] = defaults tree_depth
  root_of defaults (entry ∷ leaves) =
      get_or (defaults tree_depth) (first_value (climb defaults tree_depth 0 (entry ∷ leaves)))

  pub root : SparseMerkleTree → Hash
  unfolding root_of
  root t = root_of t.defaults t.leaves
