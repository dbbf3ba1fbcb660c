-- ===== src/Smt/Binding.antt =====
-- The root commits to every leaf: two trees with one root agree everywhere, or BLAKE3 collides.
use native.Mathlib.Nat.{pow-suc}
use chronos_uvm.Prelude.{
  ℕ, zero, suc, ◌+◌, ◌*◌, ◌≤◌, ◌<◌, ◌≡◌, ◌⊎◌, inl, inr, sym, ap, ◌∙◌, ◌++◌, arith, dec_lt,
}
use chronos_uvm.Prelude.Bits.{bit}
use chronos_uvm.Blake3.{Blake3, Collision}
use chronos_uvm.Blake3.Cuts.{equal_or_collide, append_cut}
use chronos_uvm.Smt.{SparseMerkleTree, combine, leaf_hash, root}
use chronos_uvm.Smt.Merkle.{node, merkle_root}
use chronos_uvm.Smt.Root.{IsValid, root_lem}

module _ (B : Blake3) where
  open B use {Hash, as_bytes, length-as_bytes, as_bytes_injective}

  combine_binding :
      (l r l' r' : Hash) → combine B l r ≡ combine B l' r' → ((l ≡ l') × (r ≡ r')) ⊎ Collision B
  unfolding combine
  combine_binding l r l' r' e = split (equal_or_collide B _ _ e)
    where
      split :
          ((as_bytes l ++ as_bytes r) ≡ (as_bytes l' ++ as_bytes r')) ⊎ Collision B
          → ((l ≡ l') × (r ≡ r')) ⊎ Collision B
      split (inl same) =
          let (left, right) =
            append_cut _ _ _ _ (length-as_bytes l ∙ sym (length-as_bytes l')) same in
          inl (as_bytes_injective l l' left, as_bytes_injective r r' right)
      split (inr c) = inr c

  -- The leaves under the node at height `d` and index `i` agree.
  abbrev Agree : (ℕ → Hash) → (ℕ → Hash) → ℕ → ℕ → Type 0
  Agree leaf leaf' d i = (j : ℕ) → i * bit d ≤ j → j < (i + 1) * bit d → leaf j ≡ leaf' j

  Agree-join :
      (leaf leaf' : ℕ → Hash) (d i : ℕ)
      → Agree leaf leaf' d (i * 2)
      → Agree leaf leaf' d (i * 2 + 1)
      → Agree leaf leaf' (suc d) i
  Agree-join leaf leaf' d i left right j lo hi = elim (dec_lt j ((i * 2 + 1) * bit d)) [
    | yes l ↦ left j (omega (arith, ap (λ (t : ℕ). i * t) (pow-suc 2 d))) l
    | no g ↦ right j (omega arith) (omega (arith, pow-suc 2 d, ap (λ (t : ℕ). i * t) (pow-suc 2 d)))
  ]

  node_binding :
      (leaf leaf' : ℕ → Hash) (d i : ℕ)
      → node B leaf d i ≡ node B leaf' d i
      → Agree leaf leaf' d i ⊎ Collision B
  unfolding node
  node_binding leaf leaf' zero i e = inl (λ j lo hi. let same : j ≡ i = omega arith in rw same e)
  node_binding leaf leaf' (suc d) i e =
      split (combine_binding _ _ _ _ e) (node_binding leaf leaf' d (i * 2))
        (node_binding leaf leaf' d (i * 2 + 1))
    where
      join :
          Agree leaf leaf' d (i * 2) ⊎ Collision B
          → Agree leaf leaf' d (i * 2 + 1) ⊎ Collision B
          → Agree leaf leaf' (suc d) i ⊎ Collision B
      join (inl a) (inl b) = inl (Agree-join leaf leaf' d i a b)
      join (inl a) (inr c) = inr c
      join (inr c) _ = inr c

      split :
          ((node B leaf d (i * 2) ≡ node B leaf' d (i * 2))
              × (node B leaf d (i * 2 + 1) ≡ node B leaf' d (i * 2 + 1)))
            ⊎ Collision B
          → (node B leaf d (i * 2) ≡ node B leaf' d (i * 2)
              → Agree leaf leaf' d (i * 2) ⊎ Collision B)
          → (node B leaf d (i * 2 + 1) ≡ node B leaf' d (i * 2 + 1)
              → Agree leaf leaf' d (i * 2 + 1) ⊎ Collision B)
          → Agree leaf leaf' (suc d) i ⊎ Collision B
      split (inl (l, r)) f g = join (f l) (g r)
      split (inr c) f g = inr c

  -- If two valid trees have one root, they have the same leaf hash at each of the 2^32 page
  -- indices, or a collision of BLAKE3 is at hand.
  pub root_binding :
      (t t' : SparseMerkleTree B)
      → IsValid B t
      → IsValid B t'
      → root B t ≡ root B t'
      → ((i : ℕ) → i < bit 32 → leaf_hash B t i ≡ leaf_hash B t' i) ⊎ Collision B
  unfolding merkle_root
  root_binding t t' v v' e = split (
      node_binding (leaf_hash B t) (leaf_hash B t') 32 0
        (sym (root_lem B t v) ∙ (e ∙ root_lem B t' v')))
    where
      split :
          Agree (leaf_hash B t) (leaf_hash B t') 32 0 ⊎ Collision B
          → ((i : ℕ) → i < bit 32 → leaf_hash B t i ≡ leaf_hash B t' i) ⊎ Collision B
      split (inl a) = inl (λ i h. a i (omega arith) (omega arith))
      split (inr c) = inr c
