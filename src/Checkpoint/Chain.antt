-- ===== src/Checkpoint/Chain.antt =====
-- The entries of a chain against the verifier that an auditor runs on their claims.
use chronos_uvm.Prelude.{
  ℕ, ◌≡◌, refl, sym, ap, ◌∙◌, Option, none, some, List, [], ◌∷◌, ◌++◌, map, get_last?,
  get_last?-snoc, Option-cases, inl, inr, ◌⊎◌,
}
use mathlib.Core.List.{map-append}
use mathlib.Core.Option.{some-injective}
use mathlib.Core.Path.{subst}
use chronos_uvm.Prelude.Result.{ok}
use chronos_uvm.Blake3.{Blake3}
use chronos_uvm.Dirty.{DirtyPageSet, iter_dirty}
use chronos_uvm.Smt.{SparseMerkleTree, root}
use chronos_uvm.Checkpoint.{
  CheckpointEntry, CheckpointChain, Claim, new, genesis, link, latest, hash_of, rehash, next_entry,
  checkpoint, fold_claims, verify_chain,
}

module _ (B : Blake3) where
  open B use {Hash}

  -- What an entry claims.
  abbrev pub claim : CheckpointEntry B → Claim B
  claim e = (e.tick, e.smt_root, e.register_digest)

  -- Replaying the claims of the entries gives the chain hash of the last one.
  abbrev pub IsChained : CheckpointChain B → Type 0
  IsChained c = verify_chain B (map claim c.entries) ≡ ok (hash_of B (latest B c))

  fold_claims-append :
      (h : Hash) (xs ys : List (Claim B))
      → fold_claims B h (xs ++ ys) ≡ fold_claims B (fold_claims B h xs) ys
  unfolding fold_claims
  fold_claims-append h [] ys = refl
  fold_claims-append h ((t, r, d) ∷ xs) ys = fold_claims-append (link B h t r d) xs ys

  pub new-IsChained : IsChained (new B)
  unfolding new verify_chain latest
  new-IsChained = refl

  module _ (tick : ℕ) (page_bytes : ℕ → Option (List ℕ)) (dirty : DirtyPageSet) (digest : Hash)
      (c : CheckpointChain B) where
    -- What `checkpoint` returns and leaves, once the leaves are up to date.
    pub record Extended (tree : SparseMerkleTree B) (r : CheckpointEntry B × CheckpointChain B)
        : Type 0 where
      pub tree_kept : r.1.tree ≡ tree
      pub appended : r.1.entries ≡ c.entries ++ r.0 ∷ []
      pub at_tick : r.0.tick ≡ tick
      pub at_root : r.0.smt_root ≡ root B tree
      pub at_digest : r.0.register_digest ≡ digest
      pub linked : r.0.chain_hash ≡ link B (hash_of B (latest B c)) tick (root B tree) digest

    rehash-none :
        rehash B page_bytes (iter_dirty dirty) c.tree ≡ none
        → checkpoint B tick page_bytes dirty digest c ≡ none
    unfolding checkpoint
    rehash-none n = rw n

    pub checkpoint_lem :
        (tree : SparseMerkleTree B)
        → rehash B page_bytes (iter_dirty dirty) c.tree ≡ some tree
        → (r : CheckpointEntry B × CheckpointChain B) × (checkpoint B tick page_bytes dirty digest c
            ≡ some r)
          × Extended tree r
    unfolding checkpoint
    checkpoint_lem tree rehashed = (
      (
        next_entry B tick tree digest (latest B c),
        record {
          tree = tree;
          entries = c.entries ++ next_entry B tick tree digest (latest B c) ∷ [];
        },
      ),
      rw rehashed,
      record {
        tree_kept = refl;
        appended = refl;
        at_tick = refl;
        at_root = refl;
        at_digest = refl;
        linked = refl;
      },
    )

    pub checkpoint_inv :
        (r : CheckpointEntry B × CheckpointChain B)
        → checkpoint B tick page_bytes dirty digest c ≡ some r
        → (tree : SparseMerkleTree B) × (rehash B page_bytes (iter_dirty dirty) c.tree ≡ some tree)
          × Extended tree r
    checkpoint_inv r e = split (Option-cases (rehash B page_bytes (iter_dirty dirty) c.tree))
      where
        split :
            (rehash B page_bytes (iter_dirty dirty) c.tree ≡ none)
              ⊎ ((tree : SparseMerkleTree B) × (rehash B page_bytes (iter_dirty dirty) c.tree
                    ≡ some tree))
            → (tree : SparseMerkleTree B) × (rehash B page_bytes (iter_dirty dirty) c.tree
                ≡ some tree)
              × Extended tree r
        split (inl n) = absurd (cc (rehash-none n))
        split (inr (tree, ok_tree)) =
            let (r₀, e₀, ext) = checkpoint_lem tree ok_tree in
            (tree, ok_tree, subst (Extended tree) (some-injective r₀ r (sym e₀ ∙ e)) ext)

    -- A checkpoint keeps the chain verifiable: an auditor who replays the claims of all its entries,
    -- the new one included, gets the chain hash of the new entry, which is then the latest one.
    pub checkpoint-IsChained :
        (r : CheckpointEntry B × CheckpointChain B)
        → IsChained c
        → checkpoint B tick page_bytes dirty digest c ≡ some r
        → IsChained r.1 × (latest B r.1 ≡ some r.0)
    unfolding latest verify_chain
    checkpoint-IsChained r h e =
        let (tree, rehashed, ext) = checkpoint_inv r e in
        let newest : latest B r.1 ≡ some r.0 =
          ap get_last? ext.appended ∙ get_last?-snoc c.entries r.0 in
        (
          ap (λ es. verify_chain B (map claim es)) ext.appended
              ∙ (ap ok (replay tree ext) ∙ ap (λ o. ok (hash_of B o)) (sym newest)),
          newest,
        )
      where
        fold_h : fold_claims B (genesis B) (map claim c.entries) ≡ hash_of B (latest B c)
        fold_h = cc

        replay :
            (tree : SparseMerkleTree B)
            → Extended tree r
            → fold_claims B (genesis B) (map claim (c.entries ++ r.0 ∷ [])) ≡ r.0.chain_hash
        replay tree ext =
            rw
              (
                map-append,
                fold_claims-append (genesis B) (map claim c.entries) (claim r.0 ∷ []),
                fold_h,
              )
              (cc (ext.at_tick, ext.at_root, ext.at_digest, ext.linked))
