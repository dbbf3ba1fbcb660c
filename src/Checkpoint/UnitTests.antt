-- ===== src/Checkpoint/UnitTests.antt =====
-- The unit test of chronos-mem/src/smt.rs that is about the chain, on the model, over any hash: it
-- passes, or a collision of BLAKE3 is at hand.
use chronos_uvm.Prelude.{
  ℕ, Bool, true, not, ◌≡◌, ◌≢◌, ◌⊎◌, inl, inr, ap, Option, none, some, List, [], ◌∷◌, ◌>>=◌, arith,
}
use chronos_uvm.Prelude.Result.{Result, ok, err}
use chronos_uvm.Blake3.{Blake3, Collision}
use chronos_uvm.Smt
use chronos_uvm.Smt.{update_leaf, root}
use chronos_uvm.Smt.UnitTests.{same, differ_or_collide, page_of}
use chronos_uvm.Checkpoint.{Claim, ChainVerifyError, genesis, fold_claims, verify_chain}
use chronos_uvm.Checkpoint.Tamper.{verify_chain_binding}

-- b"pc=0,sp=" with the last byte
abbrev context : ℕ → List ℕ
context last = b'p' ∷ b'c' ∷ b'=' ∷ b'0' ∷ b',' ∷ b's' ∷ b'p' ∷ b'=' ∷ last ∷ []

contexts_differ : context b'0' ≢ context b'1'
contexts_differ e = absurd (omega (arith, ap ninth e))
  where
    ninth : List ℕ → ℕ
    ninth (_ ∷ _ ∷ _ ∷ _ ∷ _ ∷ _ ∷ _ ∷ _ ∷ x ∷ xs) = x
    ninth _ = 0

module _ (B : Blake3) where
  abbrev unwrap : Result ChainVerifyError B.Hash → Option B.Hash
  unwrap (ok h) = some h
  unwrap (err e) = none

  -- The one claim, with a digest.
  abbrev claims : B.Hash → List (Claim B)
  claims digest = (1, root B (update_leaf B 0 (page_of 1) (Smt.new B)), digest) ∷ []

  checkpoint_chain_is_tamper_evident : Option Bool
  checkpoint_chain_is_tamper_evident = do
    honest_hash ← unwrap (verify_chain B (claims (B.hash (context b'0'))))
    tampered_hash ← unwrap (verify_chain B (claims (B.hash (context b'1'))))
    some (not (same B honest_hash tampered_hash))

  -- The hash of the one claim.
  abbrev chain_hash : ℕ → B.Hash
  chain_hash last = fold_claims B (genesis B) (claims (B.hash (context last)))

  tampered_differs : chain_hash b'0' ≡ chain_hash b'1' → Collision B
  unfolding verify_chain
  tampered_differs e =
      elim (verify_chain_binding B (claims (B.hash (context b'0'))) (claims (B.hash (context b'1')))
        (omega arith, tt) (omega arith, tt) (ap ok e)) [
          | inl equal ↦ record {
            left = context b'0';
            right = context b'1';
            differ = contexts_differ;
            collide = digest equal;
          }
          | inr c ↦ c
        ]
    where
      digest :
          claims (B.hash (context b'0')) ≡ claims (B.hash (context b'1'))
          → B.hash (context b'0') ≡ B.hash (context b'1')
      digest p = ap last_digest p
        where
          last_digest : List (Claim B) → B.Hash
          last_digest [] = genesis B
          last_digest (c ∷ cs) = c.2

  unit_test_passes : (checkpoint_chain_is_tamper_evident ≡ some true) ⊎ Collision B
  unfolding checkpoint_chain_is_tamper_evident verify_chain
  unit_test_passes =
      elim (differ_or_collide B (chain_hash b'0') (chain_hash b'1') tampered_differs) [
        | inl differ ↦ inl (ap some differ)
        | inr c ↦ inr c
      ]
