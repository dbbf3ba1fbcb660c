-- ===== src/Checkpoint/Tamper.antt =====
-- The chain is tamper-evident: claims with one final hash are the same claims, or BLAKE3 collides.
use mathlib.Core.List.{append-nil}
use chronos_uvm.Prelude.{
  ℕ, zero, suc, ◌/◌, ◌%◌, ◌^◌, ◌<◌, ◌≡◌, ◌⊎◌, inl, inr, refl, sym, ap, ◌∙◌, List, [], ◌∷◌, ◌++◌,
  length, length-append, arith, u64,
}
use native.Mathlib.Nat.{pow-suc}
use chronos_uvm.Prelude.Result.{Result, ok}
use chronos_uvm.Blake3.{Blake3, Collision}
use chronos_uvm.Blake3.Cuts.{equal_or_collide, append_cut}
use chronos_uvm.Checkpoint.{
  ChainVerifyError, Claim, le_bytes, genesis, genesis_text, link, fold_claims, verify_chain,
}

length-le_bytes : (n x : ℕ) → length (le_bytes n x) ≡ n
unfolding le_bytes
length-le_bytes zero x = refl
length-le_bytes (suc n) x = ap suc (length-le_bytes n (x / 256))

-- `n` bytes tell the numbers below 256 ^ n apart.
le_bytes_injective : (n x y : ℕ) → x < 256 ^ n → y < 256 ^ n → le_bytes n x ≡ le_bytes n y → x ≡ y
unfolding le_bytes
le_bytes_injective zero x y hx hy e = omega arith
le_bytes_injective (suc n) x y hx hy e =
    let low : x % 256 ≡ y % 256 = cc in
    let high : x / 256 ≡ y / 256 =
      le_bytes_injective n (x / 256) (y / 256) (omega (arith, pow-suc 256 n))
        (omega (arith, pow-suc 256 n)) (cc) in
    omega arith

module _ (B : Blake3) where
  open B use {Hash, hash, as_bytes, length-as_bytes, as_bytes_injective}

  -- The bytes that one link hashes.
  abbrev link_bytes : Hash → Claim B → List ℕ
  link_bytes prev c = as_bytes prev ++ (as_bytes c.1 ++ (as_bytes c.2 ++ le_bytes 8 c.0))

  length-link_bytes : (prev : Hash) (c : Claim B) → length (link_bytes prev c) ≡ 104
  length-link_bytes prev c = omega (
    arith,
    length-append (as_bytes prev) (as_bytes c.1 ++ (as_bytes c.2 ++ le_bytes 8 c.0)),
    length-append (as_bytes c.1) (as_bytes c.2 ++ le_bytes 8 c.0),
    length-append (as_bytes c.2) (le_bytes 8 c.0),
    length-as_bytes prev,
    length-as_bytes c.1,
    length-as_bytes c.2,
    length-le_bytes 8 c.0,
  )

  abbrev link_claim : Hash → Claim B → Hash
  link_claim prev c = link B prev c.0 c.1 c.2

  cut_hash :
      (g h : Hash) (xs ys : List ℕ) → (as_bytes g ++ xs) ≡ (as_bytes h ++ ys) → (g ≡ h) × (xs ≡ ys)
  cut_hash g h xs ys e =
      let (first, rest) =
        append_cut (as_bytes g) (as_bytes h) xs ys (length-as_bytes g ∙ sym (length-as_bytes h))
          e in
      (as_bytes_injective g h first, rest)

  claims_of_bytes :
      (g h : Hash) (c d : Claim B)
      → c.0 < u64
      → d.0 < u64
      → link_bytes g c ≡ link_bytes h d
      → (g ≡ h) × (c ≡ d)
  claims_of_bytes g h c d hc hd e =
      let (prev, e₁) = cut_hash g h _ _ e in
      let (root, e₂) = cut_hash c.1 d.1 _ _ e₁ in
      let (digest, e₃) = cut_hash c.2 d.2 _ _ e₂ in
      let tick = le_bytes_injective 8 c.0 d.0 hc hd e₃ in (prev, λ i. (tick i, root i, digest i))

  link_binding :
      (g h : Hash) (c d : Claim B)
      → c.0 < u64
      → d.0 < u64
      → link_claim g c ≡ link_claim h d
      → ((g ≡ h) × (c ≡ d)) ⊎ Collision B
  unfolding link
  link_binding g h c d hc hd e = split (equal_or_collide B (link_bytes g c) (link_bytes h d) e)
    where
      split : (link_bytes g c ≡ link_bytes h d) ⊎ Collision B → ((g ≡ h) × (c ≡ d)) ⊎ Collision B
      split (inl same) = inl (claims_of_bytes g h c d hc hd same)
      split (inr col) = inr col

  -- A link is never the genesis hash, unless the hash collides: its input is longer.
  genesis_link : (h : Hash) (c : Claim B) → genesis B ≡ link_claim h c → Collision B
  unfolding genesis link
  genesis_link h c e = record {
    left = genesis_text;
    right = link_bytes h c;
    differ =
        λ same. absurd (omega (arith, ap (λ (t : List ℕ). length t) same, length-link_bytes h c));
    collide = e;
  }

  -- The chain hash by recursion from the newest claim.
  abbrev chain_of : List (Claim B) → Hash
  chain_of [] = genesis B
  chain_of (c ∷ older) = link_claim (chain_of older) c

  abbrev rev_onto : List (Claim B) → List (Claim B) → List (Claim B)
  rev_onto [] ys = ys
  rev_onto (x ∷ xs) ys = rev_onto xs (x ∷ ys)

  rev_onto-twice :
      (xs ys zs : List (Claim B)) → rev_onto (rev_onto xs ys) zs ≡ rev_onto ys (xs ++ zs)
  rev_onto-twice [] ys zs = refl
  rev_onto-twice (x ∷ xs) ys zs = rev_onto-twice xs (x ∷ ys) zs

  fold_claims-chain_of :
      (xs ys : List (Claim B)) → fold_claims B (chain_of ys) xs ≡ chain_of (rev_onto xs ys)
  unfolding fold_claims
  fold_claims-chain_of [] ys = refl
  fold_claims-chain_of (x ∷ xs) ys = fold_claims-chain_of xs (x ∷ ys)

  -- Every tick is a `u64`.
  abbrev pub AreTicks : List (Claim B) → Type 0
  AreTicks [] = Unit
  AreTicks (c ∷ cs) = (c.0 < u64) × AreTicks cs

  pub AreTicks-snoc :
      (xs : List (Claim B)) (x : Claim B) → AreTicks xs → x.0 < u64 → AreTicks (xs ++ x ∷ [])
  AreTicks-snoc [] x h lt = (lt, tt)
  AreTicks-snoc (y ∷ xs) x h lt = (h.0, AreTicks-snoc xs x h.1 lt)

  AreTicks-rev_onto :
      (xs ys : List (Claim B)) → AreTicks xs → AreTicks ys → AreTicks (rev_onto xs ys)
  AreTicks-rev_onto [] ys hx hy = hy
  AreTicks-rev_onto (x ∷ xs) ys hx hy = AreTicks-rev_onto xs (x ∷ ys) hx.1 (hx.0, hy)

  chain_binding :
      (xs ys : List (Claim B))
      → AreTicks xs
      → AreTicks ys
      → chain_of xs ≡ chain_of ys
      → (xs ≡ ys) ⊎ Collision B
  chain_binding [] [] hx hy e = inl refl
  chain_binding [] (d ∷ ys) hx hy e = inr (genesis_link (chain_of ys) d e)
  chain_binding (c ∷ xs) [] hx hy e = inr (genesis_link (chain_of xs) c (sym e))
  chain_binding (c ∷ xs) (d ∷ ys) hx hy e =
      split (link_binding (chain_of xs) (chain_of ys) c d hx.0 hy.0 e)
        (chain_binding xs ys hx.1 hy.1)
    where
      older : c ≡ d → (xs ≡ ys) ⊎ Collision B → (c ∷ xs ≡ d ∷ ys) ⊎ Collision B
      older e (inl same) = inl (λ i. e i ∷ same i)
      older e (inr col) = inr col

      split :
          ((chain_of xs ≡ chain_of ys) × (c ≡ d)) ⊎ Collision B
          → (chain_of xs ≡ chain_of ys → (xs ≡ ys) ⊎ Collision B)
          → (c ∷ xs ≡ d ∷ ys) ⊎ Collision B
      split (inl (before, same)) f = older same (f before)
      split (inr col) f = inr col

  -- Two sequences of claims that verify to one hash are the same sequence: no tick, root or digest
  -- can be altered, and no claim added or dropped, unless a collision of BLAKE3 is at hand.
  pub verify_chain_binding :
      (xs ys : List (Claim B))
      → AreTicks xs
      → AreTicks ys
      → verify_chain B xs ≡ verify_chain B ys
      → (xs ≡ ys) ⊎ Collision B
  unfolding verify_chain
  verify_chain_binding xs ys hx hy e = split (
      chain_binding (rev_onto xs []) (rev_onto ys []) (AreTicks-rev_onto xs [] hx tt)
        (AreTicks-rev_onto ys [] hy tt)
        (sym (fold_claims-chain_of xs []) ∙ (ok_injective e ∙ fold_claims-chain_of ys [])))
    where
      ok_injective : {g h : Hash} → ◌≡◌ {A = Result ChainVerifyError Hash} (ok g) (ok h) → g ≡ h
      ok_injective p = cc

      back : (zs : List (Claim B)) → rev_onto (rev_onto zs []) [] ≡ zs
      back zs = rev_onto-twice zs [] [] ∙ append-nil zs

      split : (rev_onto xs [] ≡ rev_onto ys []) ⊎ Collision B → (xs ≡ ys) ⊎ Collision B
      split (inl same) = inl (sym (back xs) ∙ (ap (λ zs. rev_onto zs []) same ∙ back ys))
      split (inr col) = inr col
