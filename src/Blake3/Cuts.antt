-- ===== src/Blake3/Cuts.antt =====
-- Equal hashes of equal inputs, or a collision; and inputs made of parts of fixed length.
use chronos_uvm.Prelude.{
  ℕ, ◌≡◌, ◌⊎◌, inl, inr, refl, List, [], ◌∷◌, ◌++◌, length, arith, ℕ_discrete,
}
use chronos_uvm.Blake3.{Blake3, Collision}

bytes_discrete : Discrete (List ℕ)
bytes_discrete = hlevel ℕ_discrete

module _ (B : Blake3) where
  -- Either two inputs with one hash are the same, or they collide.
  pub equal_or_collide : (xs ys : List ℕ) → B.hash xs ≡ B.hash ys → (xs ≡ ys) ⊎ Collision B
  equal_or_collide xs ys h = elim (bytes_discrete xs ys) [
    | yes e ↦ inl e
    | no ne ↦ inr (record { left = xs; right = ys; differ = ne; collide = h })
  ]

-- Two lists cut at the same length.
pub append_cut :
    (xs xs' ys ys' : List ℕ)
    → length xs ≡ length xs'
    → xs ++ ys ≡ xs' ++ ys'
    → (xs ≡ xs') × (ys ≡ ys')
append_cut [] [] ys ys' l e = (refl, e)
append_cut [] (x' ∷ xs') ys ys' l e = absurd (omega arith)
append_cut (x ∷ xs) [] ys ys' l e = absurd (omega arith)
append_cut (x ∷ xs) (x' ∷ xs') ys ys' l e =
    let (tails, rest) = append_cut xs xs' ys ys' (omega arith) (cc) in (cc, rest)
