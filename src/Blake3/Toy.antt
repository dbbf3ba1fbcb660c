-- ===== src/Blake3/Toy.antt =====
-- A stand-in for the crate, to evaluate the model on: it meets what `Blake3` asks, and is no
-- cryptographic hash.
use mathlib.Core.List.{foldl}
use native.Mathlib.Decide.{ℕ_discrete}
use chronos_uvm.Prelude.{ℕ, ◌+◌, ◌*◌, ◌%◌, ◌^◌, ◌≡◌, refl, ap, List, [], ◌∷◌, length, replicate}
use chronos_uvm.Blake3.{Blake3}

abbrev pub digest : List ℕ → ℕ
digest = foldl (λ acc x. (acc * 257 + x + 1) % 2 ^ 61) 7

-- 32 bytes that begin with the digest.
abbrev pub digest_bytes : ℕ → List ℕ
digest_bytes h = h ∷ replicate 31 0

abbrev first : List ℕ → ℕ
first [] = 0
first (x ∷ xs) = x

pub digest_bytes_injective : (g h : ℕ) → digest_bytes g ≡ digest_bytes h → g ≡ h
digest_bytes_injective g h e = ap first e

pub length-digest_bytes : (h : ℕ) → length (digest_bytes h) ≡ 32
length-digest_bytes h = refl

abbrev pub toy : Blake3
toy = record {
  Hash = ℕ;
  hash = digest;
  as_bytes = digest_bytes;
  length-as_bytes = length-digest_bytes;
  as_bytes_injective = digest_bytes_injective;
  same_hash = ℕ_discrete;
}
