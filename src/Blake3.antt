-- ===== src/Blake3.antt =====
-- The crate `blake3`, which the program only calls: what it relies on, as a parameter.
-- A `Hasher` that is updated several times hashes the bytes in a row, so `finalize` is `hash` of
-- the appended parts. Nothing is assumed of collisions: where the program's guarantees rest on
-- there being none, the theorems produce the two inputs that collide.
pub mod Cuts
pub mod Toy
use chronos_uvm.Prelude.{ℕ, ◌≡◌, ◌≢◌, List, length}

pub record Blake3 : Type 1 where
  pub Hash : Type 0
  pub hash : List ℕ → Hash
  -- a `Hash` is 32 bytes, compared by `==`
  pub as_bytes : Hash → List ℕ
  pub length-as_bytes : (h : Hash) → length (as_bytes h) ≡ 32
  pub as_bytes_injective : (g h : Hash) → as_bytes g ≡ as_bytes h → g ≡ h
  pub same_hash : Discrete Hash

-- Two different inputs with one hash.
pub record Collision (B : Blake3) : Type 0 where
  pub left : List ℕ
  pub right : List ℕ
  pub differ : left ≢ right
  pub collide : B.hash left ≡ B.hash right
