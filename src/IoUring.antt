-- ===== src/IoUring.antt =====
-- The crate io-uring over the kernel's rings, which the program only calls: what it relies on, as a
-- parameter. A text is the list of its bytes; an `i32` is its bit pattern.
pub mod Loopback
use mathlib.Core.List.{Perm}
use chronos_uvm.Prelude.Integers.{ℤ, pos, negsuc}
use chronos_uvm.Prelude.{ℕ, ◌≡◌, List, [], ◌∷◌, ◌++◌, map}
use chronos_uvm.Prelude.Result.{Result, ok, err}

pub data Opcode : Type 0 where
  read_fixed write_fixed : Opcode

-- A submission entry: what `opcode::ReadFixed::new(..).offset(..).build().user_data(..)` is given.
pub record Entry : Type 0 where
  pub opcode : Opcode
  pub fd : ℕ
  pub len : ℕ
  pub buf_index : ℕ
  pub offset : ℕ
  pub user_data : ℕ

-- A completion entry.
pub record Completion : Type 0 where
  pub user_data : ℕ
  pub result : ℤ

pub record IoUring : Type 1 where
  pub Ring : Type 0
  -- the user data of the entries that are in the ring and have not been completed
  pub in_flight : Ring → List ℕ
  pub new : ℕ → Result (List ℕ) Ring
  pub register_buffers : List (ℕ × ℕ) → Ring → Result (List ℕ) (Unit {0}) × Ring
  pub push : Entry → Ring → Result (Unit {0}) (Unit {0}) × Ring
  pub submit : Ring → Result (List ℕ) ℕ × Ring
  -- `sync`, and the completions until there is none
  pub completions : Ring → List Completion × Ring
  pub new_empty : (entries : ℕ) (r : Ring) → new entries ≡ ok r → in_flight r ≡ []
  pub register_buffers_kept :
      (bufs : List (ℕ × ℕ)) (r : Ring) → in_flight (register_buffers bufs r).1 ≡ in_flight r
  pub push_ok :
      (e : Entry) (r : Ring)
      → (push e r).0 ≡ ok tt
      → in_flight (push e r).1 ≡ in_flight r ++ e.user_data ∷ []
  pub push_full :
      (e : Entry) (r : Ring) → (push e r).0 ≡ err tt → in_flight (push e r).1 ≡ in_flight r
  pub submit_kept : (r : Ring) → in_flight (submit r).1 ≡ in_flight r
  -- the kernel completes entries in any order, each once, with its user data as it was
  pub completed :
      (r : Ring)
      → Perm
          (map (λ (c : Completion). c.user_data) (completions r).0 ++ in_flight (completions r).1)
          (in_flight r)
