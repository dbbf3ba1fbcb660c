-- ===== src/ArrayQueue.antt =====
-- `ArrayQueue` of the crate crossbeam, which the program only calls: what it relies on, as a
-- parameter. Each operation is atomic, so a use from several threads is a sequence of operations.
pub mod Bounded
use chronos_uvm.Prelude.{ℕ, ◌≤◌, ◌<◌, ◌≡◌, Option, none, some, List, [], ◌∷◌, ◌++◌, length}
use chronos_uvm.Prelude.Result.{Result, ok, err}

pub record ArrayQueue (A : Type 0) : Type 1 where
  pub Queue : Type 0
  -- the elements, the oldest first
  pub contents : Queue → List A
  pub capacity : Queue → ℕ
  -- it panics on a capacity of 0
  pub new : ℕ → Option Queue
  -- a full queue gives the element back
  pub push : A → Queue → Result A (Unit {0}) × Queue
  pub pop : Queue → Option A × Queue
  pub new_empty :
      (n : ℕ) → 0 < n → (q : Queue) × (new n ≡ some q) × (contents q ≡ []) × (capacity q ≡ n)
  pub bounded : (q : Queue) → length (contents q) ≤ capacity q
  pub push_room :
      (a : A) (q : Queue)
      → length (contents q) < capacity q
      → ((push a q).0 ≡ ok tt) × (contents (push a q).1 ≡ contents q ++ a ∷ [])
  pub push_full :
      (a : A) (q : Queue)
      → length (contents q) ≡ capacity q
      → ((push a q).0 ≡ err a) × (contents (push a q).1 ≡ contents q)
  pub capacity-push : (a : A) (q : Queue) → capacity (push a q).1 ≡ capacity q
  pub pop_empty : (q : Queue) → contents q ≡ [] → ((pop q).0 ≡ none) × (contents (pop q).1 ≡ [])
  pub pop_front :
      (q : Queue) (a : A) (rest : List A)
      → contents q ≡ a ∷ rest
      → ((pop q).0 ≡ some a) × (contents (pop q).1 ≡ rest)
  pub capacity-pop : (q : Queue) → capacity (pop q).1 ≡ capacity q
