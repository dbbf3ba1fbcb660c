-- ===== src/Delta/UnitTests.antt =====
-- The unit tests of chronos-mem/src/delta.rs that assert something, on the model.
use chronos_uvm.Prelude.{
  ℕ, Bool, true, false, ◌&&◌, ◌==◌, ◌≡◌, refl, Option, some, List, [], ◌∷◌, ltb, set, zero, suc,
  ◌+◌, ◌*◌, ◌%◌, ◌>>=◌,
}
use chronos_uvm.Page.{page_size, zero_page}
use chronos_uvm.Delta.{new, diff_and_commit, apply, encoded_len}

abbrev same_bytes : List ℕ → List ℕ → Bool
same_bytes [] [] = true
same_bytes (a ∷ xs) (b ∷ ys) = a == b && same_bytes xs ys
same_bytes _ _ = false

sparse_mutation_roundtrips : Option Bool
unfolding new diff_and_commit apply encoded_len zero_page
sparse_mutation_roundtrips = do
  primary ← new 4
  standby ← new 4
  let page_a = set zero_page 10 42
  (d1, primary) ← diff_and_commit 0 page_a primary
  (applied1, standby) ← apply d1 standby
  let page_b = set (set page_a 10 43) 2000 99
  (d2, primary) ← diff_and_commit 0 page_b primary
  (applied2, standby) ← apply d2 standby
  some (same_bytes applied1 page_a && ltb (encoded_len d2) page_size && same_bytes applied2 page_b)

-- `*b = (i * 131 + 7) as u8`, for the `n` bytes from the `i`-th on.
dense : ℕ → ℕ → List ℕ
dense zero i = []
dense (suc n) i = (i * 131 + 7) % 256 ∷ dense n (i + 1)

dense_mutation_falls_back_to_raw : Option Bool
unfolding new diff_and_commit apply zero_page dense
dense_mutation_falls_back_to_raw = do
  primary ← new 4
  standby ← new 4
  (d1, primary) ← diff_and_commit 0 zero_page primary
  (applied1, standby) ← apply d1 standby
  let page_b = dense page_size 0
  (d2, primary) ← diff_and_commit 0 page_b primary
  (applied2, standby) ← apply d2 standby
  some (same_bytes applied2 page_b)

unit_tests_pass :
    (sparse_mutation_roundtrips ≡ some true) × (dense_mutation_falls_back_to_raw ≡ some true)
unfolding sparse_mutation_roundtrips dense_mutation_falls_back_to_raw
unit_tests_pass = (refl, refl)
