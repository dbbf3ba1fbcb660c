-- ===== src/Dirty/UnitTests.antt =====
-- The unit tests of chronos-mem/src/dirty.rs, on the model.
use chronos_uvm.Prelude.{
  ℕ, Bool, true, false, ◌&&◌, not, ◌==◌, ◌≡◌, refl, Option, some, List, [], ◌∷◌, debug, ◌>>=◌,
}
use chronos_uvm.Dirty.{new, mark, is_dirty, is_empty, len, iter_dirty, clear_all}

abbrev same_pages : List ℕ → List ℕ → Bool
same_pages [] [] = true
same_pages (i ∷ is) (j ∷ js) = i == j && same_pages is js
same_pages _ _ = false

mark_and_iterate : Option Bool
unfolding new mark is_dirty len iter_dirty clear_all is_empty
mark_and_iterate = do
  d ← new debug 200
  d ← mark debug 0 d
  d ← mark debug 63 d
  d ← mark debug 64 d
  d ← mark debug 199 d
  some (len d == 4 && same_pages (iter_dirty d) (0 ∷ 63 ∷ 64 ∷ 199 ∷ []))

double_mark_is_idempotent : Option Bool
unfolding new mark
double_mark_is_idempotent = do
  d ← new debug 10
  d ← mark debug 3 d
  d ← mark debug 3 d
  some (len d == 1)

clear_resets_state : Option Bool
unfolding new mark
clear_resets_state = do
  d ← new debug 10
  d ← mark debug 1 d
  d ← mark debug 5 d
  let d = clear_all d
  some (is_empty d && not (is_dirty d 1))

unit_tests_pass :
    (mark_and_iterate ≡ some true)
    × (double_mark_is_idempotent ≡ some true)
    × (clear_resets_state ≡ some true)
unfolding mark_and_iterate double_mark_is_idempotent clear_resets_state
unit_tests_pass = (refl, refl, refl)
