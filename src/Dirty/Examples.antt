-- ===== src/Dirty/Examples.antt =====
-- dirty.rs at concrete inputs: its tests, and the theorems applied.
use chronos_uvm.Prelude.{ℕ, ◌≡◌, refl, Option, some, List, [], ◌∷◌, ◌>>=◌, length, arith, debug}
use mathlib.Core.Option
use chronos_uvm.Dirty.{DirtyPageSet, new, mark, is_dirty, iter_dirty, len, clear_all}
use chronos_uvm.Dirty.Words.{IsAscending, contains}
use chronos_uvm.Dirty.Count.{word_ones}
use chronos_uvm.Dirty.Valid.{IsValid, iter_dirty_exact, iter_dirty-IsAscending}
use chronos_uvm.Dirty.Marks.{Marked, mark_lem}
use chronos_uvm.Dirty.Resets.{Cleared, clear_all_lem}

abbrev pages : List ℕ
pages = 0 ∷ 63 ∷ 64 ∷ 199 ∷ []

-- the test `mark_and_iterate`
abbrev marks_four : Option DirtyPageSet
marks_four = do
  d ← new debug 200
  d ← mark debug 0 d
  d ← mark debug 63 d
  d ← mark debug 64 d
  mark debug 199 d

mark_and_iterate : Option.map iter_dirty marks_four ≡ some pages
unfolding new mark iter_dirty
mark_and_iterate = refl

count_of_four : Option.map len marks_four ≡ some 4
unfolding new mark len
count_of_four = refl

-- the test `double_mark_is_idempotent`
double_mark : (do d ← new debug 10; d ← mark debug 3 d; d ← mark debug 3 d; some (len d)) ≡ some 1
unfolding new mark len
double_mark = refl

-- pages 0 and 3 of ten
abbrev two_pages : DirtyPageSet
two_pages = record { bits = 9 ∷ []; capacity_pages = 10; count = 2 }

two_pages-IsValid : IsValid two_pages
unfolding word_ones
two_pages-IsValid = record {
  sized = omega arith;
  small = omega arith;
  words = (omega arith, tt);
  counted = refl;
}

iter_dirty-IsAscending_example :
    IsAscending 0 64 (iter_dirty two_pages) × (len two_pages ≡ length (iter_dirty two_pages))
iter_dirty-IsAscending_example = iter_dirty-IsAscending two_pages two_pages-IsValid

mark_lem_example : (d' : DirtyPageSet) × (mark debug 5 two_pages ≡ some d') × Marked two_pages 5 d'
mark_lem_example = mark_lem debug two_pages 5 two_pages-IsValid (omega arith)

clear_all_lem_example : Cleared 10 (clear_all two_pages)
clear_all_lem_example = clear_all_lem two_pages two_pages-IsValid

iter_dirty_exact_example : contains 3 (iter_dirty two_pages) ≡ is_dirty two_pages 3
iter_dirty_exact_example = iter_dirty_exact two_pages 3
