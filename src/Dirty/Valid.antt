-- ===== src/Dirty/Valid.antt =====
-- The invariant of dirty.rs's bitmap, and what its iterator lists.
use chronos_uvm.Prelude.{
  ℕ, ◌+◌, ◌-◌, ◌*◌, ◌/◌, ◌%◌, ◌≤◌, ◌<◌, ◌≡◌, refl, ap, not, ◌∙◌, Option, none, some, List, [], ◌∷◌,
  length, get_elem?, arith, u64, sym,
}
use chronos_uvm.Dirty.{DirtyPageSet, iter_words, is_dirty, iter_dirty, len}
use chronos_uvm.Dirty.Words.{
  contains, IsAscending, bit_test, test_bit, contains-iter_words, IsAscending-iter_words,
  IsAscending-widen,
}
use chronos_uvm.Dirty.Count.{population, length-iter_words}

abbrev pub AreWords : List ℕ → Type 0
AreWords [] = Unit
AreWords (w ∷ ws) = (w < u64) × AreWords ws

-- The bitmap covers the capacity, its words are `u64`s, and the cached count is right.
pub record IsValid (d : DirtyPageSet) : Type 0 where
  pub sized : d.capacity_pages ≤ length d.bits * 64
  pub small : length d.bits * 64 < u64
  pub words : AreWords d.bits
  pub counted : d.count ≡ population d.bits

-- `is_dirty` in terms of the bits.
pub is_dirty_lem :
    (d : DirtyPageSet) (q : ℕ) → is_dirty d q ≡ bit_test q (get_elem? d.bits (q / 64))
unfolding is_dirty
is_dirty_lem d q = split (get_elem? d.bits (q / 64)) refl
  where
    split : (o : Option ℕ) → get_elem? d.bits (q / 64) ≡ o → is_dirty d q ≡ bit_test q o
    split none e = rw (e, is_dirty)
    split (some w) e = rw (e, is_dirty) (ap not (test_bit (q % 64) w))

sub-none : (n : ℕ) → n - 0 ≡ n
sub-none n = omega arith

-- The iterator lists a page exactly when `is_dirty` says so, for every set.
pub iter_dirty_exact : (d : DirtyPageSet) (q : ℕ) → contains q (iter_dirty d) ≡ is_dirty d q
unfolding iter_dirty
iter_dirty_exact d q =
    contains-iter_words 0 d.bits q
    ∙ (ground (
      arith,
      is_dirty_lem d q,
      ap (λ (t : ℕ). bit_test q (get_elem? d.bits t)) (sub-none (q / 64)),
    ))

-- The iterator of a well-formed set lists its pages in strictly ascending order, and `len`, the
-- cached count, is how many there are.
pub iter_dirty-IsAscending :
    (d : DirtyPageSet)
    → IsValid d
    → IsAscending 0 (length d.bits * 64) (iter_dirty d) × (len d ≡ length (iter_dirty d))
unfolding iter_dirty len
iter_dirty-IsAscending d v = (
  IsAscending-widen 0 (0 * 64) ((0 + length d.bits) * 64) (length d.bits * 64) (iter_words 0 d.bits)
      (omega arith) (omega arith) (IsAscending-iter_words 0 d.bits),
  v.counted ∙ sym (length-iter_words 0 d.bits),
)
