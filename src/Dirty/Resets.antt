-- ===== src/Dirty/Resets.antt =====
-- `new` and `clear_all` of dirty.rs.
use chronos_uvm.Prelude.{
  ℕ, zero, suc, ◌+◌, ◌/◌, ◌%◌, ◌<◌, ◌≡◌, refl, true, false, some, List, [], ◌∷◌, length-replicate,
  length-map, replicate, get_elem?, arith, Profile, u64, sym, max, add_word_fits, map,
}
use chronos_uvm.Prelude.Bits.{bit_at-zero}
use chronos_uvm.Dirty.{DirtyPageSet, new, is_dirty, is_empty, clear_all}
use chronos_uvm.Dirty.Words.{bit_test}
use chronos_uvm.Dirty.Count.{population-replicate, population-clear}
use chronos_uvm.Dirty.Valid.{AreWords, IsValid, is_dirty_lem}

AreWords-zeros : (n : ℕ) → AreWords (replicate n 0)
AreWords-zeros zero = tt
AreWords-zeros (suc n) = (omega arith, AreWords-zeros n)

zeros_clear : (n i q : ℕ) → bit_test q (get_elem? (replicate n 0) i) ≡ false
zeros_clear zero i q = refl
zeros_clear (suc n) zero q = ground (arith, bit_at-zero (q % 64))
zeros_clear (suc n) (suc i) q = zeros_clear n i q

-- A set that `new` or `clear_all` leaves: well formed, of the given capacity, with nothing dirty.
pub record Cleared (capacity : ℕ) (d : DirtyPageSet) : Type 0 where
  pub valid : IsValid d
  pub capacity_kept : d.capacity_pages ≡ capacity
  pub none_dirty : (q : ℕ) → is_dirty d q ≡ false
  pub empty : is_empty d ≡ true

abbrev pub fresh : ℕ → DirtyPageSet
fresh capacity = record {
  bits = replicate (max ((capacity + 63) / 64) 1) 0;
  capacity_pages = capacity;
  count = 0;
}

pub fresh-Cleared : (capacity : ℕ) → capacity + 63 < u64 → Cleared capacity (fresh capacity)
unfolding is_empty
fresh-Cleared capacity h = record {
  valid = record {
    sized = omega (arith, length-replicate {A = ℕ} (max ((capacity + 63) / 64) 1) 0);
    small = omega (arith, length-replicate {A = ℕ} (max ((capacity + 63) / 64) 1) 0);
    words = AreWords-zeros (max ((capacity + 63) / 64) 1);
    counted = sym (population-replicate (max ((capacity + 63) / 64) 1));
  };
  capacity_kept = refl;
  none_dirty = λ q.
      rw (is_dirty_lem (fresh capacity) q) (zeros_clear (max ((capacity + 63) / 64) 1) (q / 64) q);
  empty = refl;
}

-- `new` does not panic, and makes a well-formed set with nothing dirty, unless the capacity is
-- within 63 of the top of the `u64` range.
pub new-Cleared :
    (p : Profile) (capacity : ℕ)
    → capacity + 63 < u64
    → (d : DirtyPageSet) × (new p capacity ≡ some d) × Cleared capacity d
unfolding new
new-Cleared p capacity h =
    (fresh capacity, rw (add_word_fits p u64 capacity 63 h) refl, fresh-Cleared capacity h)

AreWords-clear : (ws : List ℕ) → AreWords (map (λ _. 0) ws)
AreWords-clear [] = tt
AreWords-clear (w ∷ ws) = (omega arith, AreWords-clear ws)

cleared_bits : (ws : List ℕ) (i q : ℕ) → bit_test q (get_elem? (map (λ _. 0) ws) i) ≡ false
cleared_bits [] i q = refl
cleared_bits (w ∷ ws) zero q = ground (arith, bit_at-zero (q % 64))
cleared_bits (w ∷ ws) (suc i) q = cleared_bits ws i q

-- `clear_all` leaves a well-formed set of the same capacity with nothing dirty.
pub clear_all_lem : (d : DirtyPageSet) → IsValid d → Cleared d.capacity_pages (clear_all d)
unfolding clear_all is_empty
clear_all_lem d v = record {
  valid = record {
    sized = omega (arith, v, length-map {B = ℕ} d.bits (λ _. 0));
    small = omega (arith, v, length-map {B = ℕ} d.bits (λ _. 0));
    words = AreWords-clear d.bits;
    counted = sym (population-clear d.bits);
  };
  capacity_kept = refl;
  none_dirty = λ q. rw (is_dirty_lem _ q) (cleared_bits d.bits (q / 64) q);
  empty = refl;
}
