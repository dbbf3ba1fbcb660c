-- ===== src/Dirty/Marks.antt =====
-- `mark` of dirty.rs.
use Prim.Native.Nat.{bit_and, bit_or}
use chronos_uvm.Prelude.{
  ℕ, zero, suc, ◌+◌, ◌/◌, ◌%◌, ◌≤◌, ◌<◌, ◌≡◌, refl, true, false, ◌||◌, none, some, List, [], ◌∷◌,
  length, get_elem?, set, length-set, get_elem?-set_self, get_elem?-set_ne, get_elem?-in_range,
  ◌==◌, arith, Profile, debug, u64, ℕ_discrete, Bool-cases, inl, inr, sym, add_word_fits, lt→ltb,
  debug_assert_holds,
}
use chronos_uvm.Prelude.Bits.{bit, bit_at, bit_at-bit_or, bit_at-bit, bit_or-lt, bit-lt}
use chronos_uvm.Dirty.{DirtyPageSet, mark, is_dirty}
use chronos_uvm.Dirty.Words.{bit_test, test_bit}
use chronos_uvm.Dirty.Count.{word_ones-bit_or, population-le, population-set}
use chronos_uvm.Dirty.Valid.{AreWords, IsValid, is_dirty_lem}

same_page : (a b : ℕ) → a / 64 ≡ b / 64 → (a % 64 == b % 64) ≡ (b == a)
same_page a b e = ground arith

dirty-set :
    (ws : List ℕ) (page q w : ℕ)
    → get_elem? ws (page / 64) ≡ some w
    → page / 64 < length ws
    → bit_test q (get_elem? (set ws (page / 64) (bit_or w (bit (page % 64)))) (q / 64))
      ≡ (q == page || bit_test q (get_elem? ws (q / 64)))
dirty-set ws page q w h l = elim (ℕ_discrete (q / 64) (page / 64)) [
  | yes e ↦
      rw (e, h, get_elem?-set_self ws (page / 64) (bit_or w (bit (page % 64))) l)
        (ground (
          arith,
          bit_at-bit_or (q % 64) w (bit (page % 64)),
          bit_at-bit (q % 64) (page % 64),
          same_page q page e,
        ))
  | no ne ↦
      rw
        (get_elem?-set_ne ws {i = page / 64} {j = q / 64} (bit_or w (bit (page % 64)))
          (λ e. ne (sym e)))
        (ground arith)
]

AreWords-get : (ws : List ℕ) (i w : ℕ) → AreWords ws → get_elem? ws i ≡ some w → w < u64
AreWords-get [] i w h e = cc
AreWords-get (x ∷ ws) zero w h e = ground arith
AreWords-get (x ∷ ws) (suc i) w h e = AreWords-get ws i w h.1 e

AreWords-set : (ws : List ℕ) (i w : ℕ) → AreWords ws → w < u64 → AreWords (set ws i w)
AreWords-set [] i w h l = tt
AreWords-set (x ∷ ws) zero w h l = (l, h.1)
AreWords-set (x ∷ ws) (suc i) w h l = (h.0, AreWords-set ws i w h.1 l)

clear_bit : (w k : ℕ) → (bit_and w (bit k) == 0) ≡ true → bit_at k w ≡ 0
clear_bit w k h = ground (arith, test_bit k w)

-- The set after a clear bit of word `w` was set for `page`.
abbrev marked : DirtyPageSet → ℕ → ℕ → DirtyPageSet
marked d page w = record d {
  bits = set d.bits (page / 64) (bit_or w (bit (page % 64)));
  count = d.count + 1;
}

module _ (p : Profile) (d : DirtyPageSet) (page w : ℕ) (v : IsValid d)
    (in_range : page < d.capacity_pages) (found : get_elem? d.bits (page / 64) ≡ some w) where
  mark_again : (bit_and w (bit (page % 64)) == 0) ≡ false → mark p page d ≡ some d
  unfolding mark
  mark_again hit = rw (debug_assert_holds p _ (lt→ltb page d.capacity_pages in_range), found, hit)

  marked-IsValid : bit_at (page % 64) w ≡ 0 → IsValid (marked d page w)
  marked-IsValid clear = record {
    sized = omega (arith, v, same_length);
    small = omega (arith, v, same_length);
    words = AreWords-set d.bits (page / 64) _ v.words (
        bit_or-lt 64 w (bit (page % 64)) (AreWords-get d.bits _ w v.words found)
          (bit-lt (page % 64) 64 (omega arith)));
    counted = omega (
      arith,
      v.counted,
      population-set d.bits _ w (bit_or w (bit (page % 64))) found,
      word_ones-bit_or w (page % 64) clear (omega arith),
    );
  }
    where
      same_length : length (marked d page w).bits ≡ length d.bits
      same_length = length-set d.bits (page / 64) (bit_or w (bit (page % 64)))

  mark_fresh : (bit_and w (bit (page % 64)) == 0) ≡ true → mark p page d ≡ some (marked d page w)
  unfolding mark
  mark_fresh clear = rw (
    debug_assert_holds p _ (lt→ltb page d.capacity_pages in_range),
    found,
    clear,
    add_word_fits p u64 d.count 1 room,
  )
    where
      after : IsValid (marked d page w)
      after = marked-IsValid (clear_bit w (page % 64) clear)

      room : d.count + 1 < u64
      room = omega (
        arith,
        after.counted,
        population-le (marked d page w).bits,
        length-set d.bits (page / 64) (bit_or w (bit (page % 64))),
        v.small,
      )

-- What `mark` leaves: a well-formed set, of the same capacity, that has `page` and what it had.
pub record Marked (d : DirtyPageSet) (page : ℕ) (d' : DirtyPageSet) : Type 0 where
  pub valid : IsValid d'
  pub capacity : d'.capacity_pages ≡ d.capacity_pages
  pub dirty : (q : ℕ) → is_dirty d' q ≡ (q == page || is_dirty d q)

module _ (p : Profile) (d : DirtyPageSet) (page : ℕ) (v : IsValid d)
    (in_range : page < d.capacity_pages) where
  already_set :
      (w q : ℕ)
      → get_elem? d.bits (page / 64) ≡ some w
      → (bit_and w (bit (page % 64)) == 0) ≡ false
      → is_dirty d q ≡ (q == page || is_dirty d q)
  already_set w q found hit = elim (ℕ_discrete q page) [
    | yes e ↦ rw (e, is_dirty_lem d page, found) (ground (arith, test_bit (page % 64) w))
    | no ne ↦ ground arith
  ]

  mark-word :
      (w : ℕ)
      → get_elem? d.bits (page / 64) ≡ some w
      → (d' : DirtyPageSet) × (mark p page d ≡ some d') × Marked d page d'
  mark-word w found = elim (Bool-cases (bit_and w (bit (page % 64)) == 0)) [
    | inl clear ↦ (
      marked d page w,
      mark_fresh p d page w v in_range found clear,
      record {
        valid = marked-IsValid p d page w v in_range found (clear_bit w (page % 64) clear);
        capacity = refl;
        dirty = λ q.
            rw (is_dirty_lem (marked d page w) q, is_dirty_lem d q)
              (dirty-set d.bits page q w found (omega (arith, v)));
      },
    )
    | inr hit ↦ (
      d,
      mark_again p d page w v in_range found hit,
      record { valid = v; capacity = refl; dirty = λ q. already_set w q found hit },
    )
  ]

  -- Within the capacity of a well-formed set `mark` does not panic in either profile; it keeps the
  -- set well formed, and afterwards exactly `page` and the pages that were dirty before are dirty.
  pub mark_lem : (d' : DirtyPageSet) × (mark p page d ≡ some d') × Marked d page d'
  mark_lem =
      let (w, found) = get_elem?-in_range d.bits (page / 64) (omega (arith, v)) in mark-word w found

-- A page at or past the capacity is refused by the assertion of a debug build.
pub mark_out_of_range :
    (d : DirtyPageSet) (page : ℕ) → d.capacity_pages ≤ page → mark debug page d ≡ none
unfolding mark
mark_out_of_range d page h = ground arith
