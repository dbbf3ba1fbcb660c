-- ===== src/Dirty.antt =====
-- chronos-mem/src/dirty.rs: the bitmap of the pages written since the last flush.
-- A `Vec<u64>` is a list of numbers; a method that updates `self` returns the new set.
pub mod Words
pub mod Count
pub mod Valid
pub mod Marks
pub mod Resets
mod UnitTests
mod Examples
use Prim.Native.Nat.{bit_and, bit_or}
use chronos_uvm.Prelude.{
  ℕ, zero, suc, ◌+◌, ◌*◌, ◌/◌, ◌%◌, max, Bool, false, not, Option, none, some, List, [], ◌∷◌, ◌++◌,
  map, get_elem?, set, replicate, ltb, ◌==◌, if◌then◌else◌, Profile, ◌>>=◌, ◌>>◌, debug_assert,
  add_word, u64,
}
use chronos_uvm.Prelude.Bits.{bit}

pub record DirtyPageSet : Type 0 where
  pub bits : List ℕ
  pub capacity_pages : ℕ
  pub count : ℕ

unfoldable pub new : Profile → ℕ → Option DirtyPageSet
new p capacity_pages = do
  padded ← add_word p u64 capacity_pages 63
  some (record {
    bits = replicate (max (padded / 64) 1) 0;
    capacity_pages = capacity_pages;
    count = 0;
  })

-- The body of `mark` at the word `w` that it indexed.
pub mark_word : Profile → ℕ → ℕ → DirtyPageSet → ℕ → Option DirtyPageSet
mark_word p word mask d w =
    if bit_and w mask == 0
    then (do
      count ← add_word p u64 d.count 1
      some (record d { bits = set d.bits word (bit_or w mask); count = count }))
    else some d

-- `self.bits[word]` panics out of range.
pub mark : Profile → ℕ → DirtyPageSet → Option DirtyPageSet
unfolding mark_word
mark p page_idx d = do
  debug_assert p (ltb page_idx d.capacity_pages)
  w ← get_elem? d.bits (page_idx / 64)
  mark_word p (page_idx / 64) (bit (page_idx % 64)) d w

unfoldable pub is_dirty : DirtyPageSet → ℕ → Bool
is_dirty d page_idx = elim (get_elem? d.bits (page_idx / 64)) [
  | none ↦ false
  | some w ↦ not (bit_and w (bit (page_idx % 64)) == 0)
]

-- The bits from `k` on, `n` of them, of the word at `word_idx`.
pub word_pages : ℕ → ℕ → ℕ → ℕ → List ℕ
word_pages word_idx word zero k = []
word_pages word_idx word (suc n) k =
    let rest = word_pages word_idx word n (k + 1) in
    if bit_and word (bit k) == 0 then rest else (word_idx * 64 + k) ∷ rest

pub iter_words : ℕ → List ℕ → List ℕ
unfolding word_pages
iter_words i [] = []
iter_words i (w ∷ ws) = word_pages i w 64 0 ++ iter_words (i + 1) ws

unfoldable pub iter_dirty : DirtyPageSet → List ℕ
unfolding iter_words
iter_dirty d = iter_words 0 d.bits

pub len : DirtyPageSet → ℕ
len d = d.count

pub is_empty : DirtyPageSet → Bool
is_empty d = d.count == 0

pub clear_all : DirtyPageSet → DirtyPageSet
clear_all d = record d { bits = map (λ _. 0) d.bits; count = 0 }
