-- ===== src/Dirty/Count.antt =====
-- The cached count of `dirty.rs`: how many pages the bitmap lists, word by word.
use Prim.Native.Nat.{bit_or}
use chronos_uvm.Prelude.{
  ℕ, zero, suc, ◌+◌, ◌*◌, ◌≤◌, ◌<◌, ◌≡◌, refl, ◌∙◌, List, [], ◌∷◌, map, length, length-append,
  get_elem?, set, replicate, some, leb, ltb, ◌&&◌, if◌then◌else◌, arith, ap, Option, none,
}
use chronos_uvm.Prelude.Bits.{bit, bit_at, bit_at-le, bit_at-bit_or, bit_at-bit}
use chronos_uvm.Dirty.{word_pages, iter_words}
use chronos_uvm.Dirty.Words.{test_bit}

-- How many bits are set, from `k` on, `n` of them.
abbrev ones : ℕ → ℕ → ℕ → ℕ
ones w zero k = 0
ones w (suc n) k = bit_at k w + ones w n (k + 1)

length-word_pages : (i w n k : ℕ) → length (word_pages i w n k) ≡ ones w n k
unfolding word_pages
length-word_pages i w zero k = refl
length-word_pages i w (suc n) k =
    ground (arith, test_bit k w, bit_at-le k w, length-word_pages i w n (k + 1))

ones-bit_or :
    (w j n k : ℕ)
    → bit_at j w ≡ 0
    → ones (bit_or w (bit j)) n k ≡ ones w n k + (if leb k j && ltb j (k + n) then 1 else 0)
ones-bit_or w j zero k h = ground arith
ones-bit_or w j (suc n) k h =
    ground (arith, bit_at-bit_or k w (bit j), bit_at-bit k j, ones-bit_or w j n (k + 1) h)

-- All 64 of them; shut, since it is a long sum.
unfoldable pub word_ones : ℕ → ℕ
word_ones w = ones w 64 0

abbrev pub population : List ℕ → ℕ
population [] = 0
population (w ∷ ws) = word_ones w + population ws

length-word : (i w : ℕ) → length (word_pages i w 64 0) ≡ word_ones w
unfolding word_ones
length-word i w = length-word_pages i w 64 0

-- Setting a clear bit adds one.
pub word_ones-bit_or :
    (w j : ℕ) → bit_at j w ≡ 0 → j < 64 → word_ones (bit_or w (bit j)) ≡ word_ones w + 1
unfolding word_ones
word_ones-bit_or w j h l = ones-bit_or w j 64 0 h ∙ ap (λ t. ones w 64 0 + t) (chosen j l)
  where
    chosen : (j : ℕ) → j < 64 → ◌≡◌ {A = ℕ} (if leb 0 j && ltb j (0 + 64) then 1 else 0) 1
    chosen j l = ground arith

pub length-iter_words : (i : ℕ) (ws : List ℕ) → length (iter_words i ws) ≡ population ws
unfolding iter_words
length-iter_words i [] = refl
length-iter_words i (w ∷ ws) = omega (
  arith,
  length-append (word_pages i w 64 0) (iter_words (i + 1) ws),
  length-word i w,
  length-iter_words (i + 1) ws,
)

ones-le : (w n k : ℕ) → ones w n k ≤ n
ones-le w zero k = omega arith
ones-le w (suc n) k = omega (arith, bit_at-le k w, ones-le w n (k + 1))

word_ones-le : (w : ℕ) → word_ones w ≤ 64
unfolding word_ones
word_ones-le w = ones-le w 64 0

pub population-le : (ws : List ℕ) → population ws ≤ length ws * 64
population-le [] = omega arith
population-le (w ∷ ws) = omega (arith, word_ones-le w, population-le ws)

abbrev get_ones : Option ℕ → ℕ
get_ones none = 0
get_ones (some w) = word_ones w

pub population-set :
    (ws : List ℕ) (i w v : ℕ)
    → get_elem? ws i ≡ some w
    → population (set ws i v) + word_ones w ≡ population ws + word_ones v
population-set [] i w v h = absurd (cc)
population-set (x ∷ ws) zero w v h = omega (arith, ap (λ (o : Option ℕ). get_ones o) h)
population-set (x ∷ ws) (suc i) w v h = omega (arith, population-set ws i w v h)

word_ones-zero : word_ones 0 ≡ 0
unfolding word_ones
word_ones-zero = refl

pub population-replicate : (n : ℕ) → population (replicate n 0) ≡ 0
population-replicate zero = refl
population-replicate (suc n) = omega (arith, word_ones-zero, population-replicate n)

pub population-clear : (ws : List ℕ) → population (map (λ _. 0) ws) ≡ 0
population-clear [] = refl
population-clear (w ∷ ws) = omega (arith, word_ones-zero, population-clear ws)
