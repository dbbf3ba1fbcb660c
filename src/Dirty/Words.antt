-- ===== src/Dirty/Words.antt =====
-- One word of the bitmap, and the list of words: what is listed, in which order, and how many.
use Prim.Native.Nat.{bit_and}
use chronos_uvm.Prelude.{
  ℕ, zero, suc, ◌+◌, ◌-◌, ◌*◌, ◌/◌, ◌%◌, ◌≤◌, ◌<◌, ◌≡◌, refl, ap, Bool, false, ◌||◌, not, Option,
  none, some, List, [], ◌∷◌, ◌++◌, length, get_elem?, ◌==◌, leb, ltb, arith, ℕ_discrete, dec_lt,
  ◌&&◌, Bool-cases, inl, inr,
}
use native.Mathlib.Nat.{one-le-pow}
use chronos_uvm.Prelude.Bits.{bit, bit_at, bit_at-le, bit_and-bit}
use chronos_uvm.Dirty.{word_pages, iter_words}

abbrev pub contains : ℕ → List ℕ → Bool
contains q [] = false
contains q (x ∷ xs) = x == q || contains q xs

-- Strictly ascending, from `lo` on and below `hi`.
abbrev pub IsAscending : ℕ → ℕ → List ℕ → Type 0
IsAscending lo hi [] = lo ≤ hi
IsAscending lo hi (x ∷ xs) = (lo ≤ x) × IsAscending (suc x) hi xs

product_test : (b m : ℕ) → b ≤ 1 → 0 < m → (b * m == 0) ≡ (b == 0)
product_test zero m hb hm = ground arith
product_test (suc zero) m hb hm = ground arith
product_test (suc (suc b)) m hb hm = absurd (omega arith)

-- The test of the source reads the bit.
pub test_bit : (k w : ℕ) → (bit_and w (bit k) == 0) ≡ (bit_at k w == 0)
test_bit k w =
    rw (bit_and-bit k w)
      (product_test (bit_at k w) (bit k) (bit_at-le k w) (one-le-pow k 2 (omega arith)))

-- The pages of a word that are listed: those in its range whose bit is set.
abbrev in_word : ℕ → ℕ → ℕ → ℕ → ℕ → Bool
in_word i w n k q = leb (i * 64 + k) q && ltb q (i * 64 + k + n) && not (bit_at (q - i * 64) w == 0)

contains-word_pages : (i w n k q : ℕ) → contains q (word_pages i w n k) ≡ in_word i w n k q
unfolding word_pages
contains-word_pages i w zero k q = ground arith
contains-word_pages i w (suc n) k q = elim (ℕ_discrete (i * 64 + k) q) [
  | yes e ↦ ground (
    arith,
    test_bit k w,
    contains-word_pages i w n (k + 1) q,
    ap (λ (t : ℕ). bit_at t w) (offset e),
  )
  | no ne ↦ ground (arith, test_bit k w, contains-word_pages i w n (k + 1) q)
]
  where
    offset : i * 64 + k ≡ q → q - i * 64 ≡ k
    offset e = omega arith

contains-append :
    (q : ℕ) (xs ys : List ℕ) → contains q (xs ++ ys) ≡ (contains q xs || contains q ys)
contains-append q [] ys = refl
contains-append q (x ∷ xs) ys = ground (arith, contains-append q xs ys)

-- The bit of page `q` in the word that holds it; a word out of range has no set bit.
abbrev pub bit_test : ℕ → Option ℕ → Bool
bit_test q none = false
bit_test q (some w) = not (bit_at (q % 64) w == 0)

pub contains-iter_words :
    (i : ℕ) (ws : List ℕ) (q : ℕ)
    → contains q (iter_words i ws) ≡ (leb (i * 64) q && bit_test q (get_elem? ws (q / 64 - i)))
unfolding iter_words
contains-iter_words i [] q = ground arith
contains-iter_words i (w ∷ ws) q =
    rw
      (
        contains-append q (word_pages i w 64 0) (iter_words (i + 1) ws),
        contains-word_pages i w 64 0 q,
        contains-iter_words (i + 1) ws q,
      )
      (split (q / 64 - i) (q / 64 - (i + 1)) refl refl)
  where
    split :
        (a b : ℕ)
        → q / 64 - i ≡ a
        → q / 64 - (i + 1) ≡ b
        → (in_word i w 64 0 q || (leb ((i + 1) * 64) q && bit_test q (get_elem? ws b)))
          ≡ (leb (i * 64) q && bit_test q (get_elem? (w ∷ ws) a))
    split zero b ea eb = elim (dec_lt q (i * 64)) [
      | yes lt ↦ ground arith
      | no ge ↦
          let e : q - i * 64 ≡ q % 64 = omega arith in ground (arith, ap (λ (t : ℕ). bit_at t w) e)
    ]
    split (suc a) b ea eb =
        let e : b ≡ a = omega arith in ground (arith, ap (λ (t : ℕ). get_elem? ws t) e)

pub IsAscending-widen :
    (lo' lo hi hi' : ℕ) (xs : List ℕ)
    → lo' ≤ lo
    → hi ≤ hi'
    → IsAscending lo hi xs
    → IsAscending lo' hi' xs
IsAscending-widen lo' lo hi hi' [] l h up = omega arith
IsAscending-widen lo' lo hi hi' (x ∷ xs) l h up =
    (omega arith, IsAscending-widen (suc x) (suc x) hi hi' xs (omega arith) h up.1)

IsAscending-above :
    (lo' lo hi : ℕ) (xs : List ℕ) → lo' ≤ lo → IsAscending lo hi xs → IsAscending lo' hi xs
IsAscending-above lo' lo hi xs l = IsAscending-widen lo' lo hi hi xs l (omega arith)

IsAscending-append :
    (lo mid hi : ℕ) (xs ys : List ℕ)
    → IsAscending lo mid xs
    → IsAscending mid hi ys
    → IsAscending lo hi (xs ++ ys)
IsAscending-append lo mid hi [] ys hx hy = IsAscending-widen lo mid hi hi ys hx (omega arith) hy
IsAscending-append lo mid hi (x ∷ xs) ys hx hy =
    (hx.0, IsAscending-append (suc x) mid hi xs ys hx.1 hy)

IsAscending-word_pages :
    (i w n k hi : ℕ) → i * 64 + k + n ≤ hi → IsAscending (i * 64 + k) hi (word_pages i w n k)
unfolding word_pages
IsAscending-word_pages i w zero k hi h = omega arith
IsAscending-word_pages i w (suc n) k hi h =
    let next = IsAscending-word_pages i w n (k + 1) hi (omega arith) in
    let rest = word_pages i w n (k + 1) in
    elim (Bool-cases (bit_and w (bit k) == 0)) [
      | inl clear ↦ rw clear (IsAscending-above (i * 64 + k) _ hi rest (omega arith) next)
      | inr hit ↦
          rw hit (omega arith, IsAscending-above (suc (i * 64 + k)) _ hi rest (omega arith) next)
    ]

pub IsAscending-iter_words :
    (i : ℕ) (ws : List ℕ) → IsAscending (i * 64) ((i + length ws) * 64) (iter_words i ws)
unfolding iter_words
IsAscending-iter_words i [] = omega arith
IsAscending-iter_words i (w ∷ ws) =
    IsAscending-append (i * 64) ((i + 1) * 64) ((i + suc (length ws)) * 64) (word_pages i w 64 0)
      (iter_words (i + 1) ws)
      (IsAscending-widen (i * 64) (i * 64 + 0) ((i + 1) * 64) ((i + 1) * 64) (word_pages i w 64 0)
        (omega arith) (omega arith) (IsAscending-word_pages i w 64 0 ((i + 1) * 64) (omega arith)))
      (IsAscending-widen ((i + 1) * 64) ((i + 1) * 64) ((i + 1 + length ws) * 64)
        ((i + suc (length ws)) * 64) (iter_words (i + 1) ws) (omega arith) (omega arith)
        (IsAscending-iter_words (i + 1) ws))
