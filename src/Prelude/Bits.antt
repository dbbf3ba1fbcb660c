-- ===== src/Prelude/Bits.antt =====
-- The bits of a machine word: what `&`, `|` and `^` do to the bit at each position.
use Prim.Native.Nat.{
  bit_and, bit_or, bit_xor, differ, digits, bitwise, bit_and-bitwise, bit_or-bitwise,
  bit_xor-bitwise,
}
use Prim.Native.Nat.{ℕ, zero, suc, ◌+◌, ◌-◌, ◌*◌, ◌/◌, ◌%◌, ◌^◌, ◌≤◌, ◌<◌, min, max}
use mathlib.Core.Path.{◌≡◌, refl, sym, ap, ◌∙◌}
use native.Mathlib.Omega.{arith}
use native.Mathlib.Nat.{pow-suc, one-le-pow, mul_assoc}
use native.Mathlib.Decide.{dec_lt}
use chronos_uvm.Prelude.Tests.{◌==◌, if◌then◌else◌}

-- The native operations are a recursion on binary digits with fuel. Any fuel from `a` on is enough.
module _ (tail : ℕ → ℕ) (digit : ℕ → ℕ → ℕ) where
  digits_any_fuel :
      (f g a b : ℕ) → a ≤ f → a ≤ g → digits tail digit f a b ≡ digits tail digit g a b
  digits_any_fuel zero zero a b hf hg = refl
  digits_any_fuel zero (suc g) zero b hf hg = refl
  digits_any_fuel (suc f) zero zero b hf hg = refl
  digits_any_fuel zero (suc g) (suc a) b hf hg = absurd (omega arith)
  digits_any_fuel (suc f) zero (suc a) b hf hg = absurd (omega arith)
  digits_any_fuel (suc f) (suc g) zero b hf hg = refl
  digits_any_fuel (suc f) (suc g) (suc a) b hf hg =
      let half : suc a / 2 ≤ f = omega arith in
      let half' : suc a / 2 ≤ g = omega arith in
      rw (digits_any_fuel f g (suc a / 2) (b / 2) half half')

  bitwise_digit :
      (a b : ℕ)
      → bitwise tail digit (suc a) b
        ≡ bitwise tail digit (suc a / 2) (b / 2) * 2 + digit (suc a % 2) (b % 2)
  bitwise_digit a b =
      let half : suc a / 2 ≤ a = omega arith in
      let whole : suc a / 2 ≤ suc a / 2 = omega arith in
      omega (arith, digits_any_fuel a (suc a / 2) (suc a / 2) (b / 2) half whole)

bit_and_digit : (a b : ℕ) → bit_and a b ≡ bit_and (a / 2) (b / 2) * 2 + min (a % 2) (b % 2)
bit_and_digit zero b = simp bit_and-bitwise (omega arith)
bit_and_digit (suc a) b = simp bit_and-bitwise (bitwise_digit (λ _. 0) min a b)

bit_or_digit : (a b : ℕ) → bit_or a b ≡ bit_or (a / 2) (b / 2) * 2 + max (a % 2) (b % 2)
bit_or_digit zero b = simp bit_or-bitwise (omega arith)
bit_or_digit (suc a) b = simp bit_or-bitwise (bitwise_digit (λ y. y) max a b)

zero_differ : (h d b : ℕ) → h * 2 + d ≡ b → b ≡ h * 2 + differ 0 d
zero_differ h d b e = sym e

bit_xor_digit : (a b : ℕ) → bit_xor a b ≡ bit_xor (a / 2) (b / 2) * 2 + differ (a % 2) (b % 2)
bit_xor_digit zero b = simp bit_xor-bitwise (zero_differ (b / 2) (b % 2) b (omega arith))
bit_xor_digit (suc a) b = simp bit_xor-bitwise (bitwise_digit (λ y. y) differ a b)

-- The bit at position `k`, 0 or 1.
abbrev pub bit_at : ℕ → ℕ → ℕ
bit_at zero w = w % 2
bit_at (suc k) w = bit_at k (w / 2)

pub bit_at-le : (k w : ℕ) → bit_at k w ≤ 1
bit_at-le zero w = omega arith
bit_at-le (suc k) w = bit_at-le k (w / 2)

pub bit_at-zero : (k : ℕ) → bit_at k 0 ≡ 0
bit_at-zero zero = refl
bit_at-zero (suc k) = bit_at-zero k

-- `1u64 << k`
abbrev pub bit : ℕ → ℕ
bit k = 2 ^ k

bit_half : (k : ℕ) → (bit (suc k) / 2 ≡ bit k) × (bit (suc k) % 2 ≡ 0)
bit_half k = (omega (arith, pow-suc 2 k), omega (arith, pow-suc 2 k))

pub bit_at-bit_or : (k a b : ℕ) → bit_at k (bit_or a b) ≡ max (bit_at k a) (bit_at k b)
bit_at-bit_or zero a b = omega (arith, bit_or_digit a b)
bit_at-bit_or (suc k) a b =
    let half : bit_or a b / 2 ≡ bit_or (a / 2) (b / 2) = omega (arith, bit_or_digit a b) in
    rw half (bit_at-bit_or k (a / 2) (b / 2))

pub bit_at-bit : (j k : ℕ) → bit_at j (bit k) ≡ (if j == k then 1 else 0)
bit_at-bit zero zero = refl
bit_at-bit zero (suc k) = ground (arith, (bit_half k).1)
bit_at-bit (suc j) zero = ground (arith, bit_at-zero j)
bit_at-bit (suc j) (suc k) = rw ((bit_half k).0) (ground (arith, bit_at-bit j k))

zero-bit_and : (b : ℕ) → bit_and 0 b ≡ 0
zero-bit_and b = bit_and-bitwise 0 b

bit_and-zero_below : (n a : ℕ) → a ≤ n → bit_and a 0 ≡ 0
bit_and-zero_below n zero h = refl
bit_and-zero_below zero (suc a) h = absurd (omega arith)
bit_and-zero_below (suc n) (suc a) h =
    omega (arith, bit_and_digit (suc a) 0, bit_and-zero_below n (suc a / 2) (omega arith))

bit_and-zero : (a : ℕ) → bit_and a 0 ≡ 0
bit_and-zero a = bit_and-zero_below a a (omega arith)

-- `w & (1 << k)` is the bit at `k`, in its place.
pub bit_and-bit : (k w : ℕ) → bit_and w (bit k) ≡ bit_at k w * bit k
bit_and-bit zero w = omega (arith, bit_and_digit w 1, bit_and-zero (w / 2))
bit_and-bit (suc k) w = omega (
  arith,
  bit_and_digit w (bit (suc k)),
  bit_half k,
  bit_and-bit k (w / 2),
  ap (λ (t : ℕ). bit_and (w / 2) t) ((bit_half k).0),
  ap (λ (t : ℕ). bit_at k (w / 2) * t) (pow-suc 2 k),
)

pub bit-lt : (k n : ℕ) → k < n → bit k < bit n
bit-lt k zero h = absurd (omega arith)
bit-lt k (suc n) h = elim (dec_lt k n) [
  | yes l ↦ omega (arith, pow-suc 2 n, bit-lt k n l)
  | no g ↦
      let e : k ≡ n = omega arith in rw e (omega (arith, pow-suc 2 n, one-le-pow n 2 (omega arith)))
]

-- A word of `n` bits stays one under `|`.
pub bit_or-lt : (n a b : ℕ) → a < bit n → b < bit n → bit_or a b < bit n
bit_or-lt zero a b ha hb = ground (arith, bit_or_digit a b)
bit_or-lt (suc n) a b ha hb = omega (
  arith,
  bit_or_digit a b,
  pow-suc 2 n,
  bit_or-lt n (a / 2) (b / 2) (omega (arith, pow-suc 2 n)) (omega (arith, pow-suc 2 n)),
)

differ_twice : (x y : ℕ) → x ≤ 1 → y ≤ 1 → (differ x y ≤ 1) × (differ x (differ x y) ≡ y)
differ_twice zero y hx hy = (hy, refl)
differ_twice (suc zero) zero hx hy = (omega arith, refl)
differ_twice (suc zero) (suc zero) hx hy = (omega arith, refl)
differ_twice (suc zero) (suc (suc y)) hx hy = absurd (omega arith)
differ_twice (suc (suc x)) y hx hy = absurd (omega arith)

zero-bit_xor : (b : ℕ) → bit_xor 0 b ≡ b
zero-bit_xor b = bit_xor-bitwise 0 b

bit_xor-twice_below : (n a b : ℕ) → a ≤ n → bit_xor a (bit_xor a b) ≡ b
bit_xor-twice_below n zero b h = rw zero-bit_xor (zero-bit_xor b)
bit_xor-twice_below zero (suc a) b h = absurd (omega arith)
bit_xor-twice_below (suc n) (suc a) b h =
    let c = bit_xor (suc a) b in
    let digit = differ_twice (suc a % 2) (b % 2) (omega arith) (omega arith) in
    let half : c / 2 ≡ bit_xor (suc a / 2) (b / 2) = omega (arith, bit_xor_digit (suc a) b) in
    let low : c % 2 ≡ differ (suc a % 2) (b % 2) = omega (arith, bit_xor_digit (suc a) b) in
    omega (
      arith,
      bit_xor_digit (suc a) c,
      ap (λ (t : ℕ). bit_xor (suc a / 2) t) half,
      ap (λ (t : ℕ). differ (suc a % 2) t) low,
      digit,
      bit_xor-twice_below n (suc a / 2) (b / 2) (omega arith),
    )

-- `a ^ (a ^ b)` is `b`.
pub bit_xor-twice : (a b : ℕ) → bit_xor a (bit_xor a b) ≡ b
bit_xor-twice a b = bit_xor-twice_below a a b (omega arith)

bit_or-zero_below : (n a : ℕ) → a ≤ n → bit_or a 0 ≡ a
bit_or-zero_below n zero h = bit_or-bitwise 0 0
bit_or-zero_below zero (suc a) h = absurd (omega arith)
bit_or-zero_below (suc n) (suc a) h =
    omega (arith, bit_or_digit (suc a) 0, bit_or-zero_below n (suc a / 2) (omega arith))

double_bit : (a k : ℕ) → a * bit (suc k) ≡ a * bit k * 2
double_bit a k = ap (λ (t : ℕ). a * t) (pow-suc 2 k) ∙ sym (mul_assoc a (bit k) 2)

-- `|` of fields that do not overlap is their sum.
pub bit_or-fields : (k hi lo : ℕ) → lo < bit k → bit_or (hi * bit k) lo ≡ hi * bit k + lo
bit_or-fields zero hi lo h =
    let none : lo ≡ 0 = omega arith in
    rw none (omega (arith, bit_or-zero_below (hi * bit 0) (hi * bit 0) (omega arith)))
bit_or-fields (suc k) hi lo h =
    let half : hi * bit (suc k) / 2 ≡ hi * bit k = omega (arith, double_bit hi k) in
    omega (
      arith,
      bit_or_digit (hi * bit (suc k)) lo,
      double_bit hi k,
      ap (λ (t : ℕ). bit_or t (lo / 2)) half,
      bit_or-fields k hi (lo / 2) (omega (arith, pow-suc 2 k)),
    )

-- `& ((1 << k) - 1)` is the field below bit `k`.
pub bit_and-mask : (k hi lo : ℕ) → lo < bit k → bit_and (hi * bit k + lo) (bit k - 1) ≡ lo
bit_and-mask zero hi lo h = omega (arith, bit_and-zero (hi * bit 0 + lo))
bit_and-mask (suc k) hi lo h =
    let half : (hi * bit (suc k) + lo) / 2 ≡ hi * bit k + lo / 2 = omega (arith, double_bit hi k) in
    let mask : (bit (suc k) - 1) / 2 ≡ bit k - 1 =
      omega (arith, pow-suc 2 k, one-le-pow k 2 (omega arith)) in
    omega (
      arith,
      bit_and_digit (hi * bit (suc k) + lo) (bit (suc k) - 1),
      double_bit hi k,
      pow-suc 2 k,
      one-le-pow k 2 (omega arith),
      ap (λ (t : ℕ). bit_and t ((bit (suc k) - 1) / 2)) half,
      ap (λ (t : ℕ). bit_and (hi * bit k + lo / 2) t) mask,
      bit_and-mask k hi (lo / 2) (omega (arith, pow-suc 2 k)),
    )
