-- ===== src/Prelude/Panic.antt =====
-- Code that may panic, and the two ways to build it. A call that panics is `none`.
use Prim.Native.Nat.{ℕ, ◌+◌, ◌%◌, ◌^◌, ◌<◌}
use mathlib.Core.Path.{◌≡◌, refl, ap}
use mathlib.Core.Bool.{Bool, true, false}
use mathlib.Core.Option.{Option, none, some}
use native.Mathlib.Omega.{arith}
use native.Mathlib.Nat.{mod-eq_of_lt}
use chronos_uvm.Prelude.Tests.{ltb, if◌then◌else◌}

-- `debug_assert!` and the overflow checks on `+` are compiled into `debug` builds only.
pub data Profile : Type 0 where
  debug release : Profile

infixl 5 ◌>>=◌ ◌>>◌
abbrev pub ◌>>=◌ {ℓ κ} : {A : Type ℓ} {B : Type κ} → Option A → (A → Option B) → Option B
none >>= f = none
some a >>= f = f a

abbrev pub ◌>>◌ {ℓ κ} : {A : Type ℓ} {B : Type κ} → Option A → Option B → Option B
m >> k = m >>= λ _. k

-- `assert!`
abbrev pub assert : Bool → Option (Unit {0})
assert true = some tt
assert false = none

-- `debug_assert!`
abbrev pub debug_assert : Profile → Bool → Option (Unit {0})
debug_assert debug b = assert b
debug_assert release b = some tt

pub debug_assert_holds : (p : Profile) (b : Bool) → b ≡ true → debug_assert p b ≡ some tt
debug_assert_holds debug b h = rw h
debug_assert_holds release b h = refl

-- `a + b` on a word of `modulus` values: it panics on overflow, or wraps.
abbrev pub add_word : Profile → ℕ → ℕ → ℕ → Option ℕ
add_word debug modulus a b = if ltb (a + b) modulus then some (a + b) else none
add_word release modulus a b = some ((a + b) % modulus)

-- Where the sum fits, both profiles return it.
pub add_word_fits :
    (p : Profile) (modulus a b : ℕ) → a + b < modulus → add_word p modulus a b ≡ some (a + b)
add_word_fits debug modulus a b h = ground arith
add_word_fits release modulus a b h = ap some (mod-eq_of_lt h)

-- The number of values of a `u64` (and of a `usize`, on the 64-bit hosts of the program) and `u32`.
abbrev pub u64 : ℕ
u64 = 2 ^ 64

abbrev pub u32 : ℕ
u32 = 2 ^ 32
