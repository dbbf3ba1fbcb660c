-- ===== src/Prelude/Integers.antt =====
-- The integers over the native ℕ, and the cast of a `u32` to `i32`.
use Prim.Native.Nat.{ℕ, ◌-◌, ◌^◌, ◌<◌, ◌≤◌}
use mathlib.Core.Path.{◌≡◌}
use native.Mathlib.Omega.{arith}
use chronos_uvm.Prelude.Tests.{ltb, if◌then◌else◌}

-- `negsuc n` is -(n + 1).
pub data ℤ : Type 0 where
  pos negsuc : ℕ → ℤ

-- `n as i32`, of a `u32`: from 2 ^ 31 on it is n - 2 ^ 32.
unfoldable pub as_i32 : ℕ → ℤ
as_i32 n = if ltb n (2 ^ 31) then pos n else negsuc (2 ^ 32 - 1 - n)

pub as_i32_small : (n : ℕ) → n < 2 ^ 31 → as_i32 n ≡ pos n
unfolding as_i32
as_i32_small n h = ground (arith, h)

pub as_i32_large : (n : ℕ) → 2 ^ 31 ≤ n → as_i32 n ≡ negsuc (2 ^ 32 - 1 - n)
unfolding as_i32
as_i32_large n h = ground (arith, h)
