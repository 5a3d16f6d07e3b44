-- ===== src/Common/Machine.antt =====
-- `int` of C++, 32 bits wide: an operation whose result does not fit is undefined, and so is a
-- conversion from a floating-point number that does not fit. Single-precision division is a parameter.
use mathlib.Core.Path.{◌≡◌}
use mathlib.Core.Bool.{Bool, ◌&&◌}
use mathlib.Core.Option.{Option, none, some}
use native.Mathlib.Omega.{arith}
use Prim.Native.Nat.{ℕ, suc, ◌+◌, ◌-◌, ◌*◌, ◌/◌, ◌^◌, ◌≤◌, ◌<◌}
use vaedb.Common.Tests.{ltb, leb, if◌then◌else◌}
use vaedb.Common.Int.{ℤ, pos, negsuc, pos_part, neg_part, ◌+ℤ◌, ◌-ℤ◌, ◌*ℤ◌}

unfoldable pub fits_int : ℤ → Bool
fits_int a = ltb (pos_part a) (2 ^ 31) && leb (neg_part a) (2 ^ 31)

-- The result of an operation on `int`.
unfoldable pub int : ℤ → Option ℤ
int a = if fits_int a then some a else none

-- The least integer that is at least a / b.
unfoldable pub ceil_div : ℤ → ℕ → ℤ
ceil_div (pos a) b = pos ((a + b - 1) / b)
ceil_div (negsuc n) b = pos 0 -ℤ pos (suc n / b)

-- Operations on `float`: conversion from `int`, division, and `(int)ceil(x)`. On a dividend below
-- 2 ^ 24 in size and a positive `int` as divisor their composition is exact, by IEEE 754.
pub record Floats : Type 1 where
  pub Float : Type 0
  pub from_int : ℤ → Float
  pub div : Float → Float → Float
  pub int_ceil : Float → Option ℤ
  pub int_ceil-div :
      (a : ℤ) (b : ℕ)
      → pos_part a < 2 ^ 24
      → neg_part a < 2 ^ 24
      → 0 < b
      → b < 2 ^ 31
      → int_ceil (div (from_int a) (from_int (pos b))) ≡ some (ceil_div a b)

pub int-pos : (n : ℕ) → n < 2 ^ 31 → int (pos n) ≡ some (pos n)
unfolding int fits_int
int-pos n h = ground arith

pub pos-add : (a b : ℕ) → pos a +ℤ pos b ≡ pos (a + b)
unfolding ◌+ℤ◌
pos-add a b = ground arith

pub pos-sub : (a b : ℕ) → b ≤ a → pos a -ℤ pos b ≡ pos (a - b)
unfolding ◌-ℤ◌
pos-sub a b h = ground arith

pub pos-mul : (a b : ℕ) → pos a *ℤ pos b ≡ pos (a * b)
unfolding ◌*ℤ◌
pos-mul a b = ground arith
