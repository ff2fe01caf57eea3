-- ===== src/Common/Int.antt =====
-- Signed integers, and the IEEE 754 reading of a 64-bit pattern.
use Prim.Native.Nat.{ℕ, ◌/◌, ◌%◌, ◌^◌}
use mathlib.Core.Bool.{Bool, true, false, not, ◌&&◌}
use agent_council.Common.Tests.{◌==◌}

-- `negsuc n` is -(n + 1).
pub data ℤ : Type 0 where
  pos : ℕ → ℤ
  negsuc : ℕ → ℤ

abbrev pub is_negative : ℤ → Bool
is_negative (pos n) = false
is_negative (negsuc n) = true

-- The fields of the bit pattern of a float64: sign, exponent, fraction.
abbrev pub float_sign : ℕ → ℕ
float_sign b = b / 2 ^ 63 % 2

abbrev pub float_exponent : ℕ → ℕ
float_exponent b = b / 2 ^ 52 % 2 ^ 11

abbrev pub float_fraction : ℕ → ℕ
float_fraction b = b % 2 ^ 52

-- `math.IsNaN`, `math.IsInf(x, 0)` and `x < 0`, which fails for -0 and for a NaN.
abbrev pub is_nan : ℕ → Bool
is_nan b = (float_exponent b == 2047) && not (float_fraction b == 0)

abbrev pub is_inf : ℕ → Bool
is_inf b = (float_exponent b == 2047) && (float_fraction b == 0)

abbrev pub is_below_zero : ℕ → Bool
is_below_zero b = (float_sign b == 1) && not (is_nan b) && not (b % 2 ^ 63 == 0)
