-- ===== src/Prelude/Float.antt =====
-- `f64`, as the 64 bits of its IEEE 754 form (`f64::to_bits`), with the tests that the sources make.
-- The bits 0 to 51 are the fraction, 52 to 62 the exponent, 63 is the sign.
use Prim.Native.Nat.{ℕ, ◌/◌, ◌%◌}
use mathlib.Core.Bool.{Bool, ◌&&◌, ◌||◌, not}
use sinan.Prelude.Tests.{◌==◌}

abbrev pub F64 : Type 0
F64 = ℕ

unfoldable pub exponent_bits : F64 → ℕ
exponent_bits x = (x / 4503599627370496) % 2048

-- `f64::is_finite`.
unfoldable pub is_finite : F64 → Bool
unfolding exponent_bits
is_finite x = not (exponent_bits x == 2047)

unfoldable pub is_nan : F64 → Bool
unfolding exponent_bits
is_nan x = exponent_bits x == 2047 && not (x % 4503599627370496 == 0)

-- 0.0 and -0.0.
unfoldable pub is_zero : F64 → Bool
is_zero x = x % 9223372036854775808 == 0

unfoldable pub sign_bit : F64 → Bool
sign_bit x = not (x / 9223372036854775808 == 0)

-- `x < 0.0` and `x <= 0.0`.
unfoldable pub below_zero : F64 → Bool
unfolding is_nan is_zero sign_bit
below_zero x = not (is_nan x) && not (is_zero x) && sign_bit x

unfoldable pub not_above_zero : F64 → Bool
unfolding is_nan is_zero sign_bit
not_above_zero x = not (is_nan x) && (is_zero x || sign_bit x)
