-- ===== src/Prelude/Int.antt =====
-- Go's `int`, `int64` and `time.Duration` as integers with their wrap-around, and instants as
-- nanoseconds since year 1, the zero `time.Time`.
use Prim.Native.Nat.{ℕ, ◌+◌, ◌-◌, ◌*◌, ◌%◌, ◌≤◌}
use mathlib.Core.Path.{◌≡◌}
use native.Mathlib.Omega.{arith}
use mathlib.Core.Bool.{Bool, false}
use teploy_sandbox.Prelude.Tests.{ltb, if◌then◌else◌}

-- `negsuc n` is -(n + 1).
pub data ℤ : Type 0 where
  pos : ℕ → ℤ
  negsuc : ℕ → ℤ

abbrev pub two_pow_63 : ℕ
two_pow_63 = 9223372036854775808

abbrev pub two_pow_64 : ℕ
two_pow_64 = 18446744073709551616

-- The signed reading of a 64-bit pattern.
abbrev pub of_bits : ℕ → ℤ
of_bits b = if ltb b two_pow_63 then pos b else negsuc (two_pow_64 - 1 - b)

-- The value that an int64 holds after a computation whose exact result is the argument.
abbrev pub to_int64 : ℤ → ℤ
to_int64 (pos n) = of_bits (n % two_pow_64)
to_int64 (negsuc n) = of_bits (two_pow_64 - 1 - n % two_pow_64)

abbrev pub is_positive : ℤ → Bool
is_positive (pos n) = ltb 0 n
is_positive (negsuc n) = false

-- `a > b` for a bound `b` that is not negative.
abbrev pub exceeds : ℤ → ℕ → Bool
exceeds (pos n) b = ltb b n
exceeds (negsuc n) b = false

abbrev pub second : ℕ
second = 1000000000

abbrev pub scale : ℤ → ℤ
scale (pos n) = pos (n * second)
scale (negsuc n) = negsuc (n * second + (second - 1))

-- `time.Duration(n) * time.Second`, which wraps.
unfoldable pub seconds : ℤ → ℤ
seconds n = to_int64 (scale n)

-- `t.Add(d)`. Clocks run some 2024 years after the zero instant and a duration is at most 292
-- years, so the subtraction is exact.
abbrev pub add_duration : ℕ → ℤ → ℕ
add_duration t (pos d) = t + d
add_duration t (negsuc d) = t - (d + 1)

-- Up to some 292 years the product is exact, and up to twice that it is negative.
pub seconds-exact : (n : ℕ) → n ≤ 9223372036 → seconds (pos n) ≡ pos (n * second)
unfolding seconds
seconds-exact n h = ground arith

pub seconds-wrapped :
    (n : ℕ)
    → 9223372037 ≤ n
    → n ≤ 18446744073
    → seconds (pos n) ≡ negsuc (two_pow_64 - 1 - n * second)
unfolding seconds
seconds-wrapped n h k = ground arith
