-- ===== src/Prelude/Words.antt =====
-- Machine words as native numbers, with the wrap written out.
use Prim.Native.Nat.{ℕ, ◌+◌, ◌-◌, ◌%◌, ◌^◌}
use mathlib.Core.Bool.{Bool}
use tweaking_pintos.Prelude.Tests.{ltb, leb}

-- An `int` is its 32-bit pattern; this is the pattern of -1.
abbrev pub minus_one : ℕ
minus_one = 2 ^ 32 - 1

-- `a < b` on two's complement patterns of 32 bits.
abbrev pub int_lt : ℕ → ℕ → Bool
int_lt a b = ltb ((a + 2 ^ 31) % 2 ^ 32) ((b + 2 ^ 31) % 2 ^ 32)

-- `a <= b` on two's complement patterns of 64 bits.
abbrev pub long_le : ℕ → ℕ → Bool
long_le a b = leb ((a + 2 ^ 63) % 2 ^ 64) ((b + 2 ^ 63) % 2 ^ 64)
