-- ===== src/Prelude/Words.antt =====
-- 32-bit words as native numbers. An `int` is its bit pattern, below 2 ^ 32.
use Prim.Native.Nat.{ℕ, ◌+◌, ◌-◌, ◌%◌, ◌^◌}
use mathlib.Core.Bool.{Bool, ◌||◌}
use operating_system_design.Prelude.Tests.{leb, ◌==◌}

abbrev pub u32_mod : ℕ
u32_mod = 2 ^ 32

abbrev pub add32 : ℕ → ℕ → ℕ
add32 a b = (a + b) % u32_mod

abbrev pub sub32 : ℕ → ℕ → ℕ
sub32 a b = (a + u32_mod - b) % u32_mod

-- `x < 0` for an `int`
abbrev pub is_neg : ℕ → Bool
is_neg x = leb (2 ^ 31) x

-- `x <= 0` for an `int`
abbrev pub is_nonpos : ℕ → Bool
is_nonpos x = (x == 0) || is_neg x

-- the `int` -1
abbrev pub minus_one : ℕ
minus_one = u32_mod - 1
