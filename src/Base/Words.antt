-- ===== src/Base/Words.antt =====
-- Machine words as native numbers: a w-bit value is below 2 ^ w and its arithmetic wraps.
use Prim.Native.Nat.{ℕ, ◌+◌, ◌-◌, ◌/◌, ◌%◌, ◌^◌}
use mathlib.Core.Bool.{Bool}
use enet.Base.Tests.{if◌then◌else◌, ltb, ◌==◌}

-- `enet_uint16`
abbrev pub u16 : ℕ → ℕ
u16 x = x % 2 ^ 16

-- `enet_uint32`
abbrev pub u32 : ℕ → ℕ
u32 x = x % 2 ^ 32

-- `a - b` of two `enet_uint32`
abbrev pub sub32 : ℕ → ℕ → ℕ
sub32 a b = (a + 2 ^ 32 - b) % 2 ^ 32

-- `size_t` addition and subtraction
abbrev pub add64 : ℕ → ℕ → ℕ
add64 a b = (a + b) % 2 ^ 64

abbrev pub sub64 : ℕ → ℕ → ℕ
sub64 a b = (a + 2 ^ 64 - b) % 2 ^ 64

-- `x & (1 << k)` as a test
abbrev pub has_bit : ℕ → ℕ → Bool
has_bit k x = x / 2 ^ k % 2 == 1

-- `x |= 1 << k`
abbrev pub set_bit : ℕ → ℕ → ℕ
set_bit k x = if has_bit k x then x else x + 2 ^ k

-- `x &= ~ (1 << k)`
abbrev pub clear_bit : ℕ → ℕ → ℕ
clear_bit k x = if has_bit k x then x - 2 ^ k else x

-- `ENET_MAX`, `ENET_MIN` and `ENET_DIFFERENCE` of utility.h
abbrev pub max : ℕ → ℕ → ℕ
max x y = if ltb y x then x else y

abbrev pub min : ℕ → ℕ → ℕ
min x y = if ltb x y then x else y
