-- ===== src/Base/Word.antt =====
-- Machine words as native numbers: casts to the fixed widths, and sums that wrap.
use Prim.Native.Nat.{ℕ, ◌+◌, ◌-◌, ◌%◌, ◌^◌}

abbrev pub u8 : ℕ → ℕ
u8 n = n % 2 ^ 8

abbrev pub u16 : ℕ → ℕ
u16 n = n % 2 ^ 16

abbrev pub u32 : ℕ → ℕ
u32 n = n % 2 ^ 32

-- `uint32_t` sum and difference. An `int` is kept as its bit pattern, so these are its sums too.
abbrev pub add32 : ℕ → ℕ → ℕ
add32 a b = u32 (a + b)

-- Both arguments are words: the modulus is added first, since `-` stops at 0.
abbrev pub sub32 : ℕ → ℕ → ℕ
sub32 a b = u32 (a + 2 ^ 32 - b)
