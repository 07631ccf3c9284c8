-- ===== src/Base/Word.antt =====
-- Casts to C's fixed widths, wrapping arithmetic and shifts.
use Prim.Native.Nat.{ℕ, ◌+◌, ◌-◌, ◌/◌, ◌%◌, ◌^◌}
use muse.Base.Tests.{ltb, if◌then◌else◌}

abbrev pub u8 : ℕ → ℕ
u8 n = n % 2 ^ 8

abbrev pub u16 : ℕ → ℕ
u16 n = n % 2 ^ 16

abbrev pub u32 : ℕ → ℕ
u32 n = n % 2 ^ 32

-- uint32_t `a - b`
abbrev pub sub32 : ℕ → ℕ → ℕ
sub32 a b = (a + 2 ^ 32 - b) % 2 ^ 32

-- `x >> k`
abbrev pub shr : ℕ → ℕ → ℕ
shr x k = x / 2 ^ k

-- `1 << k`, for k below the width
abbrev pub one_shl : ℕ → ℕ
one_shl k = 2 ^ k

-- `~m` at 32 bits
abbrev pub not32 : ℕ → ℕ
not32 m = 2 ^ 32 - 1 - m

-- a `char` (signed on i386) converted to int, as a 32-bit pattern
abbrev pub char_to_int : ℕ → ℕ
char_to_int c = if ltb c 128 then c else c + (2 ^ 32 - 2 ^ 8)
