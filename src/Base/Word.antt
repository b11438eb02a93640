-- ===== src/Base/Word.antt =====
-- The integer types of ff.h (BYTE, WORD, DWORD) are numbers cut off at their width. A mask of the
-- k low bits is a remainder and a shift a product or a quotient.
use Prim.Native.Nat.{ℕ, ◌+◌, ◌-◌, ◌*◌, ◌/◌, ◌%◌, ◌^◌}
use mathlib.Core.Bool.{Bool}
use zephyr_fatfs_aflplusplus.Base.Tests.{◌==◌}

abbrev pub u8 : ℕ → ℕ
u8 n = n % 2 ^ 8

abbrev pub u16 : ℕ → ℕ
u16 n = n % 2 ^ 16

abbrev pub u32 : ℕ → ℕ
u32 n = n % 2 ^ 32

-- DWORD a - b, which wraps around.
abbrev pub sub32 : ℕ → ℕ → ℕ
sub32 a b = (a + 2 ^ 32 - b) % 2 ^ 32

-- x & (2^k - 1)
abbrev pub low_bits : ℕ → ℕ → ℕ
low_bits x k = x % 2 ^ k

-- x & ~(2^k - 1)
abbrev pub high_bits : ℕ → ℕ → ℕ
high_bits x k = x / 2 ^ k * 2 ^ k

-- hi << k | lo, for a `lo` of at most k bits.
abbrev pub join : ℕ → ℕ → ℕ → ℕ
join k hi lo = hi * 2 ^ k + lo

-- x & (1 << k), as a condition.
abbrev pub bit : ℕ → ℕ → Bool
bit x k = x / 2 ^ k % 2 == 1
