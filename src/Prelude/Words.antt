-- ===== src/Prelude/Words.antt =====
-- 32-bit words as native numbers: the casts, shifts and operators of C on `Word` and `SWord`.
-- An `SWord` is kept as its bit pattern, a number below 2 ^ 32.
use Prim.Native.Nat.{ℕ, ◌+◌, ◌-◌, ◌*◌, ◌/◌, ◌%◌, ◌^◌}
use mathlib.Core.Bool.{Bool}
use uriscv.Prelude.Tests.{ltb, if◌then◌else◌}

abbrev pub u8 : ℕ → ℕ
u8 n = n % 2 ^ 8

abbrev pub u16 : ℕ → ℕ
u16 n = n % 2 ^ 16

abbrev pub u32 : ℕ → ℕ
u32 n = n % 2 ^ 32

abbrev pub max_word : ℕ
max_word = 0xffffffff

-- `a + b`, `a - b` and `~a` on words.
abbrev pub add32 : ℕ → ℕ → ℕ
add32 a b = (a + b) % 2 ^ 32

abbrev pub sub32 : ℕ → ℕ → ℕ
sub32 a b = (a + (2 ^ 32 - b)) % 2 ^ 32

abbrev pub not32 : ℕ → ℕ
not32 a = 0xffffffff - a

-- `w << k` and `w >> k` for an unsigned word and k below 32.
abbrev pub shl32 : ℕ → ℕ → ℕ
shl32 w k = w * 2 ^ k % 2 ^ 32

abbrev pub shr32 : ℕ → ℕ → ℕ
shr32 w k = w / 2 ^ k

-- `(SWord)a < (SWord)b`.
abbrev pub slt32 : ℕ → ℕ → Bool
slt32 a b = ltb ((a + 2 ^ 31) % 2 ^ 32) ((b + 2 ^ 31) % 2 ^ 32)

-- Conversion of an `int16_t` pattern to a word.
abbrev pub sext16 : ℕ → ℕ
sext16 h = if ltb h (2 ^ 15) then h else h + (2 ^ 32 - 2 ^ 16)
