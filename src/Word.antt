-- ===== src/Word.antt =====
-- uriscv/utility.cc and include/base/bit_tricks.h: operations on one word.
pub mod BitLaws
pub mod Overflow
pub mod Mult
mod Tests
use uriscv.Prelude.{
  ℕ, ◌+◌, ◌-◌, ◌*◌, ◌/◌, ◌%◌, ◌^◌, bit_and, bit_or, bit_xor, Bool, true, false, not, ◌&&◌, ◌||◌,
  ltb, ◌==◌, max_word, add32, sub32, not32, shl32, shr32,
}

-- `SetBit`, `ResetBit` and `BitVal`, for bit positions below 32.
pub set_bit : ℕ → ℕ → ℕ
set_bit w p = bit_or w (shl32 1 p)

pub reset_bit : ℕ → ℕ → ℕ
reset_bit w p = bit_and w (bit_xor max_word (set_bit 0 p))

pub bit_val : ℕ → ℕ → Bool
bit_val w p = not (bit_and (shr32 w p) 1 == 0)

-- `UnsAdd` and `UnsSub`: the result, and whether it wrapped.
pub uns_add : ℕ → ℕ → ℕ × Bool
uns_add a1 a2 = (add32 a1 a2, ltb (not32 a1) a2)

unfoldable pub uns_sub : ℕ → ℕ → ℕ × Bool
uns_sub s1 s2 = (sub32 s1 s2, ltb s1 s2)

-- The macro `SIGNBIT`.
abbrev pub sign_bit : ℕ → ℕ
sign_bit w = bit_and w 0x80000000

-- `SignAdd` and `SignSub` on patterns of signed words, with the wrap-around of the hosts.
pub sign_add : ℕ → ℕ → ℕ × Bool
sign_add a1 a2 =
    let dest = add32 a1 a2 in
    (dest, (sign_bit a1 == sign_bit a2) && not (sign_bit dest == sign_bit a1))

pub sign_sub : ℕ → ℕ → ℕ × Bool
sign_sub s1 s2 =
    let dest = sub32 s1 s2 in
    (dest, not (sign_bit s1 == sign_bit s2) && not (sign_bit dest == sign_bit s1))

-- `FloorP2`, `CeilingP2` and `SwapEndian32`.
pub smear : ℕ → ℕ
smear x0 =
    let x1 = bit_or x0 (shr32 x0 1) in
    let x2 = bit_or x1 (shr32 x1 2) in
    let x3 = bit_or x2 (shr32 x2 4) in let x4 = bit_or x3 (shr32 x3 8) in bit_or x4 (shr32 x4 16)

pub floor_p2 : ℕ → ℕ
unfolding smear
floor_p2 x = let y = smear x in sub32 y (shr32 y 1)

pub ceiling_p2 : ℕ → ℕ
unfolding smear
ceiling_p2 x = add32 (smear (sub32 x 1)) 1

pub swap_endian32 : ℕ → ℕ
swap_endian32 x =
    bit_or
      (bit_or (bit_or (shl32 x 24) (bit_and (shl32 x 8) 0x00ff0000))
        (bit_and (shr32 x 8) 0x0000ff00))
      (shr32 x 24)
