-- ===== src/Word/Overflow.antt =====
-- The overflow tests of `UnsAdd`, `UnsSub`, `SignAdd` and `SignSub`.
use uriscv.Prelude.{
  ℕ, ◌+◌, ◌-◌, ◌*◌, ◌/◌, ◌%◌, ◌^◌, ◌≤◌, ◌<◌, ◌≡◌, true, arith, ltb, ◌↔◌, ◌⊎◌, bit_and-high,
  if◌then◌else◌,
}
use uriscv.Word.{uns_add, uns_sub, sign_add, sign_sub, sign_bit}

-- `UnsAdd` gives the true sum, its flag standing for the digit of weight 2 ^ 32.
pub uns_add-exact :
    (a b : ℕ)
    → a < 2 ^ 32
    → b < 2 ^ 32
    → (uns_add a b).0 + (if (uns_add a b).1 then 2 ^ 32 else 0) ≡ a + b
unfolding uns_add
uns_add-exact a b ha hb = ground arith

-- `UnsSub` gives the true difference, its flag standing for a borrow of 2 ^ 32.
pub uns_sub-exact :
    (a b : ℕ)
    → a < 2 ^ 32
    → b < 2 ^ 32
    → (uns_sub a b).0 + b ≡ a + (if (uns_sub a b).1 then 2 ^ 32 else 0)
unfolding uns_sub
uns_sub-exact a b ha hb = ground arith

-- The mask of the sign leaves 0 or 2 ^ 31.
sign_bit-eq : (w : ℕ) → w < 2 ^ 32 → sign_bit w ≡ w / 2 ^ 31 * 2 ^ 31
sign_bit-eq w h = bit_and-high 31 1 w (omega arith)

-- The integer that a pattern stands for, moved up by 2 ^ 31 to be a natural number.
abbrev pub biased : ℕ → ℕ
biased w = if ltb w (2 ^ 31) then w + 2 ^ 31 else w - 2 ^ 31

-- `SignAdd` reports an overflow exactly when the true sum is no 32-bit integer.
pub sign_add_flag :
    (a b : ℕ)
    → a < 2 ^ 32
    → b < 2 ^ 32
    → ((sign_add a b).1 ≡ true)
      ↔ ((biased a + biased b < 2 ^ 31) ⊎ (2 ^ 32 + 2 ^ 31 ≤ biased a + biased b))
unfolding sign_add
sign_add_flag a b ha hb =
    ground (arith, sign_bit-eq a ha, sign_bit-eq b hb, sign_bit-eq ((a + b) % 2 ^ 32) (omega arith))

-- `SignSub` reports an underflow exactly when the true difference is no 32-bit integer.
pub sign_sub_flag :
    (a b : ℕ)
    → a < 2 ^ 32
    → b < 2 ^ 32
    → ((sign_sub a b).1 ≡ true) ↔ ((biased a + 2 ^ 31 < biased b) ⊎ (biased b + 2 ^ 31 ≤ biased a))
unfolding sign_sub
sign_sub_flag a b ha hb = ground (
  arith,
  sign_bit-eq a ha,
  sign_bit-eq b hb,
  sign_bit-eq ((a + (2 ^ 32 - b)) % 2 ^ 32) (omega arith),
)
