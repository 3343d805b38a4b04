-- ===== src/Word/BitLaws.antt =====
-- What `SetBit`, `ResetBit` and `BitVal` do to the 32 digits of a word.
use uriscv.Prelude.{
  ℕ, ◌-◌, ◌/◌, ◌^◌, ◌≤◌, ◌<◌, bit_xor, ◌≡◌, ◌∙◌, not, arith, ltb, ltb→lt, Bool-cases, inl, inr,
  ◌==◌, if◌then◌else◌, max_word, bit, bit-and, bit-or, bit-xor, bit-zero, bit-two_pow,
  bit-complement, bit-div, bit-le, bit_above, differ-one, bit_and-low, bit_and-le, bit_or-lt, shl32,
}
use native.Mathlib.Nat.{pow-le-pow_right}
use uriscv.Word.{set_bit, reset_bit, bit_val}

-- 1 << p, as a power of two.
one_shifted : (p : ℕ) → p < 32 → shl32 1 p ≡ 2 ^ p
one_shifted p h =
    let below : 2 ^ p ≤ 2 ^ 31 = pow-le-pow_right {n = 2} (omega arith) {j = 31} (omega arith) in
    omega arith

-- `SetBit` sets digit p and keeps the others.
pub bit-set_bit : (w p k : ℕ) → p < 32 → bit (set_bit w p) k ≡ (if k == p then 1 else bit w k)
unfolding set_bit
bit-set_bit w p k h =
    rw (one_shifted p h) (ground (arith, bit-or k w (2 ^ p), bit-two_pow p k, bit-le k w))

all_ones : (k : ℕ) → k < 32 → bit max_word k ≡ 1
all_ones k h = bit-complement 32 k 0 h (omega arith) ∙ ground (arith, bit-zero k)

-- `ResetBit` clears digit p and keeps the others, in a word.
pub bit-reset_bit :
    (w p k : ℕ) → w < 2 ^ 32 → p < 32 → bit (reset_bit w p) k ≡ (if k == p then 0 else bit w k)
unfolding reset_bit
bit-reset_bit w p k hw h = elim (Bool-cases (ltb k 32)) [
  | inl inside ↦
      let mask = bit_xor max_word (set_bit 0 p) in
      let ones = all_ones k (ltb→lt k 32 inside) in
      let flipped : bit mask k ≡ 1 - bit (set_bit 0 p) k =
        bit-xor k max_word (set_bit 0 p)
        ∙ rw ones (differ-one (bit (set_bit 0 p) k) (bit-le k _)) in
      ground (arith, flipped, bit-and k w mask, bit-set_bit 0 p k h, bit-zero k, bit-le k w)
  | inr outside ↦ ground (arith, bit-and k w (bit_xor max_word (set_bit 0 p)), bit_above 32 k w hw)
]

-- `BitVal` tests digit p.
pub bit_val_lem : (w p : ℕ) → bit_val w p ≡ not (bit w p == 0)
unfolding bit_val
bit_val_lem w p = ground (arith, bit_and-low 1 (w / 2 ^ p), bit-div p w)

pub set_bit-lt : (w p : ℕ) → w < 2 ^ 32 → set_bit w p < 2 ^ 32
unfolding set_bit
set_bit-lt w p h = bit_or-lt 32 w (shl32 1 p) h (omega arith)

pub reset_bit-lt : (w p : ℕ) → w < 2 ^ 32 → reset_bit w p < 2 ^ 32
unfolding reset_bit
reset_bit-lt w p h = omega (arith, bit_and-le w (bit_xor max_word (set_bit 0 p)))
