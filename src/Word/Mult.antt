-- ===== src/Word/Mult.antt =====
-- `UnsMult`, `SignMult` and `UnsSignMult` of uriscv/utility.cc: 64-bit products from 16-bit halves.
pub mod Laws
use uriscv.Prelude.{
  ℕ, ◌+◌, ◌-◌, ◌*◌, ◌/◌, ◌%◌, ◌^◌, bit_and, bit_or, Bool, true, false, not, ltb, if◌then◌else◌, u32,
  add32, sub32, not32, shl32, shr32,
}
use uriscv.Word.{uns_add}

-- The two result words, `*hip` and `*lop`.
pub record Wide : Type 0 where
  pub high : ℕ
  pub low : ℕ

abbrev pub imm_mask : ℕ
imm_mask = 0x0000ffff

pub uns_mult : ℕ → ℕ → Wide
uns_mult m1 m2 =
    let a = shr32 (bit_and m1 (not32 imm_mask)) 16 in
    let b = bit_and m1 imm_mask in
    let c = shr32 (bit_and m2 (not32 imm_mask)) 16 in
    let d = bit_and m2 imm_mask in
    let lop = u32 (b * d) in
    let x = add32 (u32 (a * d)) (u32 (b * c)) in
    let y = add32 (bit_and (shr32 lop 16) imm_mask) x in
    record {
      high = add32 (bit_and (shr32 y 16) imm_mask) (u32 (a * c));
      low = bit_or (bit_and lop imm_mask) (shl32 (bit_and y imm_mask) 16);
    }

-- `m < 0` on a signed word, and `-m` with the wrap-around of the hosts.
abbrev is_negative : ℕ → Bool
is_negative m = not (ltb m 0x80000000)

abbrev negate : ℕ → ℕ
negate m = sub32 0 m

-- The two's complement of a wide result.
negate_wide : Wide → Wide
unfolding uns_add
negate_wide r =
    let high = not32 r.high in
    let (low, carry) = uns_add (not32 r.low) 1 in
    record { high = if carry then add32 high 1 else high; low = low }

pub sign_mult : ℕ → ℕ → Wide
unfolding negate_wide uns_mult
sign_mult m1 m2 =
    let neg_result = if is_negative m2 then not (is_negative m1) else is_negative m1 in
    let r =
      uns_mult (if is_negative m1 then negate m1 else m1)
        (if is_negative m2 then negate m2 else m2) in
    if neg_result then negate_wide r else r

-- `m1` is an unsigned parameter, so the test `m1 < 0` of the source never passes.
pub uns_sign_mult : ℕ → ℕ → Wide
unfolding negate_wide uns_mult
uns_sign_mult m1 m2 =
    let neg_result = ltb m1 0 in
    let r = uns_mult (if ltb m1 0 then negate m1 else m1) m2 in
    if neg_result then negate_wide r else r
