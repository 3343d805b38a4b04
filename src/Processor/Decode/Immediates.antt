-- ===== src/Processor/Decode/Immediates.antt =====
-- Which digits of an instruction make its immediates.
pub mod Branches
use uriscv.Prelude.{
  ℕ, zero, suc, ◌+◌, ◌-◌, ◌*◌, ◌/◌, ◌%◌, ◌^◌, ◌≤◌, ◌<◌, min, max, ◌≡◌, ◌≢◌, ◌⊎◌, refl, sym, ◌∙◌, ap,
  true, false, not, ◌&&◌, arith, ltb, ltb→lt, ◌==◌, if◌then◌else◌, Bool-cases, ==_iff,
  for_all_below, for_all_below_sound, inl, inr, bit, bit_and, bit_or, not32, shl32, shr32, bit-and,
  bit-or, bit-le, bit_above, bit-shifted, bit-div, bit-over, bit-low, bit-mask, bit_ext,
  bit_and-low, bit_and-field, bit_and-le, bit_or-lt, bit_or-shifted, u16, sext16,
}
use native.Mathlib.Nat.{pow-le-pow_right, mod-eq_of_lt, one-le-pow, mul-div_cancel}
use uriscv.Processor.Decode.{
  opcode, rd, func7, i_imm, s_imm, u_imm, sign_bit_of, sign_extension, load_imm, store_imm, lui_imm,
  jalr_imm,
}

sign_bit_of-eq : (v m : ℕ) → m < 32 → sign_bit_of v (suc m) ≡ bit v m
unfolding sign_bit_of
sign_bit_of-eq v m h =
    let size : 2 ^ m ≤ 2 ^ 31 = pow-le-pow_right {n = 2} (omega arith) {j = 31} (omega arith) in
    let power : suc m - 1 ≡ m = omega arith in
    let mask : 1 * 2 ^ m % 2 ^ 32 ≡ (2 ^ 1 - 1) * 2 ^ m = omega arith in
    rw (power, mask, bit_and-field m 1 v)
      (mul-div_cancel (v / 2 ^ m % 2 ^ 1) (one-le-pow m 2 (omega arith)) ∙ bit-div m v)

-- `SIGN_EXTENSION(v, n)` repeats digit n - 1 from digit n on, over what stood there.
pub bit-sign_extension :
    (v m k : ℕ)
    → m < 31
    → k < 32
    → bit (sign_extension v (suc m)) k ≡ (if ltb m k then max (bit v m) (bit v k) else bit v k)
unfolding sign_extension
bit-sign_extension v m k hm hk =
    let mask = (2 ^ (32 - suc m) - 1) * 2 ^ suc m in
    ground (
      arith,
      sign_bit_of-eq v m (omega arith),
      bit-or k v (mask % 2 ^ 32),
      bit-low 32 k mask,
      bit-shifted (suc m) k (2 ^ (32 - suc m) - 1),
      bit-mask (32 - suc m) (k - suc m),
      bit-le m v,
      bit-le k v,
    )

-- An `int16_t` in a word.
pub bit-sext16 :
    (v k : ℕ) → k < 32 → bit (sext16 (u16 v)) k ≡ (if ltb k 16 then bit v k else bit v 15)
bit-sext16 v k hk =
    let h = u16 v in
    let top = bit-div 15 h in
    ground (
      arith,
      top,
      bit-low 16 k v,
      bit-low 16 15 v,
      bit_or-shifted 16 (2 ^ 16 - 1) h (omega arith),
      bit-or k ((2 ^ 16 - 1) * 2 ^ 16) h,
      bit-shifted 16 k (2 ^ 16 - 1),
      bit-mask 16 (k - 16),
      bit-le 15 v,
      bit-le k h,
    )

bit-top : (i n k : ℕ) → i < 2 ^ 32 → 32 ≤ n + k → bit (shr32 i n) k ≡ 0
bit-top i n k hi h = bit-over n k i ∙ bit_above 32 (n + k) i hi h

-- The immediate of loads and of JALR: digits 20 to 31 of the instruction, and digit 31 again.
pub bit-load_imm :
    (i k : ℕ)
    → i < 2 ^ 32
    → k < 32
    → bit (load_imm i) k ≡ (if ltb k 12 then bit i (20 + k) else bit i 31)
unfolding load_imm i_imm
bit-load_imm i k hi hk =
    let v = sign_extension (shr32 i 20) 12 in
    ground (
      arith,
      bit-sext16 v k hk,
      bit-sign_extension (shr32 i 20) 11 k (omega arith) hk,
      bit-sign_extension (shr32 i 20) 11 15 (omega arith) (omega arith),
      bit-over 20 k i,
      bit-over 20 11 i,
      bit-top i 20 k hi,
      bit-top i 20 15 hi,
      bit-le 31 i,
    )

-- A field of w digits from digit n of the instruction, and the field in its place in an immediate.
pub bit-field :
    (n w i k : ℕ) → bit (bit_and (shr32 i n) (2 ^ w - 1)) k ≡ (if ltb k w then bit i (n + k) else 0)
bit-field n w i k =
    ground
      (arith, bit-and k (shr32 i n) (2 ^ w - 1), bit-mask w k, bit-over n k i, bit-le (n + k) i)

pub bit-placed :
    (n w s i k : ℕ)
    → k < 32
    → bit (shl32 (bit_and (shr32 i n) (2 ^ w - 1)) s) k
      ≡ (if ltb k s then 0 else if ltb k (s + w) then bit i (n + (k - s)) else 0)
bit-placed n w s i k hk =
    let x = bit_and (shr32 i n) (2 ^ w - 1) in
    ground (arith, bit-low 32 k (x * 2 ^ s), bit-shifted s k x, bit-field n w i (k - s))

bit-s_imm :
    (i k : ℕ)
    → k < 32
    → bit (s_imm i) k ≡ (if ltb k 5 then bit i (7 + k) else if ltb k 12 then bit i (20 + k) else 0)
unfolding s_imm rd func7
bit-s_imm i k hk =
    bit-or k (rd i) (shl32 (func7 i) 5)
    ∙ rw (bit-field 7 5 i k, bit-placed 25 7 5 i k hk)
        (elim (Bool-cases (ltb k 5)) [
          | inl low ↦ ground arith
          | inr high ↦ let place : 25 + (k - 5) ≡ 20 + k = ground arith in rw place (ground arith)
        ])

-- The immediate of stores: digits 7 to 11 and 25 to 31.
pub bit-store_imm :
    (i k : ℕ)
    → i < 2 ^ 32
    → k < 32
    → bit (store_imm i) k
      ≡ (if ltb k 5 then bit i (7 + k) else if ltb k 12 then bit i (20 + k) else bit i 31)
unfolding store_imm s_imm rd func7
bit-store_imm i k hi hk =
    let v = sign_extension (s_imm i) 12 in
    ground (
      arith,
      bit-sext16 v k hk,
      bit-sign_extension (s_imm i) 11 k (omega arith) hk,
      bit-sign_extension (s_imm i) 11 15 (omega arith) (omega arith),
      bit-s_imm i k hk,
      bit-s_imm i 11 (omega arith),
      bit-s_imm i 15 (omega arith),
      bit-le 31 i,
    )

-- LUI puts digits 12 to 31 in their places.
pub lui_imm-eq : (i : ℕ) → i < 2 ^ 32 → lui_imm i ≡ i / 2 ^ 12 * 2 ^ 12
unfolding lui_imm u_imm
lui_imm-eq i hi = bit_ext 32 _ _ (omega arith) (omega arith) (λ k hk. ground (
  arith,
  bit-low 32 k (sign_extension (shr32 i 12) 20 * 2 ^ 12),
  bit-shifted 12 k (sign_extension (shr32 i 12) 20),
  bit-shifted 12 k (i / 2 ^ 12),
  bit-sign_extension (shr32 i 12) 19 (k - 12) (omega arith) (omega arith),
))
