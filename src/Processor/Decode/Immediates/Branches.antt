-- ===== src/Processor/Decode/Immediates/Branches.antt =====
-- The immediate of the branches.
use uriscv.Prelude.{
  ℕ, ◌+◌, ◌-◌, ◌*◌, ◌^◌, ◌≤◌, ◌<◌, max, ◌≡◌, ◌↔◌, refl, sym, ◌∙◌, arith, ltb, ◌==◌, if◌then◌else◌,
  Bool-cases, inl, inr, bit, bit_and, bit_or, shl32, shr32, bit-and, bit-or, bit-le, bit-shifted,
  bit-over, bit-low, bit-mask, bit-two_pow,
}
use uriscv.Processor.Decode.{sign_extension, b_imm, branch_imm}
use uriscv.Processor.Decode.Immediates.{bit-sign_extension, bit-sext16}

-- A field taken where it stands and then moved down.
bit-moved :
    (m n w j i k : ℕ)
    → m ≡ (2 ^ w - 1) * 2 ^ (n + j)
    → bit (shr32 (bit_and i m) n) k
      ≡ (if ltb k j then 0 else if ltb k (j + w) then bit i (n + k) else 0)
bit-moved m n w j i k e =
    bit-over n k (bit_and i m)
    ∙ bit-and (n + k) i m
    ∙ rw e (
        rw (bit-shifted (n + j) (n + k) (2 ^ w - 1))
          (ground (arith, bit-mask w (n + k - (n + j)), bit-le (n + k) i)))

bit_7 : (i j : ℕ) → bit (bit_and i 0x80) j ≡ (if j == 7 then bit i 7 else 0)
bit_7 i j = elim (Bool-cases (j == 7)) [
  | inl e ↦ let at : j ≡ 7 = ground arith in rw at (bit-and 7 i 0x80 ∙ ground (arith, bit-le 7 i))
  | inr e ↦ bit-and j i 0x80 ∙ ground (arith, bit-two_pow 7 j, bit-le j i)
]

-- The digits that the instruction keeps for a branch: bit 12 of the offset in 31, bit 11 in 7.
pub bit-b_imm :
    (i k : ℕ)
    → k < 32
    → bit (b_imm i) k ≡ (
        if k == 0
        then 0
        else if ltb k 5
        then bit i (7 + k)
        else if ltb k 11
        then bit i (20 + k)
        else if k == 11
        then bit i 7
        else if k == 12
        then bit i 31
        else 0)
unfolding b_imm
bit-b_imm i k hk =
    let p1 = shr32 (bit_and i 0xf00) 7 in
    let p2 = shl32 (bit_and i 0x80) 4 in
    let p3 = shr32 (bit_and i 0x80000000) 19 in
    let p4 = shr32 (bit_and i 0x7e000000) 20 in
    bit-or k (bit_or (bit_or p1 p2) p3) p4
    ∙ rw
        (
          bit-or k (bit_or p1 p2) p3,
          bit-or k p1 p2,
          bit-moved 0xf00 7 4 1 i k refl,
          bit-moved 0x80000000 19 1 12 i k refl,
          bit-moved 0x7e000000 20 6 5 i k refl,
          bit-low 32 k (bit_and i 0x80 * 2 ^ 4),
          bit-shifted 4 k (bit_and i 0x80),
        )
        (let from_31 : k ≡ 12 → bit i (19 + k) ≡ bit i 31 = (λ e. rw e refl) in
          ground (arith, bit_7 i (k - 4), from_31))

bit_b_high : (i k : ℕ) → 12 ≤ k → k < 32 → bit (b_imm i) k ≡ (if k == 12 then bit i 31 else 0)
bit_b_high i k h hk = bit-b_imm i k hk ∙ ground arith

bit-branch_imm :
    (i k : ℕ)
    → k < 32
    → bit (branch_imm i) k ≡ (
        if ltb k 12 then bit (b_imm i) k else if k == 12 then max (bit i 7) (bit i 31) else bit i 7)
unfolding branch_imm
bit-branch_imm i k hk =
    let b11 : bit (b_imm i) 11 ≡ bit i 7 = bit-b_imm i 11 (omega arith) in
    let top : bit (sign_extension (b_imm i) 12) 15 ≡ max (bit i 7) 0 =
      bit-sign_extension (b_imm i) 11 15 (omega arith) (omega arith)
      ∙ rw (b11, bit-b_imm i 15 (omega arith)) refl in
    rw
      (
        bit-sext16 (sign_extension (b_imm i) 12) k hk,
        top,
        bit-sign_extension (b_imm i) 11 k (omega arith) hk,
        b11,
      )
      (elim (Bool-cases (ltb k 12)) [
        | inl low ↦ ground arith
        | inr high ↦ ground (arith, bit_b_high i k (ground arith) hk)
      ])

-- The distance of a branch repeats digit 31 of the instruction above its 12 low digits, as the
-- instruction set wants it, exactly when digits 7 and 31 are the same: the extension starts a
-- digit too low.
pub branch_imm_exact_iff :
    (i : ℕ)
    → ((k : ℕ) → k < 32 → bit (branch_imm i) k ≡ (if ltb k 12 then bit (b_imm i) k else bit i 31))
      ↔ (bit i 7 ≡ bit i 31)
branch_imm_exact_iff i = (
  λ h. sym (bit-branch_imm i 13 (omega arith)) ∙ h 13 (omega arith),
  λ same k hk. ground (arith, bit-branch_imm i k hk),
)
