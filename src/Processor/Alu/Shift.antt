-- ===== src/Processor/Alu/Shift.antt =====
-- The arithmetic shifts to the right.
use uriscv.Prelude.{ℕ, ◌≡◌, refl, ◌∙◌, ap, arith, bit_and-field, bit_or-zero, shr32, u8}
use uriscv.Processor.Alu.{msb8, alu, alu_imm}

msb8-zero : (x : ℕ) → msb8 x ≡ 0
unfolding msb8
msb8-zero x = ap u8 (bit_and-field 31 1 x) ∙ omega arith

-- SRA and SRAI give what SRL and SRLI give: no copy of the sign comes in from the left.
pub sra-srl :
    (x y raw shamt : ℕ)
    → (alu 5 0x20 x y ≡ alu 5 0x0 x y) × (alu_imm 5 0x20 x raw shamt ≡ alu_imm 5 0x0 x raw shamt)
unfolding alu alu_imm
sra-srl x y raw shamt = (
  rw (msb8-zero x, bit_or-zero (shr32 x y)) refl,
  rw (msb8-zero x, bit_or-zero (shr32 x shamt)) refl,
)
