-- ===== src/Processor/Decode.antt =====
-- The field and immediate macros of include/uriscv/processor_defs.h.
pub mod Immediates
use uriscv.Prelude.{
  ℕ, ◌-◌, ◌*◌, ◌/◌, ◌%◌, ◌^◌, Bool, if◌then◌else◌, ◌==◌, bit_and, bit_or, shl32, shr32, u16, sext16,
}

unfoldable pub opcode : ℕ → ℕ
opcode i = bit_and i 0x7f

unfoldable pub rd : ℕ → ℕ
rd i = bit_and (shr32 i 7) 0x1f

unfoldable pub func3 : ℕ → ℕ
func3 i = bit_and (shr32 i 12) 0x7

unfoldable pub rs1 : ℕ → ℕ
rs1 i = bit_and (shr32 i 15) 0x1f

unfoldable pub rs2 : ℕ → ℕ
rs2 i = bit_and (shr32 i 20) 0x1f

unfoldable pub func7 : ℕ → ℕ
func7 i = bit_and (shr32 i 25) 0x7f

unfoldable pub i_imm : ℕ → ℕ
i_imm i = shr32 i 20

unfoldable pub i_shamt : ℕ → ℕ
i_shamt i = bit_and (shr32 i 20) 0x1f

unfoldable pub b_imm : ℕ → ℕ
b_imm i =
    bit_or
      (bit_or (bit_or (shr32 (bit_and i 0xf00) 7) (shl32 (bit_and i 0x80) 4))
        (shr32 (bit_and i 0x80000000) 19))
      (shr32 (bit_and i 0x7e000000) 20)

unfoldable pub u_imm : ℕ → ℕ
u_imm i = shr32 i 12

unfoldable pub s_imm : ℕ → ℕ
unfolding rd func7
s_imm i = bit_or (rd i) (shl32 (func7 i) 5)

unfoldable pub j_imm : ℕ → ℕ
j_imm i =
    bit_or
      (bit_or (bit_or (shl32 (bit_and (shr32 i 31) 0x1) 20) (shl32 (bit_and (shr32 i 21) 0x3ff) 1))
        (shl32 (bit_and (shr32 i 20) 0x1) 11))
      (shl32 (bit_and (shr32 i 12) 0xff) 12)

-- `SIGN_BIT` and `SIGN_EXTENSION`.
unfoldable pub sign_bit_of : ℕ → ℕ → ℕ
sign_bit_of value bits = shr32 (bit_and value (shl32 1 (bits - 1))) (bits - 1)

unfoldable pub sign_extension : ℕ → ℕ → ℕ
unfolding sign_bit_of
sign_extension value bits =
    if sign_bit_of value bits == 0 then value else bit_or value (shl32 (2 ^ (32 - bits) - 1) bits)

-- The immediates as the instructions use them. Loads, branches and stores keep theirs in an
-- `int16_t`, which the addition to a word widens again.
unfoldable pub load_imm : ℕ → ℕ
unfolding i_imm sign_extension
load_imm i = sext16 (u16 (sign_extension (i_imm i) 12))

unfoldable pub branch_imm : ℕ → ℕ
unfolding b_imm sign_extension
branch_imm i = sext16 (u16 (sign_extension (b_imm i) 12))

unfoldable pub store_imm : ℕ → ℕ
unfolding s_imm sign_extension
store_imm i = sext16 (u16 (sign_extension (s_imm i) 12))

unfoldable pub auipc_imm : ℕ → ℕ
unfolding u_imm sign_extension
auipc_imm i = sign_extension (u_imm i) 12

unfoldable pub lui_imm : ℕ → ℕ
unfolding u_imm sign_extension
lui_imm i = shl32 (sign_extension (u_imm i) 20) 12

unfoldable pub jal_imm : ℕ → ℕ
unfolding j_imm sign_extension
jal_imm i = bit_and (sign_extension (j_imm i) 20) 0xfffffffe

unfoldable pub jalr_imm : ℕ → ℕ
unfolding i_imm sign_extension
jalr_imm i = sign_extension (i_imm i) 12
