-- ===== src/Processor/Branch.antt =====
-- `execInstrB`, and the jumps of `execInstr`.
use uriscv.Prelude.{
  ℕ, Bool, true, false, not, ltb, ◌==◌, if◌then◌else◌, add32, slt32, bit_and, Option, none, some,
}
use uriscv.Processor.Constants.{exc_ii, wordlen}
use uriscv.Processor.State.{Processor, reg_read, reg_write, signal_exc, advance}
use uriscv.Processor.Decode.{rd, rs1, rs2, func3, branch_imm, auipc_imm, lui_imm, jal_imm, jalr_imm}

-- The tests of the six branches, on two registers; none for another FUNC3.
unfoldable pub taken : ℕ → ℕ → ℕ → Option Bool
taken f x y =
    if f == 0x0
    then some (x == y)
    else if f == 0x1
    then some (not (x == y))
    else if f == 0x4
    then some (slt32 x y)
    else if f == 0x5
    then some (not (slt32 x y))
    else if f == 0x6
    then some (ltb x y)
    else if f == 0x7
    then some (not (ltb x y))
    else none

-- The processor, and whether an exception was signalled.
unfoldable pub exec_branch : Processor → ℕ → Processor × Bool
unfolding taken signal_exc
exec_branch p i = elim (taken (func3 i) (reg_read p (rs1 i)) (reg_read p (rs2 i))) [
  | none ↦ (signal_exc p exc_ii 0, true)
  | some t ↦ (if t then record p { next_pc = add32 p.curr_pc (branch_imm i) } else advance p, false)
]

-- AUIPC, LUI, JAL and JALR. JALR reads its base after it has written `rd`.
unfoldable pub exec_auipc : Processor → ℕ → Processor
exec_auipc p i = advance (reg_write p (rd i) (add32 p.curr_pc (auipc_imm i)))

unfoldable pub exec_lui : Processor → ℕ → Processor
exec_lui p i = advance (reg_write p (rd i) (lui_imm i))

unfoldable pub exec_jal : Processor → ℕ → Processor
exec_jal p i = record (reg_write p (rd i) (add32 p.curr_pc wordlen)) {
  next_pc = add32 p.curr_pc (jal_imm i);
}

unfoldable pub exec_jalr : Processor → ℕ → Processor
exec_jalr p i =
    let q = reg_write p (rd i) (add32 p.curr_pc wordlen) in
    record q { next_pc = bit_and (add32 (reg_read q (rs1 i)) (jalr_imm i)) 0xfffffffe }
