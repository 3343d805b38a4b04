-- ===== src/Processor/System.antt =====
-- `execInstrI2`: environment calls, the BIOS services, returns from traps, waiting, the CSRs.
pub mod Return
pub mod Registers
pub mod Buffer
use uriscv.Prelude.{
  ℕ, ◌*◌, ◌^◌, Bool, true, false, not, ◌&&◌, ◌||◌, Option, none, some, ltb, ◌==◌, if◌then◌else◌,
  get_elem?, bit_and, bit_or, not32,
}
use uriscv.Outcome.{Outcome, runs, exits, undefined, ◌>>=◌}
use uriscv.Processor.Constants.{
  exc_ii, exc_bp, exc_ecm, exc_ecu, csr_entryhi, csr_entrylo, csr_index, csr_random, mepc, time,
  il_cputimer, reg_a0,
}
use uriscv.Processor.State.{
  Processor, TlbEntry, csr_read, csr_write, reg_read, reg_write, signal_exc, advance, deassert_irq,
}
use uriscv.Processor.Tlb.{rnd_idx, probe_tlb, write_entry, zap_tlb}
use uriscv.Processor.Trap.{pop_ku_ie_stack, suspend}
use uriscv.Processor.Decode.{rd, rs1, func3, i_imm}

-- What an instruction that needs no bus comes to: the processor and the exception flag.
abbrev pub Result : Type 0
Result = Outcome (Processor × Bool)

unfoldable pub exec_ecall : Processor → Result
unfolding signal_exc
exec_ecall p = runs (signal_exc (advance p) (if p.mode == 0x3 then exc_ecm else exc_ecu) 0, true)

-- The services on the translation buffer, numbered by register a0.
unfoldable pub tlbp : Processor → Processor
tlbp p =
    let q = csr_write p csr_index 0x80000000 in
    elim (probe_tlb q (csr_read q csr_entryhi) (csr_read q csr_entryhi)) [
      | none ↦ q
      | some i ↦ csr_write q csr_index (i * 256)
    ]

unfoldable pub tlbr : Processor → Outcome Processor
tlbr p = elim (get_elem? p.tlb (rnd_idx (csr_read p csr_index))) [
  | none ↦ undefined
  | some e ↦ runs (csr_write (csr_write p csr_entryhi e.hi) csr_entrylo e.lo)
]

unfoldable pub tlbwi : Processor → Outcome Processor
tlbwi p =
    write_entry p (rnd_idx (csr_read p csr_index)) (csr_read p csr_entryhi) (csr_read p csr_entrylo)
      (rnd_idx (csr_read p csr_index))

-- The signal of TLBWR names the entry of INDEX, as in the source.
unfoldable pub tlbwr : Processor → Outcome Processor
tlbwr p =
    write_entry p (rnd_idx (csr_read p csr_random)) (csr_read p csr_entryhi)
      (csr_read p csr_entrylo) (rnd_idx (csr_read p csr_index))

-- A service's processor goes on with the next instruction.
unfoldable pub next_after : Outcome Processor → Result
next_after m = do p ← m; runs (advance p, false)

unfoldable pub exec_ebreak : Processor → Result
unfolding signal_exc next_after tlbp
exec_ebreak p =
    let service = reg_read p reg_a0 in
    if service == 2
    then exits
    else if ltb service 4 || not (ltb service 0x80000000)
    then runs (signal_exc p exc_bp 0, true)
    else if service == 6
    then next_after (runs (tlbp p))
    else if service == 7
    then next_after (tlbr p)
    else if service == 5
    then next_after (tlbwi p)
    else if service == 4
    then next_after (tlbwr p)
    else if service == 8
    then next_after (runs (zap_tlb p))
    else runs (advance (signal_exc p exc_ii 0), true)

unfoldable pub exec_mret : Processor → Result
exec_mret p = let q = pop_ku_ie_stack p in runs (record q { next_pc = csr_read q mepc }, false)

unfoldable pub exec_wfi : Processor → Result
exec_wfi p = runs (suspend (advance p), false)

-- A write to TIME takes the timer's interrupt back.
unfoldable pub time_written : ℕ → Processor → Processor
unfolding deassert_irq
time_written imm p = if imm == time then deassert_irq p il_cputimer else p

unfoldable pub exec_csrrw : Processor → ℕ → ℕ → ℕ → Processor
unfolding time_written
exec_csrrw p imm d s =
    let q = if d == 0 then p else reg_write p d (csr_read p imm) in
    if s == 0 then q else time_written imm (csr_write q imm (reg_read q s))

unfoldable pub exec_csrrs : Processor → ℕ → ℕ → ℕ → Processor
unfolding time_written
exec_csrrs p imm d s =
    let q = reg_write p d (csr_read p imm) in
    time_written imm (csr_write q imm (bit_or (csr_read q imm) (reg_read q s)))

unfoldable pub exec_csrrc : Processor → ℕ → ℕ → ℕ → Processor
unfolding time_written
exec_csrrc p imm d s =
    let q = reg_write p d (csr_read p imm) in
    if s == 0
    then q
    else time_written imm (csr_write q imm (bit_and (csr_read q imm) (not32 (reg_read q s))))

-- The immediate forms. CSRRWI clears bits as CSRRCI does.
unfoldable pub exec_csrrwi : Processor → ℕ → ℕ → ℕ → Processor
unfolding time_written
exec_csrrwi p imm d uimm =
    let q = reg_write p d (csr_read p imm) in
    time_written imm (csr_write q imm (bit_and (csr_read q imm) (not32 uimm)))

unfoldable pub exec_csrrsi : Processor → ℕ → ℕ → ℕ → Processor
unfolding time_written
exec_csrrsi p imm d uimm =
    let q = reg_write p d (csr_read p imm) in
    time_written imm (csr_write q imm (bit_or (csr_read q imm) uimm))

unfoldable pub exec_csrrci : Processor → ℕ → ℕ → ℕ → Processor
unfolding time_written
exec_csrrci p imm d uimm =
    let q = reg_write p d (csr_read p imm) in
    time_written imm (csr_write q imm (bit_and (csr_read q imm) (not32 uimm)))

-- FUNC3 0: the immediate says which. Another one ends the emulator, by the macro `ERROR`.
unfoldable pub exec_env : Processor → ℕ → Result
exec_env p imm =
    if imm == 0x0
    then exec_ecall p
    else if imm == 0x1
    then exec_ebreak p
    else if imm == 0x302
    then exec_mret p
    else if imm == 0x105
    then exec_wfi p
    else exits

unfoldable pub exec_system : Processor → ℕ → Result
unfolding exec_env
exec_system p i =
    let f = func3 i in
    let imm = i_imm i in
    if f == 0x0
    then exec_env p imm
    else if f == 0x1
    then runs (advance (exec_csrrw p imm (rd i) (rs1 i)), false)
    else if f == 0x2
    then runs (advance (exec_csrrs p imm (rd i) (rs1 i)), false)
    else if f == 0x3
    then runs (advance (exec_csrrc p imm (rd i) (rs1 i)), false)
    else if f == 0x5
    then runs (advance (exec_csrrwi p imm (rd i) (rs1 i)), false)
    else if f == 0x6
    then runs (advance (exec_csrrsi p imm (rd i) (rs1 i)), false)
    else if f == 0x7
    then runs (advance (exec_csrrci p imm (rd i) (rs1 i)), false)
    else exits
