-- ===== src/Processor/Cycle.antt =====
-- `execInstr`, `Cycle`, `Reset`, `IdleCycles` and `Skip`.
pub mod Fault
pub mod Idle
use uriscv.Prelude.{
  ℕ, ◌-◌, ◌*◌, ◌^◌, Bool, true, false, not, ◌&&◌, ◌||◌, ltb, leb, ◌==◌, if◌then◌else◌, add32, sub32,
  max_word, update, length,
}
use uriscv.Outcome.{Outcome, runs, exits, undefined, ◌>>=◌}
use uriscv.Processor.Constants.{
  access_exec, time, il_cputimer, wordlen, nop, reg_sp, csr_entryhi, csr_entrylo, csr_index,
  csr_badvaddr, csr_random, mstatus, mstatus_mpp_mask, mie, mcause, prid, mip, mtvec,
}
use uriscv.Processor.State.{
  Processor, running, csr_read, csr_write, is_halted, is_idle, set_status, assert_irq, deassert_irq,
  timer_enabled,
}
use uriscv.Processor.Tlb.{random_reg_tick, random_top}
use uriscv.Processor.Trap.{check_for_int, handle_exc}
use uriscv.Processor.Translate.{Mapped, map_virtual}
use uriscv.Processor.Decode.{opcode}
use uriscv.Processor.Access.{BusOps, Core, Step, Fetched, instr_read, with_cpu, step}
use uriscv.Processor.Alu.{exec_r, exec_i}
use uriscv.Processor.Load.{exec_load}
use uriscv.Processor.Store.{exec_store}
use uriscv.Processor.Branch.{exec_branch, exec_auipc, exec_lui, exec_jal, exec_jalr}
use uriscv.Processor.System.{Result, exec_system}

-- The count-down of TIME at the start of a cycle.
unfoldable pub tick_timer : Processor → Processor
unfolding timer_enabled assert_irq deassert_irq
tick_timer p =
    if timer_enabled p
    then (let q = if csr_read p time == 0 then assert_irq p il_cputimer else p in
        csr_write q time (sub32 (csr_read q time) 1))
    else deassert_irq p il_cputimer

-- The book-keeping between execution and fetch.
unfoldable pub shift_pcs : Processor → Processor
shift_pcs p =
    let q = random_reg_tick (record p {
      prev_pc = p.curr_pc;
      prev_phys_pc = p.curr_phys_pc;
      prev_instr = p.curr_instr;
    }) in
    record q { curr_pc = q.next_pc; next_pc = q.succ_pc; succ_pc = add32 q.succ_pc wordlen }

unfoldable pub take_interrupt : Processor → Processor
take_interrupt p =
    let (q, pending) = check_for_int p in
    let r = if pending then handle_exc q else q in record r { skip_cycle = false }

-- `IdleCycles`, and `Skip` with its assertion.
unfoldable pub idle_cycles : Processor → ℕ
unfolding timer_enabled
idle_cycles p =
    if is_halted p
    then max_word
    else if is_idle p
    then (if timer_enabled p then csr_read p time else max_word)
    else 0

unfoldable pub skip : Processor → ℕ → Outcome Processor
unfolding idle_cycles
skip p cycles =
    if is_idle p && leb cycles (idle_cycles p)
    then runs (if timer_enabled p then csr_write p time (sub32 (csr_read p time) cycles) else p)
    else exits

-- The registers of a reset.
unfoldable pub reset_registers : Processor → ℕ → ℕ → Processor
reset_registers p pc sp =
    let q = record p {
      exc_cause = 0;
      cop_e_num = 0;
      skip_cycle = false;
      gpr = update (λ r. if ltb r 32 then 0 else p.gpr r) reg_sp sp;
      prev_pc = max_word;
      prev_phys_pc = max_word;
      prev_instr = nop;
    } in
    let c1 =
      csr_write (csr_write (csr_write (csr_write q csr_entryhi 0) csr_entrylo 0) csr_index 0)
        csr_badvaddr 0 in
    let c2 =
      csr_write (csr_write c1 csr_random (sub32 (random_top q) 256)) mstatus mstatus_mpp_mask in
    let c3 = csr_write (csr_write (csr_write (csr_write c2 mie 0) mcause 0) time 0) prid p.id in
    let c4 = csr_write (csr_write c3 mip 0) mtvec 0 in record c4 { mode = 0x3; curr_pc = pc }

module _ {W : Type 0} (b : BusOps W) where
  abbrev pub lift : Core W → Result → Outcome (Step W)
  lift c (runs (p, e)) = step (with_cpu c p) e
  lift c exits = exits
  lift c undefined = undefined

  -- `execInstr`. An opcode that it does not know ends the emulator, by the macro `ERROR`.
  unfoldable pub exec_instr : Core W → ℕ → Outcome (Step W)
  exec_instr c i =
      let op = opcode i in
      if op == 0x3
      then exec_load b c i
      else if op == 0x33
      then exec_r b c i
      else if op == 0x13
      then exec_i b c i
      else if op == 0x73
      then lift c (exec_system c.cpu i)
      else if op == 0x63
      then lift c (runs (exec_branch c.cpu i))
      else if op == 0x23
      then exec_store b c i
      else if op == 0x2f
      then exec_r b c i
      else if op == 0x17
      then step (with_cpu c (exec_auipc c.cpu i)) false
      else if op == 0x37
      then step (with_cpu c (exec_lui c.cpu i)) false
      else if op == 0x6f
      then step (with_cpu c (exec_jal c.cpu i)) false
      else if op == 0x67
      then step (with_cpu c (exec_jalr c.cpu i)) false
      else exits

  -- The current instruction, unless a fault of its fetch has nullified it.
  unfoldable pub execute : Core W → Outcome (Core W)
  execute c =
      let run = (do
        s ← exec_instr c c.cpu.curr_instr
        runs (if s.exc then with_cpu s.core (handle_exc s.core.cpu) else s.core)) in
      if c.cpu.skip_cycle then runs c else run

  abbrev pub nullified : Core W → Core W
  nullified c = with_cpu c (record (handle_exc c.cpu) { skip_cycle = true })

  -- The fetch at the end of a cycle; a failed one is nullified.
  unfoldable pub fetch : Core W → Outcome (Core W)
  fetch c =
      let m = map_virtual c.cpu c.cpu.curr_pc access_exec in
      let mapped = with_cpu c (record (m.cpu) { curr_phys_pc = m.paddr }) in
      let rest = (do
        f ← instr_read b mapped m.paddr
        let loaded = with_cpu f.core (record (f.core.cpu) { curr_instr = f.value })
        runs (if f.failed then nullified loaded else loaded)) in
      if m.failed then runs (nullified mapped) else rest

  -- `Cycle`.
  unfoldable pub cycle : Core W → Outcome (Core W)
  cycle c =
      let ticked = with_cpu c (tick_timer c.cpu) in
      let rest = (do
        d ← execute ticked
        let fetched = fetch (with_cpu d (take_interrupt (shift_pcs d.cpu)))
        (if is_idle d.cpu then runs d else fetched)) in
      if is_halted c.cpu then runs c else if is_idle ticked.cpu then runs ticked else rest

  -- `Reset`: a first fetch that fails is a panic.
  unfoldable pub reset : Core W → ℕ → ℕ → Outcome (Core W)
  reset c pc sp =
      let m = map_virtual (reset_registers c.cpu pc sp) pc access_exec in
      let mapped = with_cpu c (record (m.cpu) { curr_phys_pc = m.paddr }) in
      let rest = (do
        f ← instr_read b mapped m.paddr
        let p = record (f.core.cpu) {
          curr_instr = f.value;
          next_pc = add32 pc wordlen;
          succ_pc = add32 (add32 pc wordlen) wordlen;
        }
        (if f.failed then exits else runs (with_cpu f.core (set_status p running)))) in
      if m.failed then exits else rest
