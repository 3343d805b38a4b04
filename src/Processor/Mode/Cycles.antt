-- ===== src/Processor/Mode/Cycles.antt =====
-- A cycle, over all instructions.
use uriscv.Prelude.{ℕ, Bool, ◌==◌, Bool-cases, inl, inr, arith}
use uriscv.Outcome.{Outcome, runs, exits, undefined}
use uriscv.Processor.Constants.{access_exec}
use uriscv.Processor.State.{
  Processor, signal_exc, set_status, assert_irq, deassert_irq, is_halted, is_idle,
}
use uriscv.Processor.Tlb.{random_reg_tick}
use uriscv.Processor.Translate.{map_virtual}
use uriscv.Processor.Trap.{check_for_int, handle_exc, push_ku_ie_stack, cause_is_int}
use uriscv.Processor.Decode.{opcode}
use uriscv.Processor.Access.{BusOps, Core, with_cpu, instr_read}
use uriscv.Processor.System.{exec_system}
use uriscv.Processor.Cycle.{
  tick_timer, shift_pcs, take_interrupt, exec_instr, lift, execute, fetch, cycle,
}
use uriscv.Processor.Mode.{Kept, Always, Always-bind, Always-if, map_virtual-Kept, instr_read-Kept}
use uriscv.Processor.Mode.Execution.{
  StepKept, exec_r-Kept, exec_i-Kept, exec_load-Kept, exec_store-Kept, exec_branch-Kept,
  exec_auipc-Kept, exec_lui-Kept, exec_jal-Kept, exec_jalr-Kept,
}
use uriscv.Processor.Mode.Services.{exec_system-Kept}

module _ (n : ℕ) (p : Processor) (h : Kept n p) where
  tick_timer-Kept : Kept n (tick_timer p)
  unfolding tick_timer assert_irq deassert_irq set_status
  tick_timer-Kept = ground arith

  shift_pcs-Kept : Kept n (shift_pcs p)
  unfolding shift_pcs random_reg_tick
  shift_pcs-Kept = ground arith

  handle_exc-Kept : Kept n (handle_exc p)
  unfolding handle_exc push_ku_ie_stack
  handle_exc-Kept = elim (Bool-cases (cause_is_int p.exc_cause)) [
    | inl e ↦ rw (e, handle_exc) (record { two_digits = omega arith; entries = h.entries })
    | inr e ↦ rw (e, handle_exc) (record { two_digits = omega arith; entries = h.entries })
  ]

  check_for_int-Kept : Kept n (check_for_int p).0
  unfolding check_for_int signal_exc
  check_for_int-Kept = ground arith

take_interrupt-Kept : (n : ℕ) (p : Processor) → Kept n p → Kept n (take_interrupt p)
unfolding take_interrupt
take_interrupt-Kept n p h = ground (
  arith,
  check_for_int-Kept n p h,
  handle_exc-Kept n (check_for_int p).0 (check_for_int-Kept n p h),
)

module _ {W : Type 0} (b : BusOps W) (n : ℕ) where
  abbrev pub CoreKept : Core W → Type 0
  CoreKept c = Kept n c.cpu

  lift-Kept :
      (c : Core W) (m : Outcome (Processor × Bool))
      → Always (λ r. Kept n r.0) m
      → Always (StepKept b n) (lift b c m)
  lift-Kept c (runs r) h = h
  lift-Kept c exits h = tt
  lift-Kept c undefined h = tt

  exec_instr-Kept : (c : Core W) → CoreKept c → (i : ℕ) → Always (StepKept b n) (exec_instr b c i)
  unfolding exec_instr
  exec_instr-Kept c h i =
      let P = StepKept b n in
      let op = opcode i in
      let q = c.cpu in
      Always-if P (op == 0x3) _ _ (exec_load-Kept b n c h i) (
        Always-if P (op == 0x33) _ _ (exec_r-Kept b n c h i) (
          Always-if P (op == 0x13) _ _ (exec_i-Kept b n c h i) (
            Always-if P (op == 0x73) _ _ (lift-Kept c (exec_system q i) (exec_system-Kept n q h i))
              (Always-if P (op == 0x63) _ _ (exec_branch-Kept n q h i) (
                Always-if P (op == 0x23) _ _ (exec_store-Kept b n c h i) (
                  Always-if P (op == 0x2f) _ _ (exec_r-Kept b n c h i) (
                    Always-if P (op == 0x17) _ _ (exec_auipc-Kept n q h i) (
                      Always-if P (op == 0x37) _ _ (exec_lui-Kept n q h i) (
                        Always-if P (op == 0x6f) _ _ (exec_jal-Kept n q h i)
                          (Always-if P (op == 0x67) _ _ (exec_jalr-Kept n q h i) tt))))))))))

  execute-Kept : (c : Core W) → CoreKept c → Always CoreKept (execute b c)
  unfolding execute
  execute-Kept c h = Always-if CoreKept c.cpu.skip_cycle _ _ h (
      Always-bind (StepKept b n) CoreKept (exec_instr b c c.cpu.curr_instr) _
        (exec_instr-Kept c h c.cpu.curr_instr)
        (λ s hs. ground (arith, handle_exc-Kept n s.core.cpu hs)))

  fetch-Kept : (c : Core W) → CoreKept c → Always CoreKept (fetch b c)
  unfolding fetch
  fetch-Kept c h =
      let m = map_virtual c.cpu c.cpu.curr_pc access_exec in
      let hm = map_virtual-Kept n c.cpu h c.cpu.curr_pc access_exec in
      let mapped = with_cpu c (record (m.cpu) { curr_phys_pc = m.paddr }) in
      Always-if CoreKept m.failed _ _ (handle_exc-Kept n mapped.cpu hm) (
        Always-bind (λ f. Kept n f.core.cpu) CoreKept (instr_read b mapped m.paddr) _
          (instr_read-Kept b n mapped hm m.paddr)
          (λ f hf.
            ground (arith, handle_exc-Kept n (record (f.core.cpu) { curr_instr = f.value }) hf)))

  -- Every cycle, whatever the instruction and the bus, leaves a mode of two digits and a translation
  -- buffer of the same size, if it started with such.
  pub cycle-Kept : (c : Core W) → CoreKept c → Always CoreKept (cycle b c)
  unfolding cycle
  cycle-Kept c h =
      let ticked = with_cpu c (tick_timer c.cpu) in
      let ht = tick_timer-Kept n c.cpu h in
      Always-if CoreKept (is_halted c.cpu) _ _ h (
        Always-if CoreKept (is_idle ticked.cpu) _ _ ht (
          Always-bind CoreKept CoreKept (execute b ticked) _ (execute-Kept ticked ht) (λ d hd.
            Always-if CoreKept (is_idle d.cpu) _ _ hd (
              fetch-Kept _ (take_interrupt-Kept n (shift_pcs d.cpu) (shift_pcs-Kept n d.cpu hd))))))
