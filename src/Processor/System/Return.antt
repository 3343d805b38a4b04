-- ===== src/Processor/System/Return.antt =====
-- MRET after the entry of a handler, and WFI.
use uriscv.Prelude.{
  ℕ, ◌^◌, ◌<◌, ◌≡◌, refl, false, Bool-cases, inl, inr, ◌∷◌, ◌==◌, if◌then◌else◌, arith, bit, bit_or,
  shl32, add32,
}
use uriscv.Outcome.{runs}
use uriscv.Processor.Constants.{mstatus, mepc, mip, wordlen}
use uriscv.Processor.State.{
  Processor, status_changed, running, idle, csr_read, assert_irq, set_status,
}
use uriscv.Processor.Trap.{pop_ku_ie_stack, push_ku_ie_stack, handle_exc, suspend}
use uriscv.Processor.Trap.Stack.{pop-push}
use uriscv.Processor.Trap.Interrupt.{csr-handle_exc}
use uriscv.Processor.System.{exec_mret, exec_wfi}

-- MRET after `handleExc` goes on at the instruction that was interrupted, in its mode, with
-- interrupts enabled as they were.
pub exec_mret-handle_exc :
    (p : Processor)
    → csr_read p mstatus < 2 ^ 32
    → p.mode < 4
    → (q : Processor) × (exec_mret (handle_exc p) ≡ runs (q, false))
      × (q.mode ≡ p.mode)
      × (q.next_pc ≡ p.curr_pc)
      × (bit (csr_read q mstatus) 3 ≡ bit (csr_read p mstatus) 3)
unfolding exec_mret pop_ku_ie_stack push_ku_ie_stack
exec_mret-handle_exc p hs hm =
    let (mode_back, enable_back) = pop-push p 3 hs hm (omega arith) in
    let saved = csr-handle_exc p mstatus in
    let q = pop_ku_ie_stack (handle_exc p) in
    (
      record q { next_pc = csr_read q mepc },
      refl,
      rw saved mode_back,
      csr-handle_exc p mepc,
      rw saved enable_back,
    )

-- A processor that waits for an interrupt runs again as soon as a line is raised, and one with a
-- pending line does not stop at all.
pub wfi-assert_irq :
    (p : Processor) (il : ℕ)
    → p.status ≡ running
    → (q : Processor) × (exec_wfi p ≡ runs (q, false))
      × (q.status ≡ (if csr_read p mip == 0 then idle else running))
      × (q.next_pc ≡ add32 p.curr_pc wordlen)
      × ((assert_irq q il).status ≡ running)
      × (csr_read (assert_irq q il) mip ≡ bit_or (csr_read p mip) (shl32 1 il))
unfolding exec_wfi suspend assert_irq set_status
wfi-assert_irq p il on = elim (Bool-cases (csr_read p mip == 0)) [
  | inl quiet ↦ (
    record p {
      next_pc = add32 p.curr_pc wordlen;
      status = idle;
      signals = status_changed idle ∷ p.signals;
    },
    rw (quiet, on, exec_wfi) refl,
    rw quiet refl,
    refl,
    refl,
    refl,
  )
  | inr waiting ↦ (
    record p { next_pc = add32 p.curr_pc wordlen },
    rw (waiting, exec_wfi) refl,
    rw (waiting, on) refl,
    refl,
    rw (on, assert_irq) refl,
    rw (on, assert_irq) refl,
  )
]
