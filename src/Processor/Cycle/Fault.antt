-- ===== src/Processor/Cycle/Fault.antt =====
-- A fetch that translation refuses, and the cycle after it.
use uriscv.Prelude.{◌≡◌, refl, ◌∙◌, true, inl, inr}
use uriscv.Outcome.{runs}
use uriscv.Processor.Constants.{access_exec, csr_badvaddr, mepc, mcause}
use uriscv.Processor.State.{Processor, csr_read}
use uriscv.Processor.Trap.Interrupt.{csr-handle_exc, mode-handle_exc}
use uriscv.Processor.Translate.{map_virtual}
use uriscv.Processor.Translate.Laws.{Faulted, Reason, map_virtual_lem}
use uriscv.Processor.Access.{BusOps, Core, with_cpu}
use uriscv.Processor.Cycle.{execute, fetch, nullified}

-- What a nullified fetch leaves: the handler is entered for a reason of the translation, with the
-- address of the instruction in MEPC and in BADVADDR.
pub record Nullified (p q : Processor) : Type 0 where
  pub reason : Reason p p.curr_pc access_exec (csr_read q mcause)
  pub resume : csr_read q mepc ≡ p.curr_pc
  pub bad_address : csr_read q csr_badvaddr ≡ p.curr_pc
  pub machine_mode : q.mode ≡ 3
  pub skips : q.skip_cycle ≡ true

module _ {W : Type 0} (b : BusOps W) (c : Core W) where
  faulted :
      (map_virtual c.cpu c.cpu.curr_pc access_exec).failed ≡ true
      → Faulted c.cpu c.cpu.curr_pc access_exec (map_virtual c.cpu c.cpu.curr_pc access_exec)
  faulted h = elim (map_virtual_lem c.cpu c.cpu.curr_pc access_exec) [
    | inl (fine, t) ↦ cc
    | inr (bad, f) ↦ f
  ]

  -- A fetch that translation refuses reads no memory: it enters the handler, and the instruction that
  -- it leaves in place is not executed by the next cycle.
  pub fetch_fault_lem :
      (map_virtual c.cpu c.cpu.curr_pc access_exec).failed ≡ true
      → (d : Core W) × (fetch b c ≡ runs d)
        × Nullified c.cpu d.cpu
        × (d.bus ≡ c.bus)
        × (execute b d ≡ runs d)
  unfolding fetch execute
  fetch_fault_lem h =
      let f = faulted h in
      let m = map_virtual c.cpu c.cpu.curr_pc access_exec in
      let p = record (m.cpu) { curr_phys_pc = m.paddr } in
      (
        nullified b (with_cpu c p),
        rw h refl,
        record {
          reason = rw (csr-handle_exc p mcause) (f.reason);
          resume = csr-handle_exc p mepc ∙ f.same_pc;
          bad_address = csr-handle_exc p csr_badvaddr ∙ f.bad_address;
          machine_mode = mode-handle_exc p;
          skips = refl;
        },
        refl,
        refl,
      )
