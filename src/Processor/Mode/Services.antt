-- ===== src/Processor/Mode/Services.antt =====
-- The environment calls, the services and the instructions on control registers.
use uriscv.Prelude.{
  ℕ, suc, ◌≡◌, refl, ◌∙◌, ap, Bool, not, ◌||◌, ltb, ◌==◌, Option-cases, inl, inr, arith, List, [],
  ◌∷◌, length, length-set, get_elem?, bit-le,
}
use uriscv.Outcome.{Outcome, runs}
use uriscv.Processor.Constants.{reg_a0, csr_index, mstatus}
use uriscv.Processor.State.{
  Processor, TlbEntry, csr_read, reg_read, reg_write, set_status, signal_exc, deassert_irq,
}
use uriscv.Processor.Tlb.{rnd_idx, write_entry, zap_tlb, zap_entries, zap_from}
use uriscv.Processor.Trap.{popped_status, pop_ku_ie_stack, suspend}
use uriscv.Processor.Trap.Stack.{mpp_field-bits}
use uriscv.Processor.Decode.{func3, i_imm}
use uriscv.Processor.System.{
  next_after, tlbp, tlbr, tlbwi, tlbwr, exec_ecall, exec_ebreak, exec_mret, exec_wfi, time_written,
  exec_csrrw, exec_csrrs, exec_csrrc, exec_csrrwi, exec_csrrsi, exec_csrrci, exec_env, exec_system,
}
use uriscv.Processor.Mode.{Kept, Always, Always-bind, Always-if}

length-zap_from : (i : ℕ) (es : List TlbEntry) → length (zap_from i es) ≡ length es
unfolding zap_from
length-zap_from i [] = refl
length-zap_from i (e ∷ es) = ap suc (length-zap_from (suc i) es)

length-zap_entries : (es : List TlbEntry) → length (zap_entries es) ≡ length es
unfolding zap_entries
length-zap_entries [] = refl
length-zap_entries (e ∷ es) = ap suc (length-zap_from 1 es)

module _ (n : ℕ) (p : Processor) (h : Kept n p) where
  abbrev pub ResultKept : Processor × Bool → Type 0
  ResultKept r = Kept n r.0

  write_entry-Kept : (i hi lo j : ℕ) → Always (Kept n) (write_entry p i hi lo j)
  unfolding write_entry
  write_entry-Kept i hi lo j = elim (Option-cases (get_elem? p.tlb i)) [
    | inl e ↦ rw (e, write_entry) tt
    | inr (t, e) ↦
        rw (e, write_entry)
          (record { two_digits = h.two_digits; entries = length-set p.tlb i _ ∙ h.entries })
  ]

  tlbr-Kept : Always (Kept n) (tlbr p)
  unfolding tlbr
  tlbr-Kept = elim (Option-cases (get_elem? p.tlb (rnd_idx (csr_read p csr_index)))) [
    | inl e ↦ rw (e, tlbr) tt
    | inr (t, e) ↦ rw (e, tlbr) h
  ]

  tlbp-Kept : Kept n (tlbp p)
  unfolding tlbp
  tlbp-Kept = ground arith

  mret-Kept : Always ResultKept (exec_mret p)
  unfolding exec_mret pop_ku_ie_stack
  mret-Kept = record {
    two_digits = omega (
      arith,
      mpp_field-bits (popped_status (csr_read p mstatus)),
      bit-le 11 (popped_status (csr_read p mstatus)),
      bit-le 12 (popped_status (csr_read p mstatus)),
    );
    entries = h.entries;
  }

  zap_tlb-Kept : Kept n (zap_tlb p)
  unfolding zap_tlb
  zap_tlb-Kept = record {
    two_digits = h.two_digits;
    entries = length-zap_entries p.tlb ∙ h.entries;
  }

  wfi-Kept : Always ResultKept (exec_wfi p)
  unfolding exec_wfi suspend set_status
  wfi-Kept = ground arith

  next_after-Kept : (m : Outcome Processor) → Always (Kept n) m → Always ResultKept (next_after m)
  unfolding next_after
  next_after-Kept m hm = Always-bind (Kept n) ResultKept m _ hm (λ q hq. hq)

  ebreak-Kept : Always ResultKept (exec_ebreak p)
  unfolding exec_ebreak signal_exc tlbwi tlbwr
  ebreak-Kept =
      let s = reg_read p reg_a0 in
      Always-if ResultKept (s == 2) _ _ tt (
        Always-if ResultKept (ltb s 4 || not (ltb s 0x80000000)) _ _ h (
          Always-if ResultKept (s == 6) _ _ (next_after-Kept (runs (tlbp p)) tlbp-Kept) (
            Always-if ResultKept (s == 7) _ _ (next_after-Kept (tlbr p) tlbr-Kept) (
              Always-if ResultKept (s == 5) _ _
                (next_after-Kept (tlbwi p) (write_entry-Kept _ _ _ _))
                (Always-if ResultKept (s == 4) _ _
                  (next_after-Kept (tlbwr p) (write_entry-Kept _ _ _ _))
                  (Always-if ResultKept (s == 8) _ _
                    (next_after-Kept (runs (zap_tlb p)) zap_tlb-Kept) h))))))

  csrrw-Kept : (imm d s : ℕ) → Kept n (exec_csrrw p imm d s)
  unfolding exec_csrrw reg_write time_written deassert_irq
  csrrw-Kept imm d s = ground arith

  csrrs-Kept : (imm d s : ℕ) → Kept n (exec_csrrs p imm d s)
  unfolding exec_csrrs reg_write time_written deassert_irq
  csrrs-Kept imm d s = ground arith

  csrrc-Kept : (imm d s : ℕ) → Kept n (exec_csrrc p imm d s)
  unfolding exec_csrrc reg_write time_written deassert_irq
  csrrc-Kept imm d s = ground arith

  csrrwi-Kept : (imm d s : ℕ) → Kept n (exec_csrrwi p imm d s)
  unfolding exec_csrrwi reg_write time_written deassert_irq
  csrrwi-Kept imm d s = ground arith

  csrrsi-Kept : (imm d s : ℕ) → Kept n (exec_csrrsi p imm d s)
  unfolding exec_csrrsi reg_write time_written deassert_irq
  csrrsi-Kept imm d s = ground arith

  csrrci-Kept : (imm d s : ℕ) → Kept n (exec_csrrci p imm d s)
  unfolding exec_csrrci reg_write time_written deassert_irq
  csrrci-Kept imm d s = ground arith

  env-Kept : (imm : ℕ) → Always ResultKept (exec_env p imm)
  unfolding exec_env exec_ecall signal_exc
  env-Kept imm = Always-if ResultKept (imm == 0x0) _ _ h (
      Always-if ResultKept (imm == 0x1) _ _ ebreak-Kept (
        Always-if ResultKept (imm == 0x302) _ _ mret-Kept
          (Always-if ResultKept (imm == 0x105) _ _ wfi-Kept tt)))

  pub exec_system-Kept : (i : ℕ) → Always ResultKept (exec_system p i)
  unfolding exec_system
  exec_system-Kept i =
      let f = func3 i in
      Always-if ResultKept (f == 0) _ _ (env-Kept (i_imm i)) (
        Always-if ResultKept (f == 1) _ _ (csrrw-Kept _ _ _) (
          Always-if ResultKept (f == 2) _ _ (csrrs-Kept _ _ _) (
            Always-if ResultKept (f == 3) _ _ (csrrc-Kept _ _ _) (
              Always-if ResultKept (f == 5) _ _ (csrrwi-Kept _ _ _) (
                Always-if ResultKept (f == 6) _ _ (csrrsi-Kept _ _ _)
                  (Always-if ResultKept (f == 7) _ _ (csrrci-Kept _ _ _) tt))))))
