-- ===== src/Processor/Translate/Laws.antt =====
-- What `mapVirtual` lets through, and what it leaves behind where it does not.
use uriscv.Prelude.{
  ℕ, ◌+◌, ◌*◌, ◌/◌, ◌%◌, ◌^◌, ◌≤◌, ◌<◌, ◌≡◌, ◌≢◌, ◌⊎◌, refl, ◌∙◌, Bool, true, false, not, ◌&&◌,
  ◌||◌, some, ◌∷◌, arith, ltb, ltb→lt, ◌==◌, if◌then◌else◌, Bool-cases, inl, inr, bit_and-low,
  bit_and-field, bit_or-shifted, bit_or_comm, max_word,
}
use uriscv.Processor.Constants.{
  access_write, kuseg_base, csr_badvaddr, csr_entryhi, exc_laf, exc_saf, exc_mod, exc_tlbl,
  exc_tlbs, exc_utlbl, exc_utlbs,
}
use uriscv.Processor.State.{Processor, vm_access, exception, csr_read, emit, signal_exc}
use uriscv.Processor.Tlb.{ph_addr, is_v, is_d, probe_tlb}
use uriscv.Processor.Tlb.Probe.{LastMatch, NoMatch, probe_tlb_lem}
use uriscv.Processor.Translate.{
  Mapped, bad_addr, in_user_mode, get_asid, entry_at, address_fault, tlb_fault, map_by_tlb,
  map_virtual, set_tlb_regs,
}

-- The page of the entry and the offset of the address.
pub ph_addr-eq : (va pa : ℕ) → pa < 2 ^ 32 → ph_addr va pa ≡ va % 4096 + pa / 4096 * 4096
unfolding ph_addr
ph_addr-eq va pa h =
    rw
      (
        bit_and-low 12 va,
        bit_and-field 12 20 pa,
        bit_or_comm (va % 4096) (pa / 2 ^ 12 % 2 ^ 20 * 2 ^ 12),
      )
      (bit_or-shifted 12 (pa / 2 ^ 12 % 2 ^ 20) (va % 4096) (omega arith) ∙ omega arith)

bad_addr-eq : (w : ℕ) → bad_addr w ≡ not (w % 4 == 0)
unfolding bad_addr
bad_addr-eq w = ground (arith, bit_and-low 2 w)

-- The processor that has told its observers of the access.
abbrev pub told : Processor → ℕ → ℕ → Processor
told p va acc = emit p (vm_access (get_asid p) va acc)

-- What holds of a translation that succeeds: the address is aligned, not below KUSEG in user mode, and
-- either below the floor of the buffer, or mapped by the last entry that matches, which is
-- valid and, for a write, dirty.
pub record Translated (p : Processor) (va acc : ℕ) (m : Mapped) : Type 0 where
  pub unchanged : m.cpu ≡ told p va acc
  pub aligned : va % 4 ≡ 0
  pub user_space : p.mode ≡ 0 → kuseg_base ≤ va
  pub route :
      ((va < p.tlb_floor_address) × (m.paddr ≡ va))
      ⊎ ((p.tlb_floor_address ≤ va)
          × (k : ℕ) × LastMatch (csr_read p csr_entryhi) va p.tlb k
          × (is_v (entry_at p k) ≡ true)
          × ((acc ≡ access_write) → is_d (entry_at p k) ≡ true)
          × (m.paddr ≡ ph_addr va (entry_at p k).lo))

-- Why a translation fails, and the code that says so: a bad address; no entry; an entry that is not
-- valid; a write to one that is not dirty.
abbrev pub Reason : Processor → ℕ → ℕ → ℕ → Type 0
Reason p va acc exc =
    (((va % 4 ≢ 0) ⊎ ((p.mode ≡ 0) × (va < kuseg_base)))
      × (exc ≡ (if acc == access_write then exc_saf else exc_laf)))
    ⊎ ((p.tlb_floor_address ≤ va)
        × NoMatch (csr_read p csr_entryhi) va p.tlb
        × (exc ≡ (if acc == access_write then exc_utlbs else exc_utlbl)))
    ⊎ ((p.tlb_floor_address ≤ va)
        × (k : ℕ) × LastMatch (csr_read p csr_entryhi) va p.tlb k
        × (((is_v (entry_at p k) ≡ false)
              × (exc ≡ (if acc == access_write then exc_tlbs else exc_tlbl)))
            ⊎ ((is_d (entry_at p k) ≡ false) × (acc ≡ access_write) × (exc ≡ exc_mod))))

-- What a translation that fails leaves: a reason, the address in BADVADDR, the signal of its cause, and
-- the mode, the registers, the buffer and the address of the instruction as they were.
pub record Faulted (p : Processor) (va acc : ℕ) (m : Mapped) : Type 0 where
  pub reason : Reason p va acc m.cpu.exc_cause
  pub bad_address : csr_read m.cpu csr_badvaddr ≡ va
  pub signalled : m.cpu.signals ≡ exception m.cpu.exc_cause p.mode ∷ (told p va acc).signals
  pub same_mode : m.cpu.mode ≡ p.mode
  pub same_registers : m.cpu.gpr ≡ p.gpr
  pub same_buffer : m.cpu.tlb ≡ p.tlb
  pub same_pc : m.cpu.curr_pc ≡ p.curr_pc
  pub no_address : m.paddr ≡ max_word

-- The test of the address, before the buffer.
abbrev refused : Processor → ℕ → Bool
refused p va = bad_addr va || (in_user_mode p && ltb va kuseg_base)

refused_reason :
    (p : Processor) (va : ℕ)
    → refused p va ≡ true
    → (va % 4 ≢ 0) ⊎ ((p.mode ≡ 0) × (va < kuseg_base))
unfolding in_user_mode
refused_reason p va h = ground (arith, bad_addr-eq va)

module _ (p : Processor) (va acc : ℕ) where
  abbrev Outcomes : Mapped → Type 0
  Outcomes m =
      ((m.failed ≡ false) × Translated p va acc m) ⊎ ((m.failed ≡ true) × Faulted p va acc m)

  address_case : refused p va ≡ true → Outcomes (address_fault (told p va acc) va acc)
  unfolding address_fault signal_exc
  address_case h = inr (
    refl,
    record {
      reason = inl (refused_reason p va h, refl);
      bad_address = refl;
      signalled = refl;
      same_mode = refl;
      same_registers = refl;
      same_buffer = refl;
      same_pc = refl;
      no_address = refl;
    },
  )

  tlb_case : (exc : ℕ) → Reason p va acc exc → Outcomes (tlb_fault (told p va acc) va exc)
  unfolding tlb_fault signal_exc set_tlb_regs
  tlb_case exc why = inr (
    refl,
    record {
      reason = why;
      bad_address = refl;
      signalled = refl;
      same_mode = refl;
      same_registers = refl;
      same_buffer = refl;
      same_pc = refl;
      no_address = refl;
    },
  )

  success :
      (addr : ℕ)
      → refused p va ≡ false
      → (((va < p.tlb_floor_address) × (addr ≡ va))
          ⊎ ((p.tlb_floor_address ≤ va)
              × (k : ℕ) × LastMatch (csr_read p csr_entryhi) va p.tlb k
              × (is_v (entry_at p k) ≡ true)
              × ((acc ≡ access_write) → is_d (entry_at p k) ≡ true)
              × (addr ≡ ph_addr va (entry_at p k).lo)))
      → Outcomes (record { cpu = told p va acc; paddr = addr; failed = false })
  unfolding in_user_mode
  success addr h route = inl (
    refl,
    record {
      unchanged = refl;
      aligned = ground (arith, bad_addr-eq va);
      user_space = λ user. ground (arith, bad_addr-eq va);
      route = route;
    },
  )

  found_case :
      (k : ℕ)
      → refused p va ≡ false
      → p.tlb_floor_address ≤ va
      → LastMatch (csr_read p csr_entryhi) va p.tlb k
      → probe_tlb (told p va acc) (csr_read p csr_entryhi) va ≡ some k
      → Outcomes (map_by_tlb (told p va acc) va acc)
  unfolding map_by_tlb
  found_case k h floor last e = elim (Bool-cases (is_v (entry_at p k))) [
    | inl valid ↦ elim (Bool-cases (not (acc == access_write) || is_d (entry_at p k))) [
      | inl ok ↦
          rw (e, valid, ok, map_by_tlb)
            (success (ph_addr va (entry_at p k).lo) h
              (inr (floor, k, last, valid, (λ w. ground arith), refl)))
      | inr clean ↦
          rw (e, valid, clean, map_by_tlb)
            (tlb_case exc_mod (inr (inr (floor, k, last, inr (ground arith, ground arith, refl)))))
    ]
    | inr invalid ↦
        rw (e, invalid, map_by_tlb) (tlb_case _ (inr (inr (floor, k, last, inl (invalid, refl)))))
  ]

  buffer_case :
      refused p va ≡ false → p.tlb_floor_address ≤ va → Outcomes (map_by_tlb (told p va acc) va acc)
  unfolding map_by_tlb
  buffer_case h floor = elim (probe_tlb_lem (told p va acc) (csr_read p csr_entryhi) va) [
    | inl (miss, e) ↦ rw (e, map_by_tlb) (tlb_case _ (inr (inl (floor, miss, refl))))
    | inr (k, last, below, e) ↦ found_case k h floor last e
  ]

  -- Either a translation succeeds, under the conditions of `Translated`, or it faults, for a reason.
  pub map_virtual_lem : Outcomes (map_virtual p va acc)
  unfolding map_virtual
  map_virtual_lem = elim (Bool-cases (refused p va)) [
    | inl bad ↦ rw (bad, map_virtual) (address_case bad)
    | inr fine ↦ elim (Bool-cases (ltb va p.tlb_floor_address)) [
      | inl below ↦ rw (fine, below, map_virtual) (success va fine (inl (ltb→lt _ _ below, refl)))
      | inr above ↦ rw (fine, above, map_virtual) (buffer_case fine (ground arith))
    ]
  ]
