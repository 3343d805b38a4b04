-- ===== src/Processor/Translate.antt =====
-- `mapVirtual` and `setTLBRegs`: from virtual to physical addresses.
pub mod Laws
use uriscv.Prelude.{
  ℕ, ◌^◌, Bool, true, false, not, ◌&&◌, ◌||◌, List, [], ◌∷◌, Option, none, some, ltb, ◌==◌,
  if◌then◌else◌, get_elem?, bit_and, bit_or, max_word, shr32,
}
use uriscv.Processor.Constants.{
  access_read, access_write, kuseg_base, csr_entryhi, csr_badvaddr, exc_laf, exc_saf, exc_mod,
  exc_tlbl, exc_tlbs, exc_utlbl, exc_utlbs,
}
use uriscv.Processor.State.{
  Processor, TlbEntry, Signal, vm_access, csr_read, csr_write, emit, signal_exc,
}
use uriscv.Processor.Tlb.{vpn, asid, ph_addr, is_v, is_d, probe_tlb}

-- The processor, `*paddr`, and whether an exception was signalled.
pub record Mapped : Type 0 where
  pub cpu : Processor
  pub paddr : ℕ
  pub failed : Bool

-- `BADADDR`.
unfoldable pub bad_addr : ℕ → Bool
bad_addr w = not (bit_and w 3 == 0)

-- `InUserMode` and `InKernelMode`.
unfoldable pub in_user_mode : Processor → Bool
in_user_mode p = p.mode == 0x0

pub in_kernel_mode : Processor → Bool
in_kernel_mode p = p.mode == 0x3

-- `getASID`, and `ENTRYHI_GET_ASID` of the register.
pub get_asid : Processor → ℕ
get_asid p = shr32 (asid (csr_read p csr_entryhi)) 6

unfoldable pub set_tlb_regs : Processor → ℕ → Processor
set_tlb_regs p vaddr =
    let q = csr_write p csr_badvaddr vaddr in
    csr_write q csr_entryhi (bit_or (vpn vaddr) (asid (csr_read q csr_entryhi)))

-- An entry of the buffer, at an index that the probe found.
abbrev pub no_entry : TlbEntry
no_entry = record { hi = 0; lo = 0 }

abbrev pub entry_at : Processor → ℕ → TlbEntry
entry_at p i = elim (get_elem? p.tlb i) [ none ↦ no_entry | some e ↦ e ]

-- The ways to fail: the address, or the buffer.
unfoldable pub address_fault : Processor → ℕ → ℕ → Mapped
unfolding signal_exc
address_fault p vaddr acc = record {
  cpu =
      signal_exc (csr_write p csr_badvaddr vaddr) (if acc == access_write then exc_saf else exc_laf)
        0;
  paddr = max_word;
  failed = true;
}

unfoldable pub tlb_fault : Processor → ℕ → ℕ → Mapped
unfolding signal_exc set_tlb_regs
tlb_fault p vaddr exc = record {
  cpu = signal_exc (set_tlb_regs p vaddr) exc 0;
  paddr = max_word;
  failed = true;
}

-- The part after the bounds tests: the entry that matches, its V and D bits.
unfoldable pub map_by_tlb : Processor → ℕ → ℕ → Mapped
unfolding tlb_fault
map_by_tlb p vaddr acc = elim (probe_tlb p (csr_read p csr_entryhi) vaddr) [
  | none ↦ tlb_fault p vaddr (if acc == access_write then exc_utlbs else exc_utlbl)
  | some i ↦
      let e = entry_at p i in
      if is_v e
      then if not (acc == access_write) || is_d e
        then record { cpu = p; paddr = ph_addr vaddr e.lo; failed = false }
        else tlb_fault p vaddr exc_mod
      else tlb_fault p vaddr (if acc == access_write then exc_tlbs else exc_tlbl)
]

unfoldable pub map_virtual : Processor → ℕ → ℕ → Mapped
unfolding get_asid bad_addr in_user_mode address_fault map_by_tlb
map_virtual p0 vaddr acc =
    let p = emit p0 (vm_access (get_asid p0) vaddr acc) in
    if bad_addr vaddr || (in_user_mode p && ltb vaddr kuseg_base)
    then address_fault p vaddr acc
    else if ltb vaddr p.tlb_floor_address
    then record { cpu = p; paddr = vaddr; failed = false }
    else map_by_tlb p vaddr acc
