-- ===== src/Processor/Tlb.antt =====
-- `TLBEntry`, `probeTLB`, `setTLB`, `zapTLB`, `randomRegTick`.
pub mod Probe
pub mod Index
use uriscv.Prelude.{
  ℕ, zero, suc, ◌+◌, ◌-◌, ◌*◌, ◌/◌, ◌%◌, ◌^◌, ◌<◌, Bool, true, false, ◌&&◌, ◌||◌, List, [], ◌∷◌,
  Option, none, some, ltb, ◌==◌, if◌then◌else◌, length, get_elem?, set, bit_and, bit_or, max_word,
  shr32, sub32,
}
use uriscv.Word.{bit_val}
use uriscv.Outcome.{Outcome, runs, exits, undefined}
use uriscv.Processor.Constants.{
  vpn_mask, asid_mask, entrylo_mask, offset_mask, csr_entryhi, csr_entrylo, csr_index, csr_random,
}
use uriscv.Processor.State.{Processor, TlbEntry, Signal, tlb_changed, csr_read, csr_write, emit}

-- The macros `VPN`, `ASID`, `PHADDR` and `RNDIDX`.
unfoldable pub vpn : ℕ → ℕ
vpn w = bit_and w vpn_mask

unfoldable pub asid : ℕ → ℕ
asid w = bit_and w asid_mask

unfoldable pub ph_addr : ℕ → ℕ → ℕ
ph_addr va pa = bit_or (bit_and va offset_mask) (bit_and pa vpn_mask)

unfoldable pub rnd_idx : ℕ → ℕ
rnd_idx w = shr32 (bit_and w 0x7fffffff) 8

-- `setHI` and `setLO` keep the zero fields.
unfoldable pub set_hi : TlbEntry → ℕ → TlbEntry
set_hi e v = record e { hi = bit_and v (bit_or vpn_mask asid_mask) }

unfoldable pub set_lo : TlbEntry → ℕ → TlbEntry
set_lo e v = record e { lo = bit_and v entrylo_mask }

-- `VPNMatch`, `ASIDMatch`, `IsG`, `IsV`, `IsD`.
unfoldable pub vpn_match : TlbEntry → ℕ → Bool
vpn_match e vaddr = vpn e.hi == vpn vaddr

unfoldable pub asid_match : TlbEntry → ℕ → Bool
asid_match e cpreg = asid e.hi == asid cpreg

pub is_g : TlbEntry → Bool
is_g e = bit_val e.lo 8

pub is_v : TlbEntry → Bool
is_v e = bit_val e.lo 9

pub is_d : TlbEntry → Bool
is_d e = bit_val e.lo 10

unfoldable pub entry_matches : ℕ → ℕ → TlbEntry → Bool
entry_matches asid_reg va e = vpn_match e va && (is_g e || asid_match e asid_reg)

-- The loop of `probeTLB`, which keeps the last entry that matches.
unfoldable pub probe_from : ℕ → ℕ → ℕ → List TlbEntry → Option ℕ → Option ℕ
probe_from asid_reg va i [] found = found
probe_from asid_reg va i (e ∷ es) found =
    probe_from asid_reg va (suc i) es (if entry_matches asid_reg va e then some i else found)

unfoldable pub probe_tlb : Processor → ℕ → ℕ → Option ℕ
unfolding probe_from
probe_tlb p asid_reg va = probe_from asid_reg va 0 p.tlb none

-- Both halves of one entry, as `setTLB` and the write instructions store them, and the signal that
-- names entry `j`. An index past the buffer is an access out of bounds.
unfoldable pub write_entry : Processor → ℕ → ℕ → ℕ → ℕ → Outcome Processor
unfolding set_hi set_lo
write_entry p i hi lo j = elim (get_elem? p.tlb i) [
  | none ↦ undefined
  | some e ↦ runs (emit (record p { tlb = set p.tlb i (set_lo (set_hi e hi) lo) }) (tlb_changed j))
]

-- `setTLB` checks the index, and panics past the end.
pub set_tlb : Processor → ℕ → ℕ → ℕ → Outcome Processor
unfolding write_entry
set_tlb p i hi lo = if ltb i (length p.tlb) then write_entry p i hi lo i else exits

-- The loop of `zapTLB` from entry `i`.
unfoldable pub zap_from : ℕ → List TlbEntry → List TlbEntry
unfolding set_hi set_lo
zap_from i [] = []
zap_from i (e ∷ es) = set_lo (set_hi e 0) 0 ∷ zap_from (suc i) es

zap_signals : ℕ → List TlbEntry → List Signal → List Signal
zap_signals i [] log = log
zap_signals i (e ∷ es) log = zap_signals (suc i) es (tlb_changed i ∷ log)

unfoldable pub zap_entries : List TlbEntry → List TlbEntry
unfolding zap_from
zap_entries [] = []
zap_entries (e ∷ es) = e ∷ zap_from 1 es

zap_log : List TlbEntry → List Signal → List Signal
unfolding zap_signals
zap_log [] log = log
zap_log (e ∷ es) log = zap_signals 1 es log

-- `zapTLB` leaves out the first entry.
unfoldable pub zap_tlb : Processor → Processor
unfolding zap_entries zap_log
zap_tlb p = record p { tlb = zap_entries p.tlb; signals = zap_log p.tlb p.signals }

-- `(tlbSize - 1UL) << RNDIDXOFFS`.
unfoldable pub random_top : Processor → ℕ
random_top p = (length p.tlb - 1) * 256

-- `randomRegTick`. The second write is to the register whose number RANDOM holds, as in the source.
unfoldable pub random_reg_tick : Processor → Processor
unfolding random_top
random_reg_tick p =
    let q = csr_write p csr_random (bit_and (sub32 (csr_read p csr_random) 256) (random_top p)) in
    if ltb (csr_read q csr_random) 256
    then csr_write q (csr_read q csr_random) (random_top p)
    else q
