-- ===== src/Processor/State.antt =====
-- The fields of `Processor`, its registers, status and signals. A general purpose register is kept
-- as a bit pattern. The permissions that `initCSR` sets are left out, as nothing reads them.
use uriscv.Prelude.{
  ℕ, Bool, true, false, List, ◌∷◌, ◌==◌, if◌then◌else◌, update, bit_and, bit_or, not32, shl32,
  add32, not,
}
use uriscv.Processor.Constants.{mip, mie, mie_mtie_mask, wordlen}

pub data Status : Type 0 where
  halted running idle : Status

-- What observers are told: the emulated machine's stop conditions and the windows hang on these.
pub data Signal : Type 0 where
  status_changed : Status → Signal
  exception : ℕ → ℕ → Signal
  tlb_changed : ℕ → Signal
  vm_access : ℕ → ℕ → ℕ → Signal
  bus_access : ℕ → ℕ → Signal

-- An entry of the translation buffer.
pub record TlbEntry : Type 0 where
  pub hi : ℕ
  pub lo : ℕ

pub record Processor : Type 0 where
  pub id : ℕ
  pub tlb_floor_address : ℕ
  pub skip_cycle : Bool
  pub mode : ℕ
  pub status : Status
  pub exc_cause : ℕ
  pub cop_e_num : ℕ
  pub gpr : ℕ → ℕ
  pub csr : ℕ → ℕ
  pub curr_instr : ℕ
  pub prev_pc : ℕ
  pub prev_phys_pc : ℕ
  pub prev_instr : ℕ
  pub curr_pc : ℕ
  pub curr_phys_pc : ℕ
  pub next_pc : ℕ
  pub succ_pc : ℕ
  pub tlb : List TlbEntry
  -- What the signals told, the latest first.
  pub signals : List Signal

-- `regRead` and `regWrite`: register 0 reads as 0 and ignores writes.
unfoldable pub reg_read : Processor → ℕ → ℕ
reg_read p r = if r == 0 then 0 else p.gpr r

unfoldable pub reg_write : Processor → ℕ → ℕ → Processor
reg_write p r v = if r == 0 then p else record p { gpr = update p.gpr r v }

-- `csrRead` and `csrWrite`.
abbrev pub csr_read : Processor → ℕ → ℕ
csr_read p r = p.csr r

abbrev pub csr_write : Processor → ℕ → ℕ → Processor
csr_write p r v = record p { csr = update p.csr r v }

abbrev pub status_eq : Status → Status → Bool
status_eq halted halted = true
status_eq running running = true
status_eq idle idle = true
status_eq _ _ = false

-- `isHalted` and `isIdle`.
abbrev pub is_halted : Processor → Bool
is_halted p = status_eq p.status halted

abbrev pub is_idle : Processor → Bool
is_idle p = status_eq p.status idle

abbrev pub emit : Processor → Signal → Processor
emit p s = record p { signals = s ∷ p.signals }

-- `setStatus`.
unfoldable pub set_status : Processor → Status → Processor
set_status p s =
    if status_eq p.status s
    then p
    else record p { status = s; signals = status_changed s ∷ p.signals }

-- `SignalExc`. Its observer reads the mode of the processor, so the signal carries it.
unfoldable pub signal_exc : Processor → ℕ → ℕ → Processor
signal_exc p exc cpu_num = record p {
  exc_cause = exc;
  cop_e_num = cpu_num;
  signals = exception exc p.mode ∷ p.signals;
}

-- `setNextPC(getPC() + WORDLEN)`.
abbrev pub advance : Processor → Processor
advance p = record p { next_pc = add32 p.curr_pc wordlen }

-- `AssertIRQ` and `DeassertIRQ`.
unfoldable pub assert_irq : Processor → ℕ → Processor
unfolding set_status
assert_irq p il =
    let p' = csr_write p mip (bit_or (csr_read p mip) (shl32 1 il)) in
    if is_idle p' then set_status p' running else p'

unfoldable pub deassert_irq : Processor → ℕ → Processor
deassert_irq p il = csr_write p mip (bit_and (csr_read p mip) (not32 (shl32 1 il)))

-- `Halt`.
pub halt : Processor → Processor
unfolding set_status
halt p = set_status p halted

-- `(csrRead(MIE) & MIE_MTIE_MASK)`, as a test.
unfoldable pub timer_enabled : Processor → Bool
timer_enabled p = not (bit_and (csr_read p mie) mie_mtie_mask == 0)
