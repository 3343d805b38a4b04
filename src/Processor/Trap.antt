-- ===== src/Processor/Trap.antt =====
-- Exceptions and interrupts: the stack of modes in MSTATUS, `handleExc`, `checkForInt`, `suspend`.
pub mod Stack
pub mod Interrupt
use uriscv.Prelude.{
  ℕ, zero, suc, ◌+◌, ◌*◌, ◌/◌, ◌%◌, ◌^◌, Bool, true, false, ◌&&◌, not, ltb, ◌==◌, if◌then◌else◌,
  bit_and, bit_or, not32, shl32, shr32, add32,
}
use uriscv.Word.{set_bit, reset_bit, bit_val}
use uriscv.Processor.Constants.{
  mstatus, mie, mip, mtvec, mepc, mcause, mstatus_mie_mask, mstatus_mpp_mask, mstatus_mpie_bit,
  mstatus_mie_bit, mstatus_mprv_bit, mstatus_mpp_bit, wordlen,
}
use uriscv.Processor.State.{Processor, csr_read, csr_write, set_status, signal_exc, idle}

-- Bit `to` set or reset as bit `from` is.
unfoldable pub copy_bit : ℕ → ℕ → ℕ → ℕ
copy_bit s from to = if bit_val s from then set_bit s to else reset_bit s to

-- The word that `pushKUIEStack` leaves in MSTATUS: MIE moves to MPIE, the mode to MPP.
unfoldable pub pushed_status : ℕ → ℕ → ℕ
pushed_status s mode =
    let s1 = copy_bit s mstatus_mie_bit mstatus_mpie_bit in
    let s2 = reset_bit s1 mstatus_mie_bit in
    bit_or (bit_and s2 (not32 mstatus_mpp_mask)) (shl32 mode mstatus_mpp_bit)

-- `pushKUIEStack`.
unfoldable pub push_ku_ie_stack : Processor → Processor
push_ku_ie_stack p = record (csr_write p mstatus (pushed_status (csr_read p mstatus) p.mode)) {
  mode = 0x3;
}

-- The field MPP.
unfoldable pub mpp_field : ℕ → ℕ
mpp_field s = shr32 (bit_and s mstatus_mpp_mask) mstatus_mpp_bit

-- The word before `popKUIEStack` clears MPP: MIE comes from MPIE, and MPRV goes unless MPP is 0.
unfoldable pub popped_status : ℕ → ℕ
popped_status s =
    let s1 = copy_bit s mstatus_mpie_bit mstatus_mie_bit in
    let s2 = reset_bit s1 mstatus_mpie_bit in
    if mpp_field s2 == 0 then s2 else reset_bit s2 mstatus_mprv_bit

-- `popKUIEStack`.
unfoldable pub pop_ku_ie_stack : Processor → Processor
pop_ku_ie_stack p =
    let s = popped_status (csr_read p mstatus) in
    record (csr_write p mstatus (bit_or (bit_and s (not32 mstatus_mpp_mask)) 0)) {
      mode = mpp_field s;
    }

-- The loop `while (mip > 1)`, with fuel.
unfoldable pub highest_from : ℕ → ℕ → ℕ → ℕ
highest_from zero m l = l
highest_from (suc fuel) m l =
    let rest = highest_from fuel (m / 2) (suc l) in if ltb 1 m then rest else l

-- The lines that are enabled and pending.
unfoldable pub pending : Processor → ℕ
pending p = bit_and (csr_read p mie) (csr_read p mip)

-- `checkForInt`: the processor and whether an interrupt is taken. 32 rounds take a word to 1.
unfoldable pub check_for_int : Processor → Processor × Bool
check_for_int p =
    if not (bit_and (csr_read p mstatus) mstatus_mie_mask == 0) && not (pending p == 0)
    then (signal_exc p (2 ^ 31 + highest_from 32 (pending p) 0) 0, true)
    else (p, false)

-- `suspend`.
unfoldable pub suspend : Processor → Processor
suspend p = if csr_read p mip == 0 then set_status p idle else p

-- `CAUSE_IS_INT`.
unfoldable pub cause_is_int : ℕ → Bool
cause_is_int cause = not (bit_and cause 0x80000000 == 0)

-- `handleExc`.
unfoldable pub handle_exc : Processor → Processor
unfolding push_ku_ie_stack
handle_exc p =
    let vector = shr32 (csr_read p mtvec) 2 in
    let q = csr_write (csr_write (push_ku_ie_stack p) mcause p.exc_cause) mepc p.curr_pc in
    if cause_is_int p.exc_cause
    then record q {
      curr_pc = vector;
      next_pc = add32 vector wordlen;
      succ_pc = add32 (add32 vector wordlen) wordlen;
    }
    else record q { next_pc = vector; succ_pc = add32 vector wordlen }
