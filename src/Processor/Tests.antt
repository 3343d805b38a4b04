-- ===== src/Processor/Tests.antt =====
-- The laws of the processor on a concrete one, in user mode with one page mapped.
use uriscv.Prelude.{
  ℕ, suc, ◌+◌, ◌*◌, ◌^◌, ◌≤◌, ◌<◌, ◌≡◌, ◌⊎◌, ◌↔◌, refl, true, false, [], ◌∷◌, none, some, arith,
  bit, bit_or, length, shl32, if◌then◌else◌, ◌==◌, ltb,
}
use uriscv.Outcome.{Outcome, runs, undefined}
use uriscv.Processor.Constants.{
  mstatus, mip, time, mie, csr_entryhi, csr_entrylo, csr_index, csr_random, access_read,
  access_exec,
}
use uriscv.Processor.State.{
  Processor, running, idle, csr_read, timer_enabled, assert_irq, signal_exc,
}
use uriscv.Processor.Tlb.{probe_tlb, rnd_idx, random_reg_tick, random_top}
use uriscv.Processor.Tlb.Probe.{NoMatch, LastMatch, probe_tlb_lem}
use uriscv.Processor.Tlb.Index.{random_reg_tick_resets_csr_0}
use uriscv.Processor.Translate.{map_virtual}
use uriscv.Processor.Translate.Laws.{Translated, Faulted, map_virtual_lem}
use uriscv.Processor.Trap.{pending, check_for_int, handle_exc}
use uriscv.Processor.Trap.Interrupt.{
  Entered, check_for_int_lem, handle_exc-Entered, check_for_int-handle_exc,
}
use uriscv.Processor.Bytes.{z_ext_byte, merge_byte}
use uriscv.Processor.Bytes.Merge.{z_ext_byte-merge_byte}
use uriscv.Processor.Decode.{branch_imm, b_imm}
use uriscv.Processor.Decode.Immediates.Branches.{branch_imm_exact_iff}
use uriscv.Processor.Alu.{value, alu, alu_imm}
use uriscv.Processor.Alu.Division.{Quotient, signed_division_lem}
use uriscv.Processor.Alu.Shift.{sra-srl}
use uriscv.Processor.Access.{instr_read, BusOps, Core, with_cpu}
use uriscv.Processor.System.{tlbwi, exec_mret, exec_wfi}
use uriscv.Processor.System.Buffer.{Stored, entry_of, tlbwi_lem}
use uriscv.Processor.System.Return.{exec_mret-handle_exc, wfi-assert_irq}
use uriscv.Processor.Cycle.{reset, reset_registers, skip, idle_cycles, tick_timer, fetch, execute}
use uriscv.Processor.Cycle.Idle.{cycles, skip-cycles}
use uriscv.Processor.Cycle.Fault.{Nullified, fetch_fault_lem}
use uriscv.Processor.Mode.{Kept}
use uriscv.Processor.Mode.Reachable.{started, raised, Reachable-Kept}

abbrev user_csr : ℕ → ℕ
user_csr r =
    if r == mstatus
    then 0x88
    else if r == time
    then 3
    else if r == mie
    then 0x40
    else if r == csr_random
    then 256
    else if r == csr_entryhi
    then 0x80000000
    else if r == csr_entrylo
    then 0x20000700
    else 0

abbrev user : Processor
user = record {
  id = 0;
  tlb_floor_address = 0x80000000;
  skip_cycle = false;
  mode = 0;
  status = running;
  exc_cause = 8;
  cop_e_num = 0;
  gpr = λ r. r * 3;
  csr = user_csr;
  curr_instr = 0x13;
  prev_pc = 0;
  prev_phys_pc = 0;
  prev_instr = 0x13;
  curr_pc = 0x80000000;
  curr_phys_pc = 0x20000000;
  next_pc = 0x80000004;
  succ_pc = 0x80000008;
  tlb = record { hi = 0x80000000; lo = 0x20000700 } ∷ record { hi = 0; lo = 0 } ∷ [];
  signals = [];
}

-- A bus that reads 0 everywhere and takes every write.
abbrev zeros : BusOps (Unit {0})
zeros = record {
  bus_read = λ w a i. runs (record { value = 0; failed = false });
  bus_write = λ w a v i. runs (record { bus = w; irqs = []; failed = false });
}

abbrev core_of : Processor → Core (Unit {0})
core_of p = record { cpu = p; bus = tt; irqs = [] }

abbrev waiting : Processor
waiting = record user { status = idle }

-- A user program that has jumped below its space.
abbrev lost : Processor
lost = record user { curr_pc = 0x100 }

handle_exc-Entered_example : Entered user (handle_exc user)
handle_exc-Entered_example = handle_exc-Entered user (omega arith) (omega arith)

check_for_int-handle_exc_example : check_for_int (handle_exc user) ≡ (handle_exc user, false)
check_for_int-handle_exc_example = check_for_int-handle_exc user (omega arith) (omega arith)

-- Lines 6 and 2 pend.
abbrev signalled : Processor
signalled = record user {
  csr = λ r. if r == mip then 0x44 else if r == mie then 0xff else user_csr r;
}

signalled_small : pending signalled < 2 ^ 32
unfolding pending
signalled_small = omega arith

check_for_int_lem_example :
    ((bit (csr_read signalled mstatus) 3 ≡ 1)
      × (k : ℕ) × (2 ^ k ≤ pending signalled)
      × (pending signalled < 2 ^ suc k)
      × (check_for_int signalled ≡ (signal_exc signalled (2 ^ 31 + k) 0, true)))
    ⊎ (((bit (csr_read signalled mstatus) 3 ≡ 0) ⊎ (pending signalled ≡ 0))
        × (check_for_int signalled ≡ (signalled, false)))
check_for_int_lem_example = check_for_int_lem signalled signalled_small

map_virtual_lem_example :
    let m = map_virtual user 0x80000010 access_read in
    ((m.failed ≡ false) × Translated user 0x80000010 access_read m)
    ⊎ ((m.failed ≡ true) × Faulted user 0x80000010 access_read m)
map_virtual_lem_example = map_virtual_lem user 0x80000010 access_read

probe_tlb_lem_example :
    (NoMatch 0x80000000 0x80000010 user.tlb × (probe_tlb user 0x80000000 0x80000010 ≡ none))
    ⊎ ((k : ℕ) × LastMatch 0x80000000 0x80000010 user.tlb k
        × (k < length user.tlb)
        × (probe_tlb user 0x80000000 0x80000010 ≡ some k))
probe_tlb_lem_example = probe_tlb_lem user 0x80000000 0x80000010

random_reg_tick_resets_csr_0_example :
    (csr_read (random_reg_tick user) csr_random ≡ 0)
    × (csr_read (random_reg_tick user) 0 ≡ random_top user)
random_reg_tick_resets_csr_0_example = random_reg_tick_resets_csr_0 user (omega arith) (omega arith)

z_ext_byte-merge_byte_example : z_ext_byte (merge_byte 0x11223344 0xab 2) 2 ≡ 0xab
z_ext_byte-merge_byte_example =
    z_ext_byte-merge_byte 0x11223344 0xab 2 2 (omega arith) (omega arith)

branch_imm_exact_iff_example :
    ((k : ℕ)
      → k < 32
      → bit (branch_imm 0x000000e3) k
        ≡ (if ltb k 12 then bit (b_imm 0x000000e3) k else bit 0x000000e3 31))
    ↔ (bit 0x000000e3 7 ≡ bit 0x000000e3 31)
branch_imm_exact_iff_example = branch_imm_exact_iff 0x000000e3

signed_division_lem_example :
    (q r : ℕ) × (alu 5 1 0xfffffff9 2 ≡ value q)
    × (alu 6 1 0xfffffff9 2 ≡ value r)
    × Quotient 0xfffffff9 2 q r
signed_division_lem_example =
    signed_division_lem 0xfffffff9 2 (omega arith) (omega arith) (omega arith) (λ e f. omega arith)

sra-srl_example :
    (alu 5 0x20 0xfffffff9 1 ≡ alu 5 0x0 0xfffffff9 1)
    × (alu_imm 5 0x20 0xfffffff9 0 1 ≡ alu_imm 5 0x0 0xfffffff9 0 1)
sra-srl_example = sra-srl 0xfffffff9 1 0 1

tlbwi_lem_example :
    let i = rnd_idx (csr_read user csr_index) in
    ((i < length user.tlb)
      × (q : Processor) × (tlbwi user ≡ runs q)
      × Stored user i (entry_of (csr_read user csr_entryhi) (csr_read user csr_entrylo)) q)
    ⊎ ((length user.tlb ≤ i) × (tlbwi user ≡ undefined))
tlbwi_lem_example = tlbwi_lem user

exec_mret-handle_exc_example :
    (q : Processor) × (exec_mret (handle_exc user) ≡ runs (q, false))
    × (q.mode ≡ 0)
    × (q.next_pc ≡ 0x80000000)
    × (bit (csr_read q mstatus) 3 ≡ 1)
exec_mret-handle_exc_example = exec_mret-handle_exc user (omega arith) (omega arith)

wfi-assert_irq_example :
    (q : Processor) × (exec_wfi user ≡ runs (q, false))
    × (q.status ≡ idle)
    × (q.next_pc ≡ 0x80000004)
    × ((assert_irq q 7).status ≡ running)
    × (csr_read (assert_irq q 7) mip ≡ bit_or 0 (shl32 1 7))
wfi-assert_irq_example = wfi-assert_irq user 7 refl

waiting_enabled : timer_enabled waiting ≡ true
unfolding timer_enabled
waiting_enabled = refl

waiting_cycles : 2 ≤ idle_cycles waiting
unfolding idle_cycles timer_enabled
waiting_cycles = omega arith

skip-cycles_example :
    (q : Processor) × (skip waiting 2 ≡ runs q)
    × (cycles zeros 2 (core_of waiting) ≡ runs (with_cpu (core_of waiting) q))
    × ((2 ≡ idle_cycles waiting) → (tick_timer q).status ≡ running)
skip-cycles_example =
    skip-cycles zeros 2 (core_of waiting) refl waiting_enabled (omega arith) waiting_cycles

lost_faults : (map_virtual lost 0x100 access_exec).failed ≡ true
unfolding map_virtual
lost_faults = refl

fetch_fault_lem_example :
    (d : Core (Unit {0})) × (fetch zeros (core_of lost) ≡ runs d)
    × Nullified lost d.cpu
    × (d.bus ≡ tt)
    × (execute zeros d ≡ runs d)
fetch_fault_lem_example = fetch_fault_lem zeros (core_of lost) lost_faults

-- A processor without translation after a reset, and line 7 raised on it.
abbrev untranslated : Processor
untranslated = record user { tlb_floor_address = 0xffffffff }

after_reset : Outcome (Core (Unit {0})) → Core (Unit {0})
after_reset (runs d) = d
after_reset _ = core_of user

abbrev fresh : Core (Unit {0})
fresh = after_reset (reset zeros (core_of untranslated) 0x80000000 0)

fresh_started : reset zeros (core_of untranslated) 0x80000000 0 ≡ runs fresh
unfolding reset after_reset map_virtual reset_registers instr_read
fresh_started = refl

Reachable-Kept_example : Kept 2 (assert_irq fresh.cpu 7)
Reachable-Kept_example =
    Reachable-Kept zeros 2 (with_cpu fresh (assert_irq fresh.cpu 7))
      (raised fresh 7 (started (core_of untranslated) fresh 0x80000000 0 refl fresh_started))
