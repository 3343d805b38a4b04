-- ===== src/Processor/Trap/Interrupt.antt =====
-- Which interrupt is taken, and the state that a handler starts in.
use native.Mathlib.Nat.{pow-suc}
use uriscv.Prelude.{
  ℕ, zero, suc, ◌+◌, ◌*◌, ◌/◌, ◌^◌, ◌≤◌, ◌<◌, ◌≡◌, ◌⊎◌, refl, ◌∙◌, ap, true, false, not, arith, ltb,
  ◌==◌, if◌then◌else◌, Bool-cases, inl, inr, bit, bit_and, bit_and-field, bit-div, bit-le, shr32,
}
use uriscv.Processor.Constants.{mstatus, mtvec, mepc, mcause}
use uriscv.Processor.State.{Processor, csr_read, signal_exc}
use uriscv.Processor.Trap.{
  highest_from, pending, check_for_int, handle_exc, cause_is_int, push_ku_ie_stack, pushed_status,
}
use uriscv.Processor.Trap.Stack.{bit-pushed_status}

-- The loop counts to the highest digit, given a round for each.
highest_from-lem :
    (fuel m l : ℕ)
    → 0 < m
    → m < 2 ^ suc fuel
    → (k : ℕ) × (highest_from fuel m l ≡ l + k) × (2 ^ k ≤ m) × (m < 2 ^ suc k)
unfolding highest_from
highest_from-lem zero m l pos small = (0, omega arith, omega arith, omega arith)
highest_from-lem (suc fuel) m l pos small = elim (Bool-cases (ltb 1 m)) [
  | inl more ↦
      let (k, e, lo, hi) =
        highest_from-lem fuel (m / 2) (suc l) (ground arith)
          (omega (arith, pow-suc 2 (suc fuel))) in
      (suc k, rw more (omega arith), omega (arith, pow-suc 2 k), omega (arith, pow-suc 2 (suc k)))
  | inr last ↦ (0, rw last (omega arith), omega arith, ground arith)
]

-- The interrupt enable of MSTATUS, as its test reads it.
mie_test : (s : ℕ) → not (bit_and s 0x8 == 0) ≡ (bit s 3 == 1)
mie_test s = ground (arith, bit_and-field 3 1 s, bit-div 3 s, bit-le 3 s)

fires :
    (p : Processor)
    → (bit (csr_read p mstatus) 3 == 1) ≡ true
    → (pending p == 0) ≡ false
    → check_for_int p ≡ (signal_exc p (2 ^ 31 + highest_from 32 (pending p) 0) 0, true)
unfolding check_for_int
fires p on some_pending = rw (mie_test (csr_read p mstatus), on, some_pending)

rests :
    (p : Processor)
    → (((bit (csr_read p mstatus) 3 == 1) ≡ false) ⊎ ((pending p == 0) ≡ true))
    → check_for_int p ≡ (p, false)
unfolding check_for_int
rests p (inl off) = rw (mie_test (csr_read p mstatus), off)
rests p (inr nothing) = rw nothing (ground arith)

-- An interrupt is taken exactly when MSTATUS enables interrupts and an enabled line is pending, and
-- then its cause is the highest such line with the interrupt mark; else nothing changes.
pub check_for_int_lem :
    (p : Processor)
    → pending p < 2 ^ 32
    → ((bit (csr_read p mstatus) 3 ≡ 1)
        × (k : ℕ) × (2 ^ k ≤ pending p)
        × (pending p < 2 ^ suc k)
        × (check_for_int p ≡ (signal_exc p (2 ^ 31 + k) 0, true)))
      ⊎ (((bit (csr_read p mstatus) 3 ≡ 0) ⊎ (pending p ≡ 0)) × (check_for_int p ≡ (p, false)))
check_for_int_lem p small = elim (Bool-cases (bit (csr_read p mstatus) 3 == 1)) [
  | inr off ↦ inr (inl (ground (arith, bit-le 3 (csr_read p mstatus))), rests p (inl off))
  | inl on ↦ elim (Bool-cases (pending p == 0)) [
    | inl none_pending ↦ inr (inr (ground arith), rests p (inr none_pending))
    | inr some_pending ↦
        let (k, e, lo, hi) = highest_from-lem 32 (pending p) 0 (ground arith) (omega arith) in
        inl (
          ground arith,
          k,
          lo,
          hi,
          fires p on some_pending ∙ ap (λ t. (signal_exc p (2 ^ 31 + t) 0, true)) (e ∙ omega arith),
        )
  ]
]

-- The registers of a handler's start.
pub csr-handle_exc :
    (p : Processor) (r : ℕ)
    → csr_read (handle_exc p) r ≡ (
        if r == mepc
        then p.curr_pc
        else if r == mcause
        then p.exc_cause
        else if r == mstatus
        then pushed_status (csr_read p mstatus) p.mode
        else csr_read p r)
unfolding handle_exc push_ku_ie_stack
csr-handle_exc p r = elim (Bool-cases (cause_is_int p.exc_cause)) [
  | inl int ↦ rw int refl
  | inr exc ↦ rw exc refl
]

pub mode-handle_exc : (p : Processor) → (handle_exc p).mode ≡ 3
unfolding handle_exc push_ku_ie_stack
mode-handle_exc p = elim (Bool-cases (cause_is_int p.exc_cause)) [
  | inl int ↦ rw int refl
  | inr exc ↦ rw exc refl
]

vector-handle_exc :
    (p : Processor)
    → (if cause_is_int p.exc_cause then (handle_exc p).curr_pc else (handle_exc p).next_pc)
      ≡ shr32 (csr_read p mtvec) 2
unfolding handle_exc
vector-handle_exc p = elim (Bool-cases (cause_is_int p.exc_cause)) [
  | inl int ↦ rw int refl
  | inr exc ↦ rw exc refl
]

-- How a handler starts.
pub record Entered (p q : Processor) : Type 0 where
  pub cause : csr_read q mcause ≡ p.exc_cause
  pub resume : csr_read q mepc ≡ p.curr_pc
  pub machine_mode : q.mode ≡ 3
  pub masked : bit (csr_read q mstatus) 3 ≡ 0
  pub enable_kept : bit (csr_read q mstatus) 7 ≡ bit (csr_read p mstatus) 3
  pub mode_kept : bit (csr_read q mstatus) 11 + 2 * bit (csr_read q mstatus) 12 ≡ p.mode
  pub vector :
      (if cause_is_int p.exc_cause then q.curr_pc else q.next_pc) ≡ shr32 (csr_read p mtvec) 2

-- On a word of MSTATUS and a mode below 4, `handleExc` saves the cause, the address of the current
-- instruction, the mode and the interrupt enable, enters machine mode, masks interrupts and heads
-- for the address MTVEC >> 2, at once for an interrupt and else by the next cycle.
pub handle_exc-Entered :
    (p : Processor) → csr_read p mstatus < 2 ^ 32 → p.mode < 4 → Entered p (handle_exc p)
handle_exc-Entered p hs hm =
    let digit = λ (k : ℕ) (h : k < 32).
      ap (λ t. bit t k) (csr-handle_exc p mstatus)
      ∙ bit-pushed_status (csr_read p mstatus) p.mode k hs hm h in
    record {
      cause = csr-handle_exc p mcause;
      resume = csr-handle_exc p mepc;
      machine_mode = mode-handle_exc p;
      masked = digit 3 (omega arith);
      enable_kept = digit 7 (omega arith);
      mode_kept = omega (arith, digit 11 (omega arith), digit 12 (omega arith));
      vector = vector-handle_exc p;
    }

-- On a word of MSTATUS and a mode below 4, `checkForInt` right after `handleExc` takes no interrupt.
pub check_for_int-handle_exc :
    (p : Processor)
    → csr_read p mstatus < 2 ^ 32
    → p.mode < 4
    → check_for_int (handle_exc p) ≡ (handle_exc p, false)
check_for_int-handle_exc p hs hm =
    rests (handle_exc p) (inl (rw (handle_exc-Entered p hs hm).masked refl))
