-- ===== src/Processor/Mode/Reachable.antt =====
-- The states that a processor can come to, between the machine's calls.
use uriscv.Prelude.{ℕ, ◌≡◌, arith, length}
use mathlib.Core.Path.{subst}
use uriscv.Outcome.{Outcome, runs}
use uriscv.Processor.Constants.{access_exec}
use uriscv.Processor.State.{Processor, set_status, assert_irq, deassert_irq}
use uriscv.Processor.Translate.{map_virtual}
use uriscv.Processor.Access.{BusOps, Core, with_cpu, instr_read}
use uriscv.Processor.Cycle.{cycle, skip, reset, reset_registers}
use uriscv.Processor.Mode.{Kept, Always, Always-bind, Always-if, map_virtual-Kept, instr_read-Kept}
use uriscv.Processor.Mode.Cycles.{CoreKept, cycle-Kept}

-- From a reset with a buffer of n entries, by cycles, skips and lines that others raise or lower.
pub data Reachable {W : Type 0} (b : BusOps W) (n : ℕ) : Core W → Type 0 where
  started :
      (c d : Core W) (pc sp : ℕ) → length c.cpu.tlb ≡ n → reset b c pc sp ≡ runs d → Reachable b n d
  cycled : (c d : Core W) → Reachable b n c → cycle b c ≡ runs d → Reachable b n d
  skipped :
      (c : Core W) (q : Processor) (k : ℕ)
      → Reachable b n c
      → skip c.cpu k ≡ runs q
      → Reachable b n (with_cpu c q)
  raised :
      (c : Core W) (il : ℕ) → Reachable b n c → Reachable b n (with_cpu c (assert_irq c.cpu il))
  lowered :
      (c : Core W) (il : ℕ) → Reachable b n c → Reachable b n (with_cpu c (deassert_irq c.cpu il))

result_of : {A : Type 0} (P : A → Type 0) (m : Outcome A) (a : A) → Always P m → m ≡ runs a → P a
result_of P m a h e = subst (Always P) e h

skip-Kept : (n : ℕ) (p : Processor) → Kept n p → (k : ℕ) → Always (Kept n) (skip p k)
unfolding skip
skip-Kept n p h k = ground arith

assert_irq-Kept : (n : ℕ) (p : Processor) → Kept n p → (il : ℕ) → Kept n (assert_irq p il)
unfolding assert_irq set_status
assert_irq-Kept n p h il = ground arith

deassert_irq-Kept : (n : ℕ) (p : Processor) → Kept n p → (il : ℕ) → Kept n (deassert_irq p il)
unfolding deassert_irq
deassert_irq-Kept n p h il = h

module _ {W : Type 0} (b : BusOps W) (n : ℕ) where
  reset-Kept :
      (c : Core W) (pc sp : ℕ) → length c.cpu.tlb ≡ n → Always (CoreKept b n) (reset b c pc sp)
  unfolding reset reset_registers set_status
  reset-Kept c pc sp size =
      let p = reset_registers c.cpu pc sp in
      let m = map_virtual p pc access_exec in
      let fresh : Kept n p = record { two_digits = omega arith; entries = size } in
      let hm = map_virtual-Kept n p fresh pc access_exec in
      let mapped = with_cpu c (record (m.cpu) { curr_phys_pc = m.paddr }) in
      Always-if (CoreKept b n) m.failed _ _ tt (
        Always-bind (λ f. Kept n f.core.cpu) (CoreKept b n) (instr_read b mapped m.paddr) _
          (instr_read-Kept b n mapped hm m.paddr)
          (λ f hf. Always-if (CoreKept b n) f.failed _ _ tt (ground arith)))

  -- In every state that a processor can come to after a reset, its mode has two digits and its
  -- translation buffer the size that it was built with.
  pub Reachable-Kept : (c : Core W) → Reachable b n c → Kept n c.cpu
  Reachable-Kept _ (started c d pc sp size e) =
      result_of (CoreKept b n) _ d (reset-Kept c pc sp size) e
  Reachable-Kept _ (cycled c d r e) =
      result_of (CoreKept b n) _ d (cycle-Kept b n c (Reachable-Kept c r)) e
  Reachable-Kept _ (skipped c q k r e) =
      result_of (Kept n) _ q (skip-Kept n c.cpu (Reachable-Kept c r) k) e
  Reachable-Kept _ (raised c il r) = assert_irq-Kept n c.cpu (Reachable-Kept c r) il
  Reachable-Kept _ (lowered c il r) = deassert_irq-Kept n c.cpu (Reachable-Kept c r) il
