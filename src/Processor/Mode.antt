-- ===== src/Processor/Mode.antt =====
-- The mode and the size of the translation buffer, through every routine of the processor.
pub mod Execution
pub mod Services
pub mod Cycles
pub mod Reachable
use uriscv.Prelude.{
  ℕ, zero, suc, ◌+◌, ◌*◌, ◌^◌, ◌≤◌, ◌<◌, ◌≡◌, ◌⊎◌, refl, sym, ◌∙◌, ap, Bool, true, false, not, ◌&&◌,
  ◌||◌, ltb, ◌==◌, if◌then◌else◌, Bool-cases, inl, inr, arith, List, [], ◌∷◌, Option, none, some,
  length, length-set, bit, bit-le,
}
use uriscv.Outcome.{Outcome, runs, exits, undefined, ◌>>=◌}
use uriscv.Processor.State.{
  Processor, TlbEntry, Status, reg_write, set_status, signal_exc, assert_irq, deassert_irq,
  bus_access, emit, advance,
}
use uriscv.Processor.Constants.{access_write}
use uriscv.Processor.Translate.{Mapped, map_virtual}
use uriscv.Processor.Translate.Laws.{Translated, Faulted, map_virtual_lem}
use uriscv.Processor.Access.{
  BusOps, Core, Step, Fetched, Irq, raise, lower, with_cpu, data_read, data_write, instr_read,
  apply_irqs,
}

-- The mode is one of two digits, and the buffer has n entries.
pub record Sizes (n mode : ℕ) (tlb : List TlbEntry) : Type 0 where
  pub two_digits : mode < 4
  pub entries : length tlb ≡ n

abbrev pub Kept : ℕ → Processor → Type 0
Kept n p = Sizes n p.mode p.tlb

-- What holds of every state that an outcome has.
abbrev pub Always {ℓ κ} : {A : Type ℓ} → (A → Type κ) → Outcome A → Type κ
Always P (runs a) = P a
Always P exits = Unit
Always P undefined = Unit

module _ {A B : Type 0} where
  pub Always-bind :
      (P : A → Type 0) (Q : B → Type 0) (m : Outcome A) (f : A → Outcome B)
      → Always P m
      → ((a : A) → P a → Always Q (f a))
      → Always Q (m >>= f)
  Always-bind P Q (runs a) f h k = k a h
  Always-bind P Q exits f h k = tt
  Always-bind P Q undefined f h k = tt

  pub Always-any :
      (Q : B → Type 0) (m : Outcome A) (f : A → Outcome B)
      → ((a : A) → Always Q (f a))
      → Always Q (m >>= f)
  Always-any Q (runs a) f k = k a
  Always-any Q exits f k = tt
  Always-any Q undefined f k = tt

pub Always-if {ℓ} :
    {A : Type ℓ} (P : A → Type 0) (t : Bool) (x y : Outcome A)
    → Always P x
    → Always P y
    → Always P (if t then x else y)
Always-if P true x y hx hy = hx
Always-if P false x y hx hy = hy

module _ (n : ℕ) (p : Processor) (h : Kept n p) where
  pub signal_exc-Kept : (e c : ℕ) → Kept n (signal_exc p e c)
  unfolding signal_exc
  signal_exc-Kept e c = h

  pub reg_write-Kept : (r v : ℕ) → Kept n (reg_write p r v)
  unfolding reg_write
  reg_write-Kept r v = ground arith

  pub set_status-Kept : (s : Status) → Kept n (set_status p s)
  unfolding set_status
  set_status-Kept s = ground arith

  pub map_virtual-Kept : (va acc : ℕ) → Kept n (map_virtual p va acc).cpu
  map_virtual-Kept va acc = elim (map_virtual_lem p va acc) [
    | inl (ok, t) ↦ ground (arith, t.unchanged)
    | inr (bad, f) ↦ ground (arith, f.same_mode, f.same_buffer)
  ]

assert_irq-Kept :
    (n : ℕ) (p : Processor)
    → Kept n p
    → (t il : ℕ) → Kept n (if t == p.id then assert_irq p il else p)
unfolding assert_irq set_status
assert_irq-Kept n p h t il = ground arith

pub apply_irqs-Kept : (n : ℕ) (is : List Irq) (p : Processor) → Kept n p → Kept n (apply_irqs p is)
unfolding apply_irqs assert_irq deassert_irq set_status
apply_irqs-Kept n [] p h = h
apply_irqs-Kept n (raise il t ∷ is) p h =
    apply_irqs-Kept n is (if t == p.id then assert_irq p il else p) (assert_irq-Kept n p h t il)
apply_irqs-Kept n (lower il t ∷ is) p h =
    apply_irqs-Kept n is (if t == p.id then deassert_irq p il else p) (ground arith)

module _ {W : Type 0} (b : BusOps W) (n : ℕ) (c : Core W) (h : Kept n c.cpu) where
  pub data_read-Kept : (a : ℕ) → Always (λ r. Kept n r.core.cpu) (data_read b c a)
  unfolding data_read signal_exc
  data_read-Kept a = Always-any _ (b.bus_read c.bus a (some c.cpu.id)) _ (λ d. ground arith)

  pub instr_read-Kept : (a : ℕ) → Always (λ r. Kept n r.core.cpu) (instr_read b c a)
  unfolding instr_read signal_exc
  instr_read-Kept a = Always-any _ (b.bus_read c.bus a none) _ (λ d. ground arith)

  pub data_write-Kept : (a v : ℕ) → Always (λ r. Kept n r.core.cpu) (data_write b c a v)
  unfolding data_write signal_exc
  data_write-Kept a v = Always-any _ (b.bus_write c.bus a v (some c.cpu.id)) _ (λ w.
      let after : Kept n (apply_irqs (emit c.cpu (bus_access a access_write)) w.irqs) =
        apply_irqs-Kept n w.irqs _ h in
      ground arith)
