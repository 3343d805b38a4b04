-- ===== src/Processor/Access.antt =====
-- How a processor uses the bus: the bus behind an interface, and the calls `DataRead`, `DataWrite`
-- and `InstrRead`, which signal their exceptions to the processor.
use uriscv.Prelude.{ℕ, Bool, List, [], ◌∷◌, ◌++◌, Option, none, some, ◌==◌, if◌then◌else◌}
use uriscv.Outcome.{Outcome, runs, ◌>>=◌}
use uriscv.Processor.Constants.{access_read, access_write, access_exec, exc_laf, exc_saf, exc_iaf}
use uriscv.Processor.State.{Processor, bus_access, emit, signal_exc, assert_irq, deassert_irq}

-- A call of `AssertIRQ` or `DeassertIRQ` on a processor: the line and the target.
pub data Irq : Type 0 where
  raise lower : ℕ → ℕ → Irq

-- The value read and whether the read failed.
pub record Datum : Type 0 where
  pub value : ℕ
  pub failed : Bool

-- The state after a write, the interrupt lines it moved, and whether it failed.
pub record Written (W : Type 0) : Type 0 where
  pub bus : W
  pub irqs : List Irq
  pub failed : Bool

-- `busRead` and `busWrite`, given the processor's number, or none where the source passes NULL.
pub record BusOps (W : Type 0) : Type 0 where
  pub bus_read : W → ℕ → Option ℕ → Outcome Datum
  pub bus_write : W → ℕ → ℕ → Option ℕ → Outcome (Written W)

-- One processor with the bus. Lines moved on other processors wait in `irqs` for the end of its
-- cycle; nothing in the cycle reads those processors.
pub record Core (W : Type 0) : Type 0 where
  pub cpu : Processor
  pub bus : W
  pub irqs : List Irq

pub record Step (W : Type 0) : Type 0 where
  pub core : Core W
  -- Whether an exception was signalled.
  pub exc : Bool

-- A datum with the processor that read it.
pub record Fetched (W : Type 0) : Type 0 where
  pub core : Core W
  pub value : ℕ
  pub failed : Bool

-- The part of a list of line changes that is for processor `i`, and the rest.
unfoldable pub apply_irqs : Processor → List Irq → Processor
unfolding assert_irq deassert_irq
apply_irqs p [] = p
apply_irqs p (raise il target ∷ is) = apply_irqs (if target == p.id then assert_irq p il else p) is
apply_irqs p (lower il target ∷ is) =
    apply_irqs (if target == p.id then deassert_irq p il else p) is

others : ℕ → List Irq → List Irq
others i [] = []
others i (raise il target ∷ is) = if target == i then others i is else raise il target ∷ others i is
others i (lower il target ∷ is) = if target == i then others i is else lower il target ∷ others i is

module _ {W : Type 0} where
  abbrev pub with_cpu : Core W → Processor → Core W
  with_cpu c p = record c { cpu = p }

  abbrev pub step : Core W → Bool → Outcome (Step W)
  step c exc = runs (record { core = c; exc = exc })

module _ {W : Type 0} (b : BusOps W) where
  -- `DataRead`.
  unfoldable pub data_read : Core W → ℕ → Outcome (Fetched W)
  unfolding signal_exc
  data_read c addr =
      let p = emit c.cpu (bus_access addr access_read) in
      do
        d ← b.bus_read c.bus addr (some p.id)
        runs (record {
          core = with_cpu c (if d.failed then signal_exc p exc_laf 0 else p);
          value = d.value;
          failed = d.failed;
        })

  -- `InstrRead`: it hands no processor to the bus.
  unfoldable pub instr_read : Core W → ℕ → Outcome (Fetched W)
  unfolding signal_exc
  instr_read c addr =
      let p = emit c.cpu (bus_access addr access_exec) in
      do
        d ← b.bus_read c.bus addr none
        runs (record {
          core = with_cpu c (if d.failed then signal_exc p exc_iaf 0 else p);
          value = d.value;
          failed = d.failed;
        })

  -- `DataWrite`: the processor, and whether the write failed.
  unfoldable pub data_write : Core W → ℕ → ℕ → Outcome (Step W)
  unfolding signal_exc apply_irqs others
  data_write c addr v =
      let p = emit c.cpu (bus_access addr access_write) in
      do
        w ← b.bus_write c.bus addr v (some p.id)
        let q = apply_irqs p w.irqs
        runs (record {
          core = record {
            cpu = if w.failed then signal_exc q exc_saf 0 else q;
            bus = w.bus;
            irqs = c.irqs ++ others p.id w.irqs;
          };
          exc = w.failed;
        })
