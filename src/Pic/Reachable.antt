-- ===== src/Pic/Reachable.antt =====
-- The interrupt controller through every sequence of its operations.
use uriscv.Prelude.{ℕ, ◌^◌, ◌<◌, ◌≡◌, refl, false, Option}
use mathlib.Core.Path.{subst}
use uriscv.Outcome.{runs}
use uriscv.Processor.Mode.{Always}
use uriscv.Pic.{InterruptController, Driven, start_irq, end_irq, initial}
use uriscv.Pic.Registers.{write, deliver_ipi, PicWritten}
use uriscv.Pic.Lines.{Lines, drive}
use uriscv.Pic.Operations.{
  AllWired, DrivenWired, WrittenWired, start_irq-Wired, end_irq-Wired, write-Wired,
  deliver_below-Wired,
}

-- What the machine does with the controller, next to the lines: an interrupt begins or ends, a
-- processor writes a register, a message of one of at most sixteen processors arrives.
pub data Step : InterruptController → Lines → InterruptController → Lines → Type 0 where
  starts :
      {c : InterruptController} {up : Lines} (irq dev : ℕ) (r : Driven)
      → irq < 2 ^ 32
      → start_irq c irq dev ≡ runs r
      → Step c up r.pic (drive up r.irqs)
  ends :
      {c : InterruptController} {up : Lines} (irq dev : ℕ) (r : Driven)
      → irq < 2 ^ 32
      → end_irq c irq dev ≡ runs r
      → Step c up r.pic (drive up r.irqs)
  writes :
      {c : InterruptController} {up : Lines} (clock_rate addr word : ℕ) (cpu : Option ℕ)
      (r : PicWritten)
      → write c clock_rate addr word cpu ≡ runs r
      → Step c up r.pic (drive up r.irqs)
  delivers :
      {c : InterruptController} {up : Lines} (origin outbox : ℕ)
      → origin < 16
      → Step c up (deliver_ipi c origin outbox).pic (drive up (deliver_ipi c origin outbox).irqs)

pub data Reachable (n : ℕ) (reserved : ℕ → ℕ → ℕ) : InterruptController → Lines → Type 0 where
  begins : Reachable n reserved (initial n reserved) (λ i il. false)
  follows :
      {c d : InterruptController} {up after : Lines}
      → Reachable n reserved c up
      → Step c up d after
      → Reachable n reserved d after

Step-Wired :
    (c d : InterruptController) (up after : Lines)
    → Step c up d after
    → AllWired c up
    → AllWired d after
Step-Wired c _ up _ (starts irq dev r h e) all =
    subst (Always (DrivenWired up)) e (start_irq-Wired c up irq dev h all)
Step-Wired c _ up _ (ends irq dev r h e) all =
    subst (Always (DrivenWired up)) e (end_irq-Wired c up irq dev h all)
Step-Wired c _ up _ (writes rate addr word cpu r e) all =
    subst (Always (WrittenWired up)) e (write-Wired c up rate addr word cpu all)
Step-Wired c _ up _ (delivers origin outbox h) all =
    deliver_below-Wired c up origin outbox c.size h all

initial-Wired : (n : ℕ) (reserved : ℕ → ℕ → ℕ) → AllWired (initial n reserved) (λ i il. false)
unfolding initial
initial-Wired n reserved i = record { devices = λ k h. refl; inbox = refl; senders = tt }

-- Whatever sequence of interrupts, acknowledgements, register writes and messages the controller
-- has seen, on every processor the line of each row of devices is up exactly while the bitmap of
-- that row is not zero, the line of the inbox is up exactly while the inbox has a message, and the
-- inbox has no two messages of one sender.
pub Reachable-Wired :
    (n : ℕ) (reserved : ℕ → ℕ → ℕ) (c : InterruptController) (up : Lines)
    → Reachable n reserved c up
    → AllWired c up
Reachable-Wired n reserved c up begins = initial-Wired n reserved
Reachable-Wired n reserved c up (follows {c = b} {up = before} r s) =
    Step-Wired b c before up s (Reachable-Wired n reserved b before r)
