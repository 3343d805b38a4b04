-- ===== src/Machine/Waiting.antt =====
-- A processor that waits while the machine skips cycles.
use uriscv.Prelude.{
  ℕ, suc, ◌^◌, ◌≤◌, ◌<◌, ◌≡◌, ◌⊎◌, refl, ◌∙◌, ap, fun_ext, true, false, [], if◌then◌else◌,
  Bool-cases, inl, inr, arith,
}
use uriscv.Outcome.{runs}
use uriscv.Processor.Constants.{time, il_cputimer}
use uriscv.Processor.State.{
  Processor, Status, halted, running, idle, csr_read, timer_enabled, deassert_irq, is_halted,
}
use uriscv.Processor.Access.{BusOps, Core}
use uriscv.Processor.Cycle.{cycle, tick_timer, idle_cycles, skip}
use uriscv.Processor.Cycle.Idle.{skipped, idle_cycle, idle_cycles-eq, skipped-zero}

-- TIME is a word, no signal is pending, and the timer's line is low unless the timer is enabled.
pub record IsSettled (p : Processor) : Type 0 where
  pub time_lt : csr_read p time < 2 ^ 32
  pub line_low : timer_enabled p ≡ false → deassert_irq p il_cputimer ≡ p
  pub quiet : p.signals ≡ []

-- The processor after k cycles of waiting.
unfoldable pub slept : ℕ → Processor → Processor
unfolding skipped
slept k p = if is_halted p then p else if timer_enabled p then skipped p k else p

Status-cases : (s : Status) → (s ≡ halted) ⊎ ((s ≡ idle) ⊎ (s ≡ running))
Status-cases halted = inl refl
Status-cases idle = inr (inl refl)
Status-cases running = inr (inr refl)

skipped-skipped :
    (p : Processor) (k : ℕ)
    → csr_read p time < 2 ^ 32
    → k < csr_read p time
    → skipped (skipped p k) 1 ≡ skipped p (suc k)
unfolding skipped
skipped-skipped p k h hk = ap (λ (f : ℕ → ℕ). record p { csr = f }) (fun_ext (λ r. ground arith))

pub skip-slept :
    (p : Processor) (k : ℕ)
    → 0 < k
    → k ≤ idle_cycles p
    → (if is_halted p then runs p else skip p k) ≡ runs (slept k p)
unfolding skip slept idle_cycles skipped
skip-slept p k pos h = ground (arith, h, pos)

slept-halted : (p : Processor) (k : ℕ) → p.status ≡ halted → slept k p ≡ p
unfolding slept
slept-halted p k off = rw (slept, off) refl

slept-timed :
    (p : Processor) (k : ℕ) → p.status ≡ idle → timer_enabled p ≡ true → slept k p ≡ skipped p k
unfolding slept timer_enabled
slept-timed p k waits on = rw (slept, waits, on) refl

slept-untimed : (p : Processor) (k : ℕ) → p.status ≡ idle → timer_enabled p ≡ false → slept k p ≡ p
unfolding slept timer_enabled
slept-untimed p k waits off = rw (slept, waits, off) refl

idle_cycles-running : (p : Processor) → p.status ≡ running → idle_cycles p ≡ 0
unfolding idle_cycles
idle_cycles-running p on = rw (idle_cycles, on) refl

module _ {W : Type 0} (b : BusOps W) where
  cycle-halted : (c : Core W) → c.cpu.status ≡ halted → cycle b c ≡ runs c
  unfolding cycle
  cycle-halted c off = rw (cycle, off) refl

  cycle-untimed :
      (c : Core W)
      → c.cpu.status ≡ idle
      → timer_enabled c.cpu ≡ false
      → deassert_irq c.cpu il_cputimer ≡ c.cpu
      → cycle b c ≡ runs c
  unfolding cycle tick_timer
  cycle-untimed c waits off low = rw (cycle, tick_timer, off, low, waits) refl

  cycle-timed :
      (p : Processor) (w : W) (k : ℕ)
      → p.status ≡ idle
      → timer_enabled p ≡ true
      → csr_read p time < 2 ^ 32
      → k < csr_read p time
      → cycle b (record { cpu = skipped p k; bus = w; irqs = [] })
        ≡ runs (record { cpu = skipped p (suc k); bus = w; irqs = [] })
  unfolding timer_enabled skipped
  cycle-timed p w k waits on h below =
      idle_cycle b (record { cpu = skipped p k; bus = w; irqs = [] }) waits on
        (omega (arith, h, below))
      ∙ ap (λ q. runs (record { cpu = q; bus = w; irqs = [] })) (skipped-skipped p k h below)

  -- A cycle of a processor that has waited for k cycles, and may for one more.
  pub cycle-slept :
      (p : Processor) (w : W) (k : ℕ)
      → IsSettled p
      → suc k ≤ idle_cycles p
      → cycle b (record { cpu = slept k p; bus = w; irqs = [] })
        ≡ runs (record { cpu = slept (suc k) p; bus = w; irqs = [] })
  cycle-slept p w k s h = elim (Status-cases p.status) [
    | inl off ↦
        rw (slept-halted p k off, slept-halted p (suc k) off)
          (cycle-halted (record { cpu = p; bus = w; irqs = [] }) off)
    | inr (inr on) ↦ absurd (omega (arith, h, idle_cycles-running p on))
    | inr (inl waits) ↦ elim (Bool-cases (timer_enabled p)) [
      | inl timed ↦
          rw (slept-timed p k waits timed, slept-timed p (suc k) waits timed)
            (cycle-timed p w k waits timed s.time_lt
              (omega (arith, h, idle_cycles-eq p waits timed)))
      | inr untimed ↦
          rw (slept-untimed p k waits untimed, slept-untimed p (suc k) waits untimed)
            (cycle-untimed (record { cpu = p; bus = w; irqs = [] }) waits untimed
              (s.line_low untimed))
    ]
  ]

-- Waiting leaves a processor with no signal pending, and keeps its number.
pub slept-quiet : (p : Processor) (k : ℕ) → p.signals ≡ [] → (slept k p).signals ≡ []
unfolding slept skipped
slept-quiet p k quiet = ground (arith, quiet)

pub slept-zero : (p : Processor) → csr_read p time < 2 ^ 32 → slept 0 p ≡ p
unfolding slept
slept-zero p h = ground (arith, skipped-zero p h)
