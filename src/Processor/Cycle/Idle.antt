-- ===== src/Processor/Cycle/Idle.antt =====
-- The cycles of a processor that waits, and the skip that stands for them.
use uriscv.Prelude.{
  ℕ, zero, suc, ◌-◌, ◌^◌, ◌≤◌, ◌<◌, ◌≡◌, refl, sym, ◌∙◌, ap, fun_ext, true, false, leb, ◌==◌, arith,
  sub32,
}
use uriscv.Outcome.{Outcome, runs, ◌>>=◌}
use uriscv.Processor.Constants.{time}
use uriscv.Processor.State.{
  Processor, idle, running, csr_read, csr_write, timer_enabled, assert_irq, set_status,
}
use uriscv.Processor.Access.{BusOps, Core, with_cpu}
use uriscv.Processor.Cycle.{cycle, tick_timer, idle_cycles, skip}

-- TIME counted down by n.
unfoldable pub skipped : Processor → ℕ → Processor
skipped p n = csr_write p time (sub32 (csr_read p time) n)

pub skipped-zero : (p : Processor) → csr_read p time < 2 ^ 32 → skipped p 0 ≡ p
unfolding skipped
skipped-zero p h = ap (λ (f : ℕ → ℕ). record p { csr = f }) (fun_ext (λ r. ground arith))

skipped-suc :
    (p : Processor) (n : ℕ)
    → csr_read p time < 2 ^ 32
    → n < csr_read p time
    → skipped (skipped p 1) n ≡ skipped p (suc n)
unfolding skipped
skipped-suc p n h hn = ap (λ (f : ℕ → ℕ). record p { csr = f }) (fun_ext (λ r. ground arith))

pub idle_cycles-eq :
    (p : Processor) → p.status ≡ idle → timer_enabled p ≡ true → idle_cycles p ≡ csr_read p time
unfolding idle_cycles
idle_cycles-eq p waits on = rw (waits, on) refl

skip-eq :
    (p : Processor) (n : ℕ)
    → p.status ≡ idle
    → timer_enabled p ≡ true
    → n ≤ csr_read p time
    → skip p n ≡ runs (skipped p n)
unfolding skip skipped
skip-eq p n waits on h =
    let bound : leb n (csr_read p time) ≡ true = ground arith in rw (waits, on, bound) refl

-- At 0, the tick raises the timer's line, which starts an idle processor.
last_tick :
    (p : Processor) (n : ℕ)
    → p.status ≡ idle
    → timer_enabled p ≡ true
    → csr_read p time < 2 ^ 32
    → n ≡ csr_read p time
    → (tick_timer (skipped p n)).status ≡ running
unfolding tick_timer assert_irq set_status skipped timer_enabled
last_tick p n waits on h e =
    let zero_left : sub32 (csr_read p time) n ≡ 0 = omega arith in rw (on, zero_left, waits) refl

module _ {W : Type 0} (b : BusOps W) where
  -- `n` cycles.
  abbrev pub cycles : ℕ → Core W → Outcome (Core W)
  cycles zero c = runs c
  cycles (suc n) c = cycle b c >>= (λ d. cycles n d)

  pub idle_cycle :
      (c : Core W)
      → c.cpu.status ≡ idle
      → timer_enabled c.cpu ≡ true
      → 0 < csr_read c.cpu time
      → cycle b c ≡ runs (with_cpu c (skipped c.cpu 1))
  unfolding cycle tick_timer skipped
  idle_cycle c waits on h =
      let later : (csr_read c.cpu time == 0) ≡ false = ground arith in rw (on, later, waits) refl

  idle_run :
      (n : ℕ) (c : Core W)
      → c.cpu.status ≡ idle
      → timer_enabled c.cpu ≡ true
      → csr_read c.cpu time < 2 ^ 32
      → n ≤ csr_read c.cpu time
      → cycles n c ≡ runs (with_cpu c (skipped c.cpu n))
  unfolding timer_enabled skipped
  idle_run zero c waits on h hn = ap (λ q. runs (with_cpu c q)) (sym (skipped-zero c.cpu h))
  idle_run (suc n) c waits on h hn =
      let one = skipped c.cpu 1 in
      let left : csr_read one time ≡ csr_read c.cpu time - 1 = omega arith in
      rw (idle_cycle c waits on (omega arith)) (
        idle_run n (with_cpu c one) waits on (omega (arith, left)) (omega (arith, left))
        ∙ ap (λ q. runs (with_cpu c q)) (skipped-suc c.cpu n h hn))

  -- What an idle processor with its timer enabled is skipped by is what as many cycles do, up to the
  -- number that `IdleCycles` allows, and the cycle after those starts it again.
  pub skip-cycles :
      (n : ℕ) (c : Core W)
      → c.cpu.status ≡ idle
      → timer_enabled c.cpu ≡ true
      → csr_read c.cpu time < 2 ^ 32
      → n ≤ idle_cycles c.cpu
      → (q : Processor) × (skip c.cpu n ≡ runs q)
        × (cycles n c ≡ runs (with_cpu c q))
        × ((n ≡ idle_cycles c.cpu) → (tick_timer q).status ≡ running)
  skip-cycles n c waits on h hn =
      let t = csr_read c.cpu time in
      let bound : idle_cycles c.cpu ≡ t = idle_cycles-eq c.cpu waits on in
      let below : n ≤ t = omega (arith, hn, bound) in
      (
        skipped c.cpu n,
        skip-eq c.cpu n waits on below,
        idle_run n c waits on h below,
        λ e. last_tick c.cpu n waits on h (e ∙ bound),
      )
