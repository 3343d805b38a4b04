-- ===== src/Bus/Idle.antt =====
-- Skipping idle cycles, next to ticking through them.
use uriscv.Prelude.{
  ℕ, zero, suc, ◌+◌, ◌-◌, ◌%◌, ◌^◌, ◌≤◌, ◌<◌, ◌≡◌, refl, sym, ap, false, List, [], ◌∷◌, none, some,
  ltb, if◌then◌else◌, arith, min,
}
use mathlib.Core.Path.{subst}
use uriscv.Outcome.{Outcome, runs}
use uriscv.Event.{Event}
use uriscv.Word.{uns_sub}
use uriscv.Bus.{SystemBus, Effect}
use uriscv.Bus.Control.{Callback}
use uriscv.Bus.Clock.Rounds.{run_due-settled}
use uriscv.Bus.Clock.{
  due_count, due_callback, popped, run_due_of, after_irqs, effect, tick_timers, clock_tick, ticks,
  idle_cycles, skip,
}

-- The clock, the timer and the deadline of the first event are machine words.
pub record IsTimed {D : Type 0} (b : SystemBus D) : Type 0 where
  pub tod_lt : b.tod < 2 ^ 64
  pub timer_lt : b.timer < 2 ^ 32
  pub deadline_lt :
      (h : Event Callback) (rest : List (Event Callback))
      → b.event_q.events ≡ h ∷ rest
      → h.deadline < 2 ^ 64

-- How many cycles are idle, by the first event of the queue.
idle_of : ℕ → ℕ → List (Event Callback) → ℕ
idle_of tod timer [] = timer
idle_of tod timer (e ∷ es) =
    if ltb tod e.deadline then min timer ((e.deadline - tod - 1) % 2 ^ 32) else 0

idle_cycles-idle_of :
    {D : Type 0} (b : SystemBus D) (es : List (Event Callback))
    → b.event_q.events ≡ es
    → idle_cycles b ≡ idle_of b.tod b.timer es
unfolding idle_cycles idle_of
idle_cycles-idle_of b [] e = rw (idle_cycles, e) refl
idle_cycles-idle_of b (h ∷ es) e = rw (idle_cycles, e) refl

idle_of-timer :
    (tod timer k : ℕ) (es : List (Event Callback)) → k ≤ idle_of tod timer es → k ≤ timer
unfolding idle_of
idle_of-timer tod timer k [] h = h
idle_of-timer tod timer k (e ∷ es) h = ground (arith, h)

idle_of-not_due :
    (tod timer k : ℕ) (es : List (Event Callback))
    → tod < 2 ^ 64
    → ((h : Event Callback) (rest : List (Event Callback)) → es ≡ h ∷ rest → h.deadline < 2 ^ 64)
    → suc k ≤ idle_of tod timer es
    → due_callback ((tod + suc k) % 2 ^ 64) es ≡ none
unfolding idle_of due_callback
idle_of-not_due tod timer k [] t d h = refl
idle_of-not_due tod timer k (e ∷ es) t d h = ground (arith, t, d e es refl, h)

module _ {D : Type 0} (run : Callback → SystemBus D → Outcome (Effect D)) where
  run_due_of-settled :
      (b : SystemBus D)
      → due_callback b.tod b.event_q.events ≡ none
      → run_due_of run (effect b []) ≡ some (runs (effect b []))
  unfolding run_due_of effect
  run_due_of-settled b h =
      run_due-settled (λ d. d.bus) (λ c d. after_irqs d.irqs (run c d.bus))
        (λ d. record d { bus = popped d.bus }) (due_count b.tod b.event_q.events) (effect b []) h

  tick-skip :
      (b : SystemBus D) (k : ℕ)
      → k < b.timer
      → b.timer < 2 ^ 32
      → tick_timers (skip b k) ≡ runs (effect (skip b (suc k)) [])
  unfolding tick_timers skip uns_sub effect
  tick-skip b k h w =
      let left : ltb ((b.timer + (2 ^ 32 - k)) % 2 ^ 32) 1 ≡ false = ground (arith, h, w) in
      let time : ((b.tod + k) % 2 ^ 64 + 1) % 2 ^ 64 ≡ (b.tod + suc k) % 2 ^ 64 = omega arith in
      let down : ((b.timer + (2 ^ 32 - k)) % 2 ^ 32 + (2 ^ 32 - 1)) % 2 ^ 32
          ≡ (b.timer + (2 ^ 32 - suc k)) % 2 ^ 32 =
        omega (arith, h, w) in
      rw (left, time, down) refl

  pub skip-zero : (b : SystemBus D) → IsTimed b → skip b 0 ≡ b
  unfolding skip
  skip-zero b w =
      let time : (b.tod + 0) % 2 ^ 64 ≡ b.tod = omega (arith, w.tod_lt) in
      let timer : (b.timer + (2 ^ 32 - 0)) % 2 ^ 32 ≡ b.timer = omega (arith, w.timer_lt) in
      rw (time, timer) refl

  -- One tick after k idle cycles, with no event due then.
  pub skip-ticked :
      (b : SystemBus D)
      → IsTimed b
      → (k : ℕ) → suc k ≤ idle_cycles b
      → (tick_timers (skip b k) ≡ runs (effect (skip b (suc k)) []))
        × (due_callback (skip b (suc k)).tod (skip b (suc k)).event_q.events ≡ none)
  unfolding skip
  skip-ticked b w k h =
      let idle = idle_cycles-idle_of b b.event_q.events refl in
      let enough : suc k ≤ idle_of b.tod b.timer b.event_q.events = subst (λ n. suc k ≤ n) idle h in
      (
        tick-skip b k (idle_of-timer b.tod b.timer (suc k) b.event_q.events enough) w.timer_lt,
        idle_of-not_due b.tod b.timer k b.event_q.events w.tod_lt w.deadline_lt enough,
      )

  clock_tick-skip :
      (b : SystemBus D)
      → IsTimed b
      → (k : ℕ) → suc k ≤ idle_cycles b
      → clock_tick run (skip b k) ≡ some (runs (effect (skip b (suc k)) []))
  unfolding clock_tick skip
  clock_tick-skip b w k h =
      let (ticked, settled) = skip-ticked b w k h in
      rw (clock_tick, ticked) (run_due_of-settled (skip b (suc k)) settled)

  -- As long as the cycles are idle, ticking through them is what skipping them at once is: no callback
  -- is run and no line is moved.
  pub ticks-skip :
      (b : SystemBus D)
      → IsTimed b
      → (k : ℕ) → k ≤ idle_cycles b
      → ticks run b k ≡ some (runs (effect (skip b k) []))
  unfolding ticks effect after_irqs
  ticks-skip b w zero h = ap (λ c. some (runs (effect c []))) (sym (skip-zero b w))
  ticks-skip b w (suc k) h =
      rw (ticks-skip b w k (omega (arith, h)), clock_tick-skip b w k h, after_irqs) refl
