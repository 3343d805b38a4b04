-- ===== src/Machine/Idle.antt =====
-- Skipping the cycles of a machine that waits, next to running through them.
mod Cycles
mod Notices
use uriscv.Prelude.{
  ℕ, zero, suc, ◌+◌, ◌≤◌, ◌<◌, ◌≡◌, refl, sym, ◌∙◌, ap, Bool, true, false, not, ◌&&◌, List, [], ◌∷◌,
  ◌++◌, Option, none, some, ◌==◌, if◌then◌else◌, map, length-append, min, get_elem?, set, length,
  Bool-cases, inl, inr, arith,
}
use mathlib.Core.List.{append_assoc}
use mathlib.Core.Path.{subst}
use uriscv.Stop.Probing.{All-map}
use uriscv.Outcome.{Outcome, runs, exits, undefined, ◌>>=◌}
use uriscv.Stop.Order.{All}
use uriscv.Processor.State.{Processor, is_halted}
use uriscv.Processor.Access.{BusOps, Irq, apply_irqs}
use uriscv.Bus.{SystemBus}
use uriscv.Bus.Idle.{IsTimed, skip-ticked, skip-zero}
use uriscv.Machine.{
  Machine, Stepped, told, flush, cycle_at, cycles_from, round, step_loop, step, least_idle,
  skip_each, restarted, idle_cycles, skip, notify_clock, notify_timer,
}
use uriscv.Machine.Watch.{StopState, cleared, observe_all}
use uriscv.Bus.Clock.{popped}
use uriscv.Bus.Clock.Rounds.{Outcome-cases, run_due-settled}
use uriscv.Machine.Clock.{Completed, callback, clock_tick, run_events}
use uriscv.Machine.Waiting.{IsSettled, slept, skip-slept, cycle-slept, slept-quiet, slept-zero}
use Notices.{notify_clock-cleared, notify_timer-cleared}
use Cycles.{
  May, skip_each-slept, idle_cycles-May, told-Quiet, All-both, Waits, slept-Quiet, slept-zeros,
  as_many_slept, with_cpus, cycles_from-slept,
}

module _ {D : Type 0} (b : BusOps (SystemBus D))
    (complete : ℕ → ℕ → SystemBus D → Outcome (Completed D)) where
  -- The machine after k cycles of waiting.
  waited : ℕ → Machine D → Machine D
  waited k m = record m { bus = uriscv.Bus.Clock.skip m.bus k; cpus = map (slept k) m.cpus }

  -- What a machine is like where k cycles may be skipped.
  record CanWait (m : Machine D) (k : ℕ) : Type 0 where
    timed : IsTimed m.bus
    bus_may : k ≤ uriscv.Bus.Clock.idle_cycles m.bus
    cpus_wait : All (Waits k) m.cpus
    clock_unseen : notify_clock m.stops ≡ runs m.stops
    timer_unseen : notify_timer m.stops ≡ runs m.stops

  run_events-settled :
      (n : ℕ) (m : Machine D)
      → uriscv.Bus.Clock.due_callback m.bus.tod m.bus.event_q.events ≡ none
      → run_events b complete n m ≡ some (runs m)
  unfolding run_events
  run_events-settled n m h =
      run_due-settled (λ d. d.bus) (callback b complete) (λ d. record d { bus = popped d.bus }) n m
        h

  clock_tick-waited :
      (m : Machine D) (k : ℕ)
      → CanWait m (suc k)
      → clock_tick b complete (waited k m)
        ≡ some (
            runs
              (record m { bus = uriscv.Bus.Clock.skip m.bus (suc k); cpus = map (slept k) m.cpus }))
  unfolding clock_tick waited uriscv.Bus.Clock.effect
  clock_tick-waited m k h =
      let (ticked, settled) = skip-ticked (λ c e. exits) m.bus h.timed k h.bus_may in
      let after : Machine D = record m {
        bus = uriscv.Bus.Clock.skip m.bus (suc k);
        cpus = map (slept k) m.cpus;
      } in
      rw
        (
          clock_tick,
          h.clock_unseen,
          ticked,
          h.timer_unseen,
          told-Quiet after (slept-Quiet m.cpus (suc k) k h.cpus_wait),
        )
        (run_events-settled _ after settled)

  round-waited :
      (m : Machine D) (k : ℕ)
      → CanWait m (suc k)
      → round b (clock_tick b complete) (waited k m) ≡ some (runs (waited (suc k) m))
  unfolding round waited with_cpus
  round-waited m k h =
      let after : Machine D = record m { bus = uriscv.Bus.Clock.skip m.bus (suc k) } in
      rw (round, clock_tick-waited m k h, as_many_slept m.cpus k)
        (ap some (cycles_from-slept b after [] m.cpus k h.cpus_wait tt))

  CanWait-le : (m : Machine D) (j k : ℕ) → j ≤ k → CanWait m k → CanWait m j
  CanWait-le m j k le h = record {
    timed = h.timed;
    bus_may = omega (arith, le, h.bus_may);
    cpus_wait =
        All-map (Waits k) (Waits j) m.cpus (λ p (s, may). (s, omega (arith, le, may))) h.cpus_wait;
    clock_unseen = h.clock_unseen;
    timer_unseen = h.timer_unseen;
  }

  step_loop-waited :
      (n k : ℕ) (m : Machine D)
      → CanWait m (k + n)
      → (not m.halted && not m.stops.stop_requested && not m.stops.pause_requested) ≡ true
      → step_loop b (clock_tick b complete) n k (waited k m)
        ≡ some (
            runs (record {
              machine = waited (k + n) m;
              stepped = k + n;
              stopped = m.stops.stop_requested;
            }))
  unfolding step_loop waited
  step_loop-waited zero k m h on =
      let none_left : k + 0 ≡ k = omega arith in rw (step_loop, none_left) refl
  step_loop-waited (suc n) k m h on =
      let moved : k + suc n ≡ suc k + n = omega arith in
      let one = round-waited m k (CanWait-le m (suc k) (k + suc n) (omega arith) h) in
      rw (step_loop, on, one, moved)
        (step_loop-waited n (suc k) m (CanWait-le m (suc k + n) (k + suc n) (omega arith) h) on)

  -- Where all processors of a machine that is not halted wait, skipping k cycles, up to the number that
  -- `idleCycles` allows, leaves the machine that k rounds of `step` leave, but that `step` clears the
  -- requests to stop and to pause and the stop causes when it begins; all rounds are run, and nothing
  -- stops it. The words of the bus and of the processors are in range, no event, no line of a timer
  -- and no signal is pending, and what the observers watch lets the notices of the clock and the timer pass.
  pub step-skip :
      (m : Machine D) (k : ℕ)
      → 0 < k
      → k ≤ idle_cycles m
      → IsTimed m.bus
      → All IsSettled m.cpus
      → m.halted ≡ false
      → notify_clock m.stops ≡ runs m.stops
      → notify_timer m.stops ≡ runs m.stops
      → (d : Machine D) × (skip m k ≡ runs d)
        × (step b (clock_tick b complete) k m
            ≡ some (runs (record { machine = restarted d; stepped = k; stopped = false })))
  unfolding step skip waited cleared
  step-skip m zero pos may t s on c u = absurd (omega (arith, pos))
  step-skip m (suc k) pos may t s on c u =
      let (bus_may, cpus_may) = idle_cycles-May m k may in
      let h : CanWait (restarted m) (suc k) = record {
        timed = t;
        bus_may = bus_may;
        cpus_wait = All-both IsSettled (May (suc k)) m.cpus s cpus_may;
        clock_unseen = notify_clock-cleared (length m.cpus) m.stops c;
        timer_unseen = notify_timer-cleared (length m.cpus) m.stops u;
      } in
      let same : 0 + suc k ≡ suc k = omega arith in
      let begin : waited 0 (restarted m) ≡ restarted m =
        rw (skip-zero (λ c e. exits) m.bus t, slept-zeros m.cpus s) refl in
      let end : waited (suc k) (restarted m) ≡ restarted (waited (suc k) m) =
        ap (λ n. record (waited (suc k) m) { stops = cleared n m.stops })
          (sym (as_many_slept m.cpus (suc k))) in
      (
        waited (suc k) m,
        rw (skip, c, u, skip_each-slept m.cpus k cpus_may) refl,
        ap (step_loop b (clock_tick b complete) (suc k) 0) (sym begin)
            ∙ step_loop-waited (suc k) 0 (restarted m) (subst (CanWait (restarted m)) (sym same) h)
                (rw on refl)
            ∙ ap
                (λ n. some (
                  runs (record { machine = waited n (restarted m); stepped = n; stopped = false })))
                same
            ∙ ap (λ d. some (runs (record { machine = d; stepped = suc k; stopped = false }))) end,
      )
