-- ===== src/Machine.antt =====
-- uriscv/machine.cc: the processors on their bus, and the loop that runs them. Signals of a
-- processor reach the machine at the end of the processor's cycle, as nothing in the cycle reads
-- what they change.
pub mod Watch
pub mod Clock
pub mod Waiting
pub mod Idle
pub mod Rounds
mod Tests
use uriscv.Prelude.{
  ℕ, zero, suc, ◌+◌, Bool, true, false, not, ◌&&◌, ◌||◌, List, [], ◌∷◌, Option, none, some, ltb,
  ◌==◌, if◌then◌else◌, map, min, get_elem?, set, length,
}
use uriscv.Outcome.{Outcome, runs, exits, undefined, ◌>>=◌}
use uriscv.Processor.State.{Processor, is_halted}
use uriscv.Processor.Access.{BusOps, Irq, apply_irqs, Core}
use uriscv.Processor.Cycle.{cycle}
use uriscv.Bus.{SystemBus}
use Watch.{StopState, observe_all, notify_write, cleared}

-- The machine but for its configuration and its symbol table.
pub record Machine (D : Type 0) : Type 0 where
  pub stops : StopState
  pub bus : SystemBus D
  pub cpus : List Processor
  pub halted : Bool

pub record Flushed : Type 0 where
  pub stops : StopState
  pub cpus : List Processor

-- The signals that are pending, each processor's.
unfoldable pub flush : StopState → List Processor → Outcome Flushed
unfolding observe_all
flush w [] = runs (record { stops = w; cpus = [] })
flush w (p ∷ ps) = do
  v ← observe_all w p.id p.signals
  f ← flush v ps
  runs (record { stops = f.stops; cpus = record p { signals = [] } ∷ f.cpus })

-- Lines that were moved on the processors, each for its own, and then the signals.
module _ {D : Type 0} where
  unfoldable pub told : Machine D → List Irq → Outcome (Machine D)
  unfolding flush apply_irqs
  told m irqs = do
    f ← flush m.stops (map (λ p. apply_irqs p irqs) m.cpus)
    runs (record m { stops = f.stops; cpus = f.cpus })

module _ {D : Type 0} (b : BusOps (SystemBus D)) where
  -- `Cycle` of one processor.
  unfoldable pub cycle_at : ℕ → Machine D → Outcome (Machine D)
  unfolding cycle told
  cycle_at i m = elim (get_elem? m.cpus i) [
    | none ↦ runs m
    | some p ↦ do
      c ← cycle b (record { cpu = p; bus = m.bus; irqs = [] })
      told (record m { bus = c.bus; cpus = set m.cpus i c.cpu }) c.irqs
  ]

  -- The loop over the processors from the i-th, for n of them.
  unfoldable pub cycles_from : ℕ → ℕ → Machine D → Outcome (Machine D)
  unfolding cycle_at
  cycles_from zero i m = runs m
  cycles_from (suc n) i m = do d ← cycle_at i m; cycles_from n (suc i) d

  -- The body of the loop in `step`; `tick` is `ClockTick`.
  unfoldable pub round :
      (Machine D → Option (Outcome (Machine D))) → Machine D → Option (Outcome (Machine D))
  unfolding cycles_from
  round tick m = elim (tick m) [
    | none ↦ none
    | some o ↦ some (do d ← o; cycles_from (length d.cpus) 0 d)
  ]

module _ {D : Type 0} where
  -- The machine as `step` starts on it.
  abbrev pub restarted : Machine D → Machine D
  restarted m = record m { stops = cleared (length m.cpus) m.stops }

-- What `step` answers: how many rounds it took, and whether it was told to stop.
pub record Stepped (D : Type 0) : Type 0 where
  pub machine : Machine D
  pub stepped : ℕ
  pub stopped : Bool

module _ {D : Type 0} (b : BusOps (SystemBus D))
    (tick : Machine D → Option (Outcome (Machine D))) where
  abbrev pub going : Machine D → Bool
  going m = not m.halted && not m.stops.stop_requested && not m.stops.pause_requested

  -- The loop, with the rounds that are left and those that were taken.
  unfoldable pub step_loop : ℕ → ℕ → Machine D → Option (Outcome (Stepped D))
  unfolding round
  step_loop zero i m =
      some (runs (record { machine = m; stepped = i; stopped = m.stops.stop_requested }))
  step_loop (suc n) i m =
      if going m
      then elim (round b tick m) [
        | none ↦ none
        | some exits ↦ some exits
        | some undefined ↦ some undefined
        | some (runs d) ↦ step_loop n (suc i) d
      ]
      else some (runs (record { machine = m; stepped = i; stopped = m.stops.stop_requested }))

  -- `step`.
  unfoldable pub step : ℕ → Machine D → Option (Outcome (Stepped D))
  unfolding step_loop cleared
  step steps m = step_loop steps 0 (restarted m)

-- `idleCycles`, from the bus's.
unfoldable pub least_idle : ℕ → List Processor → ℕ
unfolding uriscv.Processor.Cycle.idle_cycles
least_idle c [] = c
least_idle c (p ∷ ps) =
    let least = min c (uriscv.Processor.Cycle.idle_cycles p) in
    let rest = least_idle (min c (uriscv.Processor.Cycle.idle_cycles p)) ps in
    if least == 0 then 0 else rest

-- `Skip` of the processors that are not halted.
unfoldable pub skip_each : ℕ → List Processor → Outcome (List Processor)
unfolding uriscv.Processor.Cycle.skip
skip_each cycles [] = runs []
skip_each cycles (p ∷ ps) = do
  q ← if is_halted p then runs p else uriscv.Processor.Cycle.skip p cycles
  qs ← skip_each cycles ps
  runs (q ∷ qs)

-- The notices of the bus about its clock and its timer.
unfoldable pub notify_clock : StopState → Outcome StopState
unfolding notify_write
notify_clock w = do v ← notify_write w 0x10000018; notify_write v 0x1000001c

unfoldable pub notify_timer : StopState → Outcome StopState
unfolding notify_write
notify_timer w = notify_write w 0x10000020

module _ {D : Type 0} where
  unfoldable pub idle_cycles : Machine D → ℕ
  unfolding least_idle uriscv.Bus.Clock.idle_cycles
  idle_cycles m =
      if uriscv.Bus.Clock.idle_cycles m.bus == 0
      then 0
      else least_idle (uriscv.Bus.Clock.idle_cycles m.bus) m.cpus

  unfoldable pub skip : Machine D → ℕ → Outcome (Machine D)
  unfolding uriscv.Bus.Clock.skip notify_clock notify_timer skip_each
  skip m cycles = do
    w ← notify_clock m.stops
    v ← notify_timer w
    cpus ← skip_each cycles m.cpus
    runs (record m { stops = v; bus = uriscv.Bus.Clock.skip m.bus cycles; cpus = cpus })

  -- `Halt`.
  abbrev pub halt : Machine D → Machine D
  halt m = record m { halted = true }
