-- ===== src/Bus/Clock.antt =====
-- `ClockTick`, `IdleCycles` and `Skip` of uriscv/systembus.cc. The loop over due events is given a
-- bound on its rounds, and is here for any state with a bus: Machine/Clock runs it with the
-- callbacks of the machine. For the bus by itself what a callback does is a parameter.
pub mod Rounds
use uriscv.Prelude.{
  ℕ, zero, suc, ◌+◌, ◌-◌, ◌%◌, ◌^◌, Bool, true, false, List, [], ◌∷◌, ◌++◌, Option, none, some, ltb,
  leb, if◌then◌else◌, min, sub32,
}
use uriscv.Outcome.{Outcome, runs, exits, undefined, ◌>>=◌}
use uriscv.Word.{uns_sub}
use uriscv.Event.{Event, EventQueue, remove_head}
use uriscv.Processor.Access.{Irq}
use uriscv.Pic.{start_irq, il_timer}
use uriscv.Bus.{SystemBus, Effect}
use uriscv.Bus.Control.{Callback}

-- How many events of a queue are due.
unfoldable pub due_count : ℕ → List (Event Callback) → ℕ
due_count tod [] = 0
due_count tod (e ∷ es) =
    let rest = due_count tod es in if leb e.deadline tod then suc rest else rest

-- The callback of the first event, if that is due.
unfoldable pub due_callback : ℕ → List (Event Callback) → Option Callback
due_callback tod [] = none
due_callback tod (e ∷ es) = if leb e.deadline tod then some e.callback else none

module _ {D : Type 0} where
  unfoldable pub effect : SystemBus D → List Irq → Effect D
  effect b irqs = record { bus = b; irqs = irqs }

  unfoldable pub popped : SystemBus D → SystemBus D
  unfolding remove_head
  popped b = record b { event_q = remove_head b.event_q }

  unfoldable pub after_irqs : List Irq → Outcome (Effect D) → Outcome (Effect D)
  after_irqs irqs o = do e ← o; runs (record { bus = e.bus; irqs = irqs ++ e.irqs })

  -- The time of day and the timer after a tick, with the interrupt of a timer that was 0.
  unfoldable pub tick_timers : SystemBus D → Outcome (Effect D)
  unfolding uns_sub
  tick_timers b =
      let (timer, underflow) = uns_sub b.timer 1 in
      let later : SystemBus D = record b { tod = (b.tod + 1) % 2 ^ 64; timer = timer } in
      if underflow
      then (start_irq b.pic il_timer 0
          >>= (λ r. runs (record { bus = record later { pic = r.pic }; irqs = r.irqs })))
      else runs (record { bus = later; irqs = [] })

  unfoldable pub idle_cycles : SystemBus D → ℕ
  idle_cycles b = elim b.event_q.events [
    | [] ↦ b.timer
    | e ∷ es ↦ if ltb b.tod e.deadline then min b.timer ((e.deadline - b.tod - 1) % 2 ^ 32) else 0
  ]

  unfoldable pub skip : SystemBus D → ℕ → SystemBus D
  skip b cycles = record b { tod = (b.tod + cycles) % 2 ^ 64; timer = sub32 b.timer cycles }

-- The loop over due events, of at most that many rounds, on any state that has a bus: `call` runs a
-- callback, and `pop` removes the head of the queue when the callback has returned.
module _ {D S : Type 0} (bus_of : S → SystemBus D) (call : Callback → S → Outcome S)
    (pop : S → S) where
  unfoldable pub run_due : ℕ → S → Option (Outcome S)
  unfolding due_callback
  run_due zero s = elim (due_callback (bus_of s).tod (bus_of s).event_q.events) [
    | none ↦ some (runs s)
    | some callback ↦ none
  ]
  run_due (suc n) s = elim (due_callback (bus_of s).tod (bus_of s).event_q.events) [
    | none ↦ some (runs s)
    | some callback ↦ elim (call callback s) [
      | exits ↦ some exits
      | undefined ↦ some undefined
      | runs d ↦ run_due n (pop d)
    ]
  ]

module _ {D : Type 0} (run : Callback → SystemBus D → Outcome (Effect D)) where
  -- The loop on the bus by itself, with the lines that were moved so far.
  unfoldable pub run_due_of : Effect D → Option (Outcome (Effect D))
  unfolding run_due due_count after_irqs popped
  run_due_of e =
      run_due (λ d. d.bus) (λ c d. after_irqs d.irqs (run c d.bus))
        (λ d. record d { bus = popped d.bus }) (due_count e.bus.tod e.bus.event_q.events) e

  -- `ClockTick`: none where the rounds did not suffice.
  unfoldable pub clock_tick : SystemBus D → Option (Outcome (Effect D))
  unfolding tick_timers run_due_of
  clock_tick b = elim (tick_timers b) [
    | exits ↦ some exits
    | undefined ↦ some undefined
    | runs e ↦ run_due_of e
  ]

  -- The state after k ticks.
  unfoldable pub ticks : SystemBus D → ℕ → Option (Outcome (Effect D))
  unfolding clock_tick effect after_irqs
  ticks b zero = some (runs (effect b []))
  ticks b (suc k) = elim (ticks b k) [
    | none ↦ none
    | some exits ↦ some exits
    | some undefined ↦ some undefined
    | some (runs e) ↦ elim (clock_tick e.bus) [ none ↦ none | some o ↦ some (after_irqs e.irqs o) ]
  ]
