-- ===== src/Machine/Clock.antt =====
-- `ClockTick` of uriscv/systembus.cc with what its events do to the machine: the end of a device's
-- operation, which is a parameter, messages, resets and halts of processors, and the power switch.
pub mod Ends
use uriscv.Prelude.{
  ℕ, zero, suc, Bool, true, false, List, [], ◌∷◌, Option, none, some, get_elem?, set,
}
use uriscv.Outcome.{Outcome, runs, exits, undefined, ◌>>=◌}
use uriscv.Processor.State
use uriscv.Processor.Access.{BusOps, Irq}
use uriscv.Processor.Cycle.{reset}
use uriscv.Pic.Registers.{deliver_ipi}
use uriscv.Bus.{SystemBus}
use uriscv.Bus.Control.{Callback, complete_op, deliver, reset_cpu, halt_cpu, power_off}
use uriscv.Bus.Clock.{due_count, popped, run_due, tick_timers}
use uriscv.Machine.Watch.{StopState, handle_bus_access}
use uriscv.Machine.{Machine, told, halt, notify_clock, notify_timer}

-- A call of `HandleBusAccess` with no processor: the address and the kind of access.
pub record Notice : Type 0 where
  pub addr : ℕ
  pub access : ℕ

-- What the end of a device's operation leaves: the bus, the lines it moved and its notices.
pub record Completed (D : Type 0) : Type 0 where
  pub bus : SystemBus D
  pub irqs : List Irq
  pub notices : List Notice

unfoldable pub notify_all : StopState → List Notice → Outcome StopState
unfolding handle_bus_access
notify_all w [] = runs w
notify_all w (n ∷ ns) = do v ← handle_bus_access w n.addr n.access none; notify_all v ns

module _ {D : Type 0} (b : BusOps (SystemBus D))
    (complete : ℕ → ℕ → SystemBus D → Outcome (Completed D)) where
  -- A processor that is not there is read out of the vector's bounds.
  unfoldable pub callback : Callback → Machine D → Outcome (Machine D)
  unfolding told notify_all reset
  callback (complete_op line device) m = do
    e ← complete line device m.bus
    w ← notify_all m.stops e.notices
    told (record m { stops = w; bus = e.bus }) e.irqs
  callback (deliver origin outbox) m =
      let d = deliver_ipi m.bus.pic origin outbox in
      told (record m { bus = record (m.bus) { pic = d.pic } }) d.irqs
  callback (reset_cpu id pc sp) m = elim (get_elem? m.cpus id) [
    | none ↦ undefined
    | some p ↦ do
      c ← reset b (record { cpu = p; bus = m.bus; irqs = [] }) pc sp
      told (record m { bus = c.bus; cpus = set m.cpus id c.cpu }) c.irqs
  ]
  callback (halt_cpu id) m = elim (get_elem? m.cpus id) [
    | none ↦ undefined
    | some p ↦ told (record m { cpus = set m.cpus id (State.halt p) }) []
  ]
  callback power_off m = runs (halt m)

  -- The loop over due events on the machine, with its callbacks.
  unfoldable pub run_events : ℕ → Machine D → Option (Outcome (Machine D))
  unfolding run_due popped callback
  run_events n m = run_due (λ d. d.bus) callback (λ d. record d { bus = popped d.bus }) n m

  -- `ClockTick`, with its notices.
  unfoldable pub clock_tick : Machine D → Option (Outcome (Machine D))
  unfolding tick_timers run_events notify_clock notify_timer due_count told
  clock_tick m =
      elim (do
        w ← notify_clock m.stops
        e ← tick_timers m.bus
        v ← notify_timer w
        told (record m { stops = v; bus = e.bus }) e.irqs) [
          | exits ↦ some exits
          | undefined ↦ some undefined
          | runs d ↦ run_events (due_count d.bus.tod d.bus.event_q.events) d
        ]
