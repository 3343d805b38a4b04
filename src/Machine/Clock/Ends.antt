-- ===== src/Machine/Clock/Ends.antt =====
-- The rounds that a tick of the machine's clock takes.
use uriscv.Prelude.{
  ℕ, ◌≤◌, ◌≡◌, refl, sym, ◌∙◌, ap, List, [], none, some, Option-cases, inl, inr, map, get_elem?,
  set, arith,
}
use mathlib.Core.Path.{subst}
use uriscv.Outcome.{Outcome, runs, exits, undefined, ◌>>=◌}
use uriscv.Processor.Mode.{Always, Always-any, Always-bind, Always-if}
use uriscv.Processor.Access.{BusOps, Core, Irq, apply_irqs, instr_read, with_cpu}
use uriscv.Processor.Cycle.{reset, reset_registers}
use uriscv.Processor.Constants.{access_exec}
use uriscv.Processor.Translate.{map_virtual}
use uriscv.Pic.Registers.{deliver_ipi}
use uriscv.Bus.{SystemBus}
use uriscv.Bus.Control.{Callback, complete_op, deliver, reset_cpu, halt_cpu, power_off}
use uriscv.Bus.Clock.{due_callback, due_count, popped, tick_timers}
use uriscv.Bus.Clock.Rounds.{Outcome-cases, KeepsTime, run_due-Ends}
use uriscv.Machine.{Machine, told, flush, notify_clock, notify_timer}
use uriscv.Machine.Clock.{Completed, notify_all, callback, run_events, clock_tick}

Always-map :
    {A : Type 0} (P Q : A → Type 0) (o : Outcome A)
    → ((a : A) → P a → Q a)
    → Always P o
    → Always Q o
Always-map P Q (runs a) f p = f a p
Always-map P Q exits f p = tt
Always-map P Q undefined f p = tt

module _ {D : Type 0} where
  pub same_queue : (b c : SystemBus D) → c.tod ≡ b.tod → c.event_q ≡ b.event_q → KeepsTime b c
  same_queue b c time queue = record {
    same_time = time;
    not_at_once = λ h rest first due. (rest, ap (λ q. q.events) queue ∙ first, refl);
  }

  told-bus : (m : Machine D) (irqs : List Irq) → Always (λ d. d.bus ≡ m.bus) (told m irqs)
  unfolding told
  told-bus m irqs =
      Always-any (λ d. d.bus ≡ m.bus) (flush m.stops (map (λ p. apply_irqs p irqs) m.cpus)) _
        (λ f. refl)

module _ {D : Type 0} (b : BusOps (SystemBus D))
    (complete : ℕ → ℕ → SystemBus D → Outcome (Completed D)) where
  -- What is asked of devices.
  abbrev pub Punctual : Type 0
  Punctual =
      (line device : ℕ) (s : SystemBus D) → Always (λ e. KeepsTime s e.bus) (complete line device s)

  abbrev Kept : Machine D → Machine D → Type 0
  Kept m d = KeepsTime m.bus d.bus

  instr_read-bus :
      (c : Core (SystemBus D)) (addr : ℕ) → Always (λ f. f.core.bus ≡ c.bus) (instr_read b c addr)
  unfolding instr_read
  instr_read-bus c addr = Always-any _ (b.bus_read c.bus addr none) _ (λ d. refl)

  reset-bus : (c : Core (SystemBus D)) (pc sp : ℕ) → Always (λ d. d.bus ≡ c.bus) (reset b c pc sp)
  unfolding reset
  reset-bus c pc sp =
      let m = map_virtual (reset_registers c.cpu pc sp) pc access_exec in
      let mapped = with_cpu c (record (m.cpu) { curr_phys_pc = m.paddr }) in
      Always-if (λ d. d.bus ≡ c.bus) m.failed exits _ tt
        (Always-bind (λ f. f.core.bus ≡ c.bus) (λ d. d.bus ≡ c.bus) (instr_read b mapped m.paddr) _
          (instr_read-bus mapped m.paddr)
          (λ f same. Always-if (λ d. d.bus ≡ c.bus) f.failed exits _ tt same))

  told-Kept :
      (m n : Machine D) (irqs : List Irq) → KeepsTime m.bus n.bus → Always (Kept m) (told n irqs)
  told-Kept m n irqs k =
      Always-map (λ d. d.bus ≡ n.bus) (Kept m) (told n irqs)
        (λ d same. subst (KeepsTime m.bus) (sym same) k) (told-bus n irqs)

  callback-Kept :
      Punctual → (c : Callback) (m : Machine D) → Always (Kept m) (callback b complete c m)
  unfolding callback
  callback-Kept law (complete_op line device) m =
      Always-bind (λ e. KeepsTime m.bus e.bus) (Kept m) (complete line device m.bus) _
        (law line device m.bus)
        (λ e k.
          Always-any (Kept m) (notify_all m.stops e.notices) _
            (λ w. told-Kept m (record m { stops = w; bus = e.bus }) e.irqs k))
  callback-Kept law (deliver origin outbox) m =
      let d = deliver_ipi m.bus.pic origin outbox in
      told-Kept m (record m { bus = record (m.bus) { pic = d.pic } }) d.irqs
        (same_queue _ _ refl refl)
  callback-Kept law (reset_cpu id pc sp) m = elim (Option-cases (get_elem? m.cpus id)) [
    | inl lost ↦ rw (callback, lost) tt
    | inr (p, there) ↦
        let core : Core (SystemBus D) = record { cpu = p; bus = m.bus; irqs = [] } in
        rw (callback, there)
          (Always-bind (λ c. c.bus ≡ m.bus) (Kept m) (reset b core pc sp) _ (reset-bus core pc sp)
            (λ c same.
              told-Kept m (record m { bus = c.bus; cpus = set m.cpus id c.cpu }) c.irqs
                (same_queue _ _ (ap (λ s. s.tod) same) (ap (λ s. s.event_q) same))))
  ]
  callback-Kept law (halt_cpu id) m = elim (Option-cases (get_elem? m.cpus id)) [
    | inl lost ↦ rw (callback, lost) tt
    | inr (p, there) ↦
        rw (callback, there)
          (told-Kept m (record m { cpus = set m.cpus id (uriscv.Processor.State.halt p) }) []
            (same_queue _ _ refl refl))
  ]
  callback-Kept law power_off m = same_queue _ _ refl refl

  run_events-Ends :
      Punctual
      → (n : ℕ) (m : Machine D) → due_count m.bus.tod m.bus.event_q.events ≤ n
      → (o : Outcome (Machine D)) × (run_events b complete n m ≡ some o)
        × Always (λ d. due_callback d.bus.tod d.bus.event_q.events ≡ none) o
  unfolding run_events
  run_events-Ends law n m h =
      run_due-Ends (λ d. d.bus) (callback b complete) (λ d. record d { bus = popped d.bus })
        (λ d. refl) (callback-Kept law) n m h

  -- A tick of the machine's clock ends, whatever processors are reset or halted and messages are
  -- delivered in it, provided that the ends of devices' operations schedule nothing that is due at
  -- once. Where it ends with a machine, the first event of its queue is not due.
  pub clock_tick-Ends :
      Punctual
      → (m : Machine D)
      → (o : Outcome (Machine D)) × (clock_tick b complete m ≡ some o)
        × Always (λ d. due_callback d.bus.tod d.bus.event_q.events ≡ none) o
  unfolding clock_tick
  clock_tick-Ends law m =
      elim (Outcome-cases (do
        w ← notify_clock m.stops
        e ← tick_timers m.bus
        v ← notify_timer w
        told (record m { stops = v; bus = e.bus }) e.irqs)) [
          | inl (d, ticked) ↦
              rw (clock_tick, ticked)
                (run_events-Ends law (due_count d.bus.tod d.bus.event_q.events) d (omega arith))
          | inr (inl out) ↦ rw (clock_tick, out) (_, refl, tt)
          | inr (inr out) ↦ rw (clock_tick, out) (_, refl, tt)
        ]
