-- ===== src/Machine/Tests.antt =====
-- A machine of two processors, one that waits for its timer and one that is halted.
use uriscv.Prelude.{
  ℕ, ◌≡◌, refl, ap, true, false, ◌==◌, if◌then◌else◌, List, [], ◌∷◌, none, some, inl, inr, arith,
}
use uriscv.Outcome.{Outcome, runs}
use uriscv.Event.{Event}
use uriscv.Processor.Constants.{time, mie, access_exec}
use uriscv.Processor.State.{Processor, idle, halted, timer_enabled}
use uriscv.Processor.Access.{BusOps}
use uriscv.Processor.Mode.{Always}
use uriscv.Pic.{initial}
use uriscv.Bus.{SystemBus, Config, DeviceOps, Allocator, system_bus}
use uriscv.Bus.Space.{Memory}
use uriscv.Bus.Control.{Callback, complete_op}
use uriscv.Bus.Clock.{due_callback}
use uriscv.Bus.Idle.{IsTimed}
use uriscv.Stop.{AddressRange, StoppointSet, less_than, overlaps, deref, is_match, contains}
use uriscv.Stop.Probing.{IsWellFormed}
use uriscv.Machine.{
  Machine, Stepped, round, restarted, skip, step, idle_cycles, notify_clock, notify_timer,
}
use uriscv.Machine.Watch.{StopState, sc_breakpoint, handle_vm_access}
use uriscv.Machine.Watch.Matching.{Reacts, matched, handle_vm_access-Reacts}
use uriscv.Machine.Clock.{Completed, clock_tick}
use uriscv.Machine.Clock.Ends.{Punctual, same_queue, clock_tick-Ends}
use uriscv.Machine.Waiting.{IsSettled}
use uriscv.Machine.Idle.{step-skip}
use uriscv.Machine.Rounds.{Begins, RunsTo, step-RunsTo}

abbrev page : Memory
page = record { words = λ i. i; size = 2048 }

abbrev config : Config
config = record { clock_rate = 1; num_processors = 2; tlb_floor_address = 0 }

abbrev numbers : DeviceOps ℕ
numbers = record {
  read_dev_reg = λ d field. runs d;
  write_dev_reg = λ b line device field word. runs (record { bus = b; irqs = [] });
}

abbrev next_node : Allocator
next_node _ = 1

abbrev ops : BusOps (SystemBus ℕ)
ops = system_bus config numbers next_node

-- Devices whose operations end with no effect.
abbrev complete : ℕ → ℕ → SystemBus ℕ → Outcome (Completed ℕ)
complete line device b = runs (record { bus = b; irqs = []; notices = [] })

abbrev waiting : Processor
waiting = record {
  id = 0;
  tlb_floor_address = 0x80000000;
  skip_cycle = false;
  mode = 3;
  status = idle;
  exc_cause = 0;
  cop_e_num = 0;
  gpr = λ r. 0;
  csr = λ r. if r == time then 3 else if r == mie then 0x40 else 0;
  curr_instr = 0x13;
  prev_pc = 0;
  prev_phys_pc = 0;
  prev_instr = 0x13;
  curr_pc = 0x20000000;
  curr_phys_pc = 0x20000000;
  next_pc = 0x20000004;
  succ_pc = 0x20000008;
  tlb = [];
  signals = [];
}

abbrev off : Processor
off = record waiting { id = 1; status = halted }

abbrev code : AddressRange
code = record { asid = 64; start = 100; last = 120 }

abbrev breakpoints : StoppointSet
breakpoints = record {
  points = record { addr = 1; id = 5; enabled = true; range = code; access_mode = 1 } ∷ [];
  address_map = record { key = code; target = 1 } ∷ [];
}

breakpoints-IsWellFormed : IsWellFormed breakpoints
unfolding deref less_than overlaps
breakpoints-IsWellFormed = record {
  sorted = (omega arith, tt, tt);
  leads = ((_, refl, refl), tt);
  listed = ((record { key = code; target = 1 }, inl refl, refl, refl, refl), tt);
}

abbrev machine : Machine ℕ
machine = record {
  stops = record {
    stop_mask = 2;
    pd = λ id. record { stop_cause = 0; breakpoint_id = 0; suspect_id = 0 };
    stop_requested = false;
    pause_requested = true;
    breakpoints = some breakpoints;
    suspects = none;
    tracepoints = none;
  };
  bus = record {
    tod = 100;
    timer = 50;
    event_q = record {
      events = record { addr = 1; deadline = 110; callback = complete_op 0 0 } ∷ [];
      last_ins = none;
    };
    ram = page;
    biosdata = page;
    bios = page;
    boot = page;
    dev_table = λ line device. 0;
    inst_dev_table = λ line. 0;
    pic = initial 2 (λ _ _. 0);
    mp_controller = record { boot_pc = 0x1fc00000; boot_sp = 0 };
  };
  cpus = waiting ∷ off ∷ [];
  halted = false;
}

first_deadline : List (Event Callback) → ℕ
first_deadline [] = 0
first_deadline (e ∷ es) = e.deadline

machine-IsTimed : IsTimed machine.bus
unfolding first_deadline
machine-IsTimed = record {
  tod_lt = omega arith;
  timer_lt = omega arith;
  deadline_lt = λ h rest e. omega (arith, ap first_deadline e);
}

waiting-IsSettled : IsSettled waiting
unfolding timer_enabled
waiting-IsSettled = record {
  time_lt = omega arith;
  line_low = λ untimed. absurd (cc);
  quiet = refl;
}

off-IsSettled : IsSettled off
unfolding timer_enabled
off-IsSettled = record { time_lt = omega arith; line_low = λ untimed. absurd (cc); quiet = refl }

step-skip_example :
    (d : Machine ℕ) × (skip machine 2 ≡ runs d)
    × (step ops (clock_tick ops complete) 2 machine
        ≡ some (runs (record { machine = restarted d; stepped = 2; stopped = false })))
unfolding idle_cycles notify_clock notify_timer
step-skip_example =
    step-skip ops complete machine 2 (omega arith) (omega arith) machine-IsTimed
      (waiting-IsSettled, (off-IsSettled, tt)) refl refl refl

handle_vm_access-Reacts_example :
    (v : StopState) × (handle_vm_access machine.stops 64 110 access_exec (some 0) ≡ runs v)
    × Reacts machine.stops v 0 sc_breakpoint true
unfolding matched is_match contains
handle_vm_access-Reacts_example =
    handle_vm_access-Reacts machine.stops breakpoints 64 110 access_exec 0 (inr (inr refl)) refl
      breakpoints-IsWellFormed

complete-Punctual : Punctual ops complete
complete-Punctual line device s = same_queue s s refl refl

clock_tick-Ends_example :
    (o : Outcome (Machine ℕ)) × (clock_tick ops complete machine ≡ some o)
    × Always (λ d. due_callback d.bus.tod d.bus.event_q.events ≡ none) o
clock_tick-Ends_example = clock_tick-Ends ops complete complete-Punctual machine

step-RunsTo_example :
    (o : Outcome (Stepped ℕ)) × (step ops (clock_tick ops complete) 2 machine ≡ some o)
    × (s : Machine ℕ) × Begins machine s
    × RunsTo (round ops (clock_tick ops complete)) 2 s o
step-RunsTo_example = step-RunsTo ops complete complete-Punctual 2 machine
