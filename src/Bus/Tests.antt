-- ===== src/Bus/Tests.antt =====
-- The bus of a machine with a page of memory, whose devices are numbers that nothing changes.
use uriscv.Prelude.{
  ℕ, ◌/◌, ◌≡◌, refl, ap, true, false, ◌==◌, if◌then◌else◌, List, [], ◌∷◌, Option, none, some, arith,
}
use uriscv.Outcome.{Outcome, runs, exits}
use uriscv.Event.{Event}
use uriscv.Pic.{initial}
use uriscv.Pic.Registers.{deliver_ipi}
use uriscv.Bus.{SystemBus, Config, DeviceOps, Effect, Allocator, bus_read, bus_write}
use uriscv.Bus.Space.{Memory, byte_size}
use uriscv.Bus.Control.{Callback, complete_op, deliver, reset_cpu, halt_cpu, power_off}
use uriscv.Bus.Storage.{writable, bus_read-bus_write}
use uriscv.Bus.Transfer.{Transferred, dma_transfer}
use uriscv.Bus.Transfer.Round.{WritableRange, Stored, Loaded, dma_transfer-round}
use uriscv.Bus.Clock.{ticks, skip, idle_cycles, effect}
use uriscv.Bus.Idle.{IsTimed, ticks-skip}

abbrev page : Memory
page = record { words = λ i. i; size = 2048 }

abbrev config : Config
config = record { clock_rate = 1; num_processors = 1; tlb_floor_address = 0 }

abbrev numbers : DeviceOps ℕ
numbers = record {
  read_dev_reg = λ d field. runs d;
  write_dev_reg = λ b line device field word. runs (record { bus = b; irqs = [] });
}

abbrev next_node : Allocator
next_node _ = 1

abbrev machine : SystemBus ℕ
machine = record {
  tod = 100;
  timer = 50;
  event_q = record {
    events = record { addr = 1; deadline = 110; callback = complete_op 0 0 } ∷ [];
    last_ins = none;
  };
  ram = page;
  biosdata = page;
  bios = page;
  boot = page;
  dev_table = λ line device. 0;
  inst_dev_table = λ line. 0;
  pic = initial 1 (λ _ _. 0);
  mp_controller = record { boot_pc = 0x1fc00000; boot_sp = 0 };
}

bus_read-bus_write_example :
    (after : SystemBus ℕ) × (bus_write config numbers next_node machine 0x20000008 7 none
      ≡ runs (record { bus = after; irqs = []; failed = false }))
    × ((other : ℕ) (reader : Option ℕ)
        → bus_read config numbers after other reader ≡ (
            if other / 4 == 0x20000008 / 4
            then runs (record { value = 7; failed = false })
            else bus_read config numbers machine other reader))
    × ((other : ℕ)
        → writable config numbers next_node after other
          ≡ writable config numbers next_node machine other)
unfolding byte_size
bus_read-bus_write_example =
    bus_read-bus_write config numbers next_node machine 0x20000008 7 none refl

whole_page : WritableRange config numbers next_node machine 0x20000000 1024
unfolding byte_size
whole_page = (refl, omega arith, λ ofs h. ground (arith, h))

dma_transfer-round_example :
    (t u : Transferred ℕ) × (dma_transfer config numbers next_node machine
        (λ ofs. ofs)
        0x20000000
        true
      ≡ runs t)
    × (dma_transfer config numbers next_node t.bus (λ ofs. 0) 0x20000000 false ≡ runs u)
    × Stored config numbers next_node machine (λ ofs. ofs) 0x20000000 1024 t
    × Loaded config numbers next_node t.bus (λ ofs. ofs) 1024 u
dma_transfer-round_example =
    dma_transfer-round config numbers next_node machine (λ ofs. ofs) (λ ofs. 0) 0x20000000
      whole_page

-- Callbacks that deliver messages, and do nothing else.
abbrev messages : Callback → SystemBus ℕ → Outcome (Effect ℕ)
messages (complete_op line device) b = runs (record { bus = b; irqs = [] })
messages (deliver origin outbox) b = runs (record {
  bus = record b { pic = (deliver_ipi b.pic origin outbox).pic };
  irqs = (deliver_ipi b.pic origin outbox).irqs;
})
messages (reset_cpu id pc sp) b = runs (record { bus = b; irqs = [] })
messages (halt_cpu id) b = runs (record { bus = b; irqs = [] })
messages power_off b = exits

first_deadline : List (Event Callback) → ℕ
first_deadline [] = 0
first_deadline (e ∷ es) = e.deadline

machine-IsTimed : IsTimed machine
unfolding first_deadline
machine-IsTimed = record {
  tod_lt = omega arith;
  timer_lt = omega arith;
  deadline_lt = λ h rest e. omega (arith, ap first_deadline e);
}

ticks-skip_example : ticks messages machine 9 ≡ some (runs (effect (skip machine 9) []))
unfolding idle_cycles
ticks-skip_example = ticks-skip messages machine machine-IsTimed 9 (omega arith)
