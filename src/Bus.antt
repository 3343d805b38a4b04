-- ===== src/Bus.antt =====
-- uriscv/systembus.cc: the address map, the registers of the bus, and the operations that devices
-- call. The devices and the allocator of event nodes are parameters, and `HandleBusAccess`, which
-- tells the machine's observers of an access, is modelled with the machine.
pub mod Space
pub mod Area
pub mod Control
pub mod Storage
pub mod Clock
pub mod Idle
pub mod Transfer
mod Tests
use uriscv.Prelude.{
  ℕ, zero, suc, ◌+◌, ◌-◌, ◌*◌, ◌/◌, ◌%◌, ◌^◌, Bool, true, false, not, ◌&&◌, ◌||◌, List, [], ◌∷◌,
  ◌++◌, Option, none, some, ltb, leb, ◌==◌, if◌then◌else◌, max_word,
}
use uriscv.Outcome.{Outcome, runs, exits, undefined, ◌>>=◌}
use uriscv.Event.{EventQueue, insert_q}
use uriscv.Processor.Access.{Irq, Datum, Written, BusOps}
use uriscv.Pic.{InterruptController, Driven, start_irq, end_irq, il_timer}
use uriscv.Pic.Registers.{
  Posted, PicWritten, cdev_bitmap_base, cdev_bitmap_end, irt_base, irt_end, cpuctl_inbox,
  cpuctl_end,
}
use Space.{Memory, byte_size, ram_read, ram_write, bios_read}
use Area.{
  mmio_base, mmio_end, dev_reg_start, dev_reg_end, in_bounds, area_line, area_device, area_field,
}
use Control.{
  Callback, complete_op, deliver, MpController, MpWritten, Scheduled, mctl_ncpus, mctl_end, mp_read,
  mp_write, get_hi, get_lo,
}

abbrev pub ram_base : ℕ
ram_base = 0x20000000

abbrev pub bios_base : ℕ
bios_base = 0

abbrev pub bios_data_base : ℕ
bios_data_base = 0x0ffff000

abbrev pub boot_base : ℕ
boot_base = 0x1fc00000

abbrev pub dev_il_start : ℕ
dev_il_start = 17

abbrev pub bus_reg_timer : ℕ
bus_reg_timer = 0x10000020

-- What the bus reads of the configuration.
pub record Config : Type 0 where
  pub clock_rate : ℕ
  pub num_processors : ℕ
  pub tlb_floor_address : ℕ

-- The tables of devices have 5 rows of 8.
pub record SystemBus (D : Type 0) : Type 0 where
  pub tod : ℕ
  pub timer : ℕ
  pub event_q : EventQueue Callback
  pub ram : Memory
  pub biosdata : Memory
  pub bios : Memory
  pub boot : Memory
  pub dev_table : ℕ → ℕ → D
  pub inst_dev_table : ℕ → ℕ
  pub pic : InterruptController
  pub mp_controller : MpController

-- The state after an operation, with the lines that it moved.
pub record Effect (D : Type 0) : Type 0 where
  pub bus : SystemBus D
  pub irqs : List Irq

-- `ReadDevReg`, and `WriteDevReg` on the device of a line and a number.
pub record DeviceOps (D : Type 0) : Type 0 where
  pub read_dev_reg : D → ℕ → Outcome ℕ
  pub write_dev_reg : SystemBus D → ℕ → ℕ → ℕ → ℕ → Outcome (Effect D)

-- The address of a new node of the event queue.
abbrev pub Allocator : Type 0
Allocator = EventQueue Callback → ℕ

module _ {D : Type 0} where
  -- `scheduleEvent`.
  unfoldable pub schedule_event : Allocator → SystemBus D → ℕ → Callback → Outcome (SystemBus D)
  unfolding insert_q
  schedule_event alloc b delay callback =
      elim (insert_q (alloc b.event_q) b.event_q b.tod delay callback) [
        | none ↦ undefined
        | some (q, deadline) ↦ runs (record b { event_q = q })
      ]

  unfoldable pub driven : SystemBus D → Driven → Effect D
  driven b r = record { bus = record b { pic = r.pic }; irqs = r.irqs }

  -- `IntReq` and `IntAck`.
  unfoldable pub int_req : SystemBus D → ℕ → ℕ → Outcome (Effect D)
  unfolding driven
  int_req b intl dev = do r ← start_irq b.pic (dev_il_start + intl) dev; runs (driven b r)

  unfoldable pub int_ack : SystemBus D → ℕ → ℕ → Outcome (Effect D)
  unfolding driven
  int_ack b intl dev = do r ← end_irq b.pic (dev_il_start + intl) dev; runs (driven b r)

module _ {D : Type 0} (config : Config) (ops : DeviceOps D) where
  -- The registers at the low end of the area.
  unfoldable pub low_register : SystemBus D → ℕ → ℕ
  unfolding get_hi get_lo byte_size
  low_register b addr =
      if addr == 0x10000024
      then config.clock_rate
      else if addr == 0x10000018
      then get_hi b.tod
      else if addr == 0x1000001c
      then get_lo b.tod
      else if addr == bus_reg_timer
      then b.timer
      else if addr == 0x10000000
      then ram_base
      else if addr == 0x10000004
      then byte_size b.ram
      else if addr == 0x10000008
      then bios_base
      else if addr == 0x1000000c
      then byte_size b.bios
      else if addr == 0x10000010
      then boot_base
      else if addr == 0x10000014
      then byte_size b.boot
      else if addr == 0x10000028
      then config.tlb_floor_address
      else 0

  unfoldable pub bus_reg_read : SystemBus D → ℕ → Option ℕ → Outcome ℕ
  unfolding low_register mp_read area_line area_device area_field
  bus_reg_read b addr cpu =
      if in_bounds addr dev_reg_start dev_reg_end
      then ops.read_dev_reg (b.dev_table (area_line addr) (area_device addr)) (area_field addr)
      else if in_bounds addr 0x1000002c 0x10000040
      then runs (b.inst_dev_table ((addr - 0x1000002c) / 4))
      else if in_bounds addr cdev_bitmap_base cdev_bitmap_end
          || in_bounds addr irt_base irt_end
          || in_bounds addr cpuctl_inbox cpuctl_end
      then uriscv.Pic.Registers.read b.pic addr cpu
      else if in_bounds addr mctl_ncpus mctl_end
      then runs (mp_read b.mp_controller config.num_processors addr)
      else runs (low_register b addr)

  valid : Outcome ℕ → Outcome Datum
  valid o = do v ← o; runs (record { value = v; failed = false })

  unfoldable pub bus_read : SystemBus D → ℕ → Option ℕ → Outcome Datum
  unfolding valid bus_reg_read byte_size ram_read bios_read
  bus_read b addr cpu =
      if in_bounds addr ram_base (ram_base + byte_size b.ram)
      then valid (runs (ram_read b.ram ((addr - ram_base) / 4)))
      else if in_bounds addr bios_data_base (bios_data_base + byte_size b.biosdata)
      then valid (runs (ram_read b.biosdata ((addr - bios_data_base) / 4)))
      else if in_bounds addr bios_base (bios_base + byte_size b.bios)
      then valid (bios_read b.bios ((addr - bios_base) / 4))
      else if in_bounds addr boot_base (boot_base + byte_size b.boot)
      then valid (bios_read b.boot ((addr - boot_base) / 4))
      else if in_bounds addr mmio_base mmio_end
      then valid (bus_reg_read b addr cpu)
      else runs (record { value = max_word; failed = true })

module _ {D : Type 0} (config : Config) (ops : DeviceOps D) (alloc : Allocator) where
  written : SystemBus D → List Irq → Outcome (Written (SystemBus D))
  written b irqs = runs (record { bus = b; irqs = irqs; failed = false })

  -- What the interrupt controller posts is the delivery of a message.
  pic_written : SystemBus D → PicWritten → Outcome (Written (SystemBus D))
  unfolding written schedule_event
  pic_written b r =
      let after : SystemBus D = record b { pic = r.pic } in
      elim r.posted [
        | none ↦ written after r.irqs
        | some p ↦ do
          c ← schedule_event alloc after p.delay (deliver p.sender p.outbox)
          written c r.irqs
      ]

  mp_written : SystemBus D → MpWritten → Outcome (Written (SystemBus D))
  unfolding written schedule_event
  mp_written b r =
      let after : SystemBus D = record b { mp_controller = r.controller } in
      elim r.scheduled [
        | none ↦ written after []
        | some s ↦ do c ← schedule_event alloc after s.delay s.callback; written c []
      ]

  -- A write of the timer acknowledges its interrupt; the other low registers are read only.
  low_write : SystemBus D → ℕ → ℕ → Outcome (Written (SystemBus D))
  unfolding written
  low_write b addr word =
      if addr == bus_reg_timer
      then (end_irq b.pic il_timer 0
          >>= (λ r. written (record b { timer = word; pic = r.pic }) r.irqs))
      else written b []

  unfoldable pub register_write : SystemBus D → ℕ → ℕ → Option ℕ → Outcome (Written (SystemBus D))
  unfolding pic_written mp_written low_write written area_line area_device area_field
  register_write b addr word cpu =
      if in_bounds addr dev_reg_start dev_reg_end
      then (ops.write_dev_reg b (area_line addr) (area_device addr) (area_field addr) word
          >>= (λ e. written e.bus e.irqs))
      else if in_bounds addr irt_base irt_end || in_bounds addr cpuctl_inbox cpuctl_end
      then (uriscv.Pic.Registers.write b.pic config.clock_rate addr word cpu >>= pic_written b)
      else if in_bounds addr mctl_ncpus mctl_end
      then mp_written b (mp_write b.mp_controller config.num_processors config.clock_rate addr word)
      else low_write b addr word

  unfoldable pub bus_write : SystemBus D → ℕ → ℕ → Option ℕ → Outcome (Written (SystemBus D))
  unfolding byte_size ram_write register_write
  bus_write b addr word cpu =
      if in_bounds addr ram_base (ram_base + byte_size b.ram)
      then runs (record {
        bus = record b { ram = ram_write b.ram ((addr - ram_base) / 4) word };
        irqs = [];
        failed = false;
      })
      else if in_bounds addr bios_data_base (bios_data_base + byte_size b.biosdata)
      then runs (record {
        bus = record b { biosdata = ram_write b.biosdata ((addr - bios_data_base) / 4) word };
        irqs = [];
        failed = false;
      })
      else if in_bounds addr mmio_base mmio_end
      then register_write b addr word cpu
      else runs (record { bus = b; irqs = []; failed = true })

  -- The bus as the processors use it.
  pub system_bus : BusOps (SystemBus D)
  unfolding bus_read bus_write
  system_bus = record { bus_read = bus_read config ops; bus_write = bus_write }
