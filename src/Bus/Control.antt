-- ===== src/Bus/Control.antt =====
-- uriscv/mp_controller.cc and uriscv/time_stamp.h: the registers that start and stop processors,
-- and the halves of the 64-bit time.
use uriscv.Prelude.{
  ℕ, ◌*◌, ◌/◌, ◌%◌, ◌^◌, ◌&&◌, Option, none, some, ltb, ◌==◌, if◌then◌else◌, bit_or, bit_and,
}

abbrev pub mctl_ncpus : ℕ
mctl_ncpus = 0x10000500

abbrev pub mctl_reset_cpu : ℕ
mctl_reset_cpu = 0x10000504

abbrev pub mctl_boot_pc : ℕ
mctl_boot_pc = 0x10000508

abbrev pub mctl_boot_sp : ℕ
mctl_boot_sp = 0x1000050c

abbrev pub mctl_halt_cpu : ℕ
mctl_halt_cpu = 0x10000510

abbrev pub mctl_power : ℕ
mctl_power = 0x10000514

abbrev pub mctl_end : ℕ
mctl_end = 0x10000518

-- What is scheduled for a processor or the machine, and for the other parts of the bus: the end of
-- a device's operation and the delivery of a message.
pub data Callback : Type 0 where
  complete_op : (line device : ℕ) → Callback
  deliver : (origin outbox : ℕ) → Callback
  reset_cpu : (id pc sp : ℕ) → Callback
  halt_cpu : (id : ℕ) → Callback
  power_off : Callback

pub record MpController : Type 0 where
  pub boot_pc : ℕ
  pub boot_sp : ℕ

pub built : MpController
built = record { boot_pc = 0x1fc00000; boot_sp = 0 }

unfoldable pub mp_read : MpController → ℕ → ℕ → ℕ
mp_read c num_processors addr =
    if addr == mctl_ncpus
    then num_processors
    else if addr == mctl_boot_pc
    then c.boot_pc
    else if addr == mctl_boot_sp
    then c.boot_sp
    else 0

abbrev pub cpu_reset_delay : ℕ
cpu_reset_delay = 50

abbrev pub cpu_halt_delay : ℕ
cpu_halt_delay = 50

abbrev pub poweroff_delay : ℕ
poweroff_delay = 1000

-- A call of `scheduleEvent`.
pub record Scheduled : Type 0 where
  pub delay : ℕ
  pub callback : Callback

pub record MpWritten : Type 0 where
  pub controller : MpController
  pub scheduled : Option Scheduled

-- `Write`, with the number of processors and the clock rate.
unfoldable pub mp_write : MpController → ℕ → ℕ → ℕ → ℕ → MpWritten
mp_write c num_processors clock_rate addr word =
    let id = bit_and word 0xf in
    let later : ℕ → Callback → MpWritten = λ n k. record {
      controller = c;
      scheduled = some (record { delay = n * clock_rate % 2 ^ 32; callback = k });
    } in
    if addr == mctl_reset_cpu && ltb id num_processors
    then later cpu_reset_delay (reset_cpu id c.boot_pc c.boot_sp)
    else if addr == mctl_boot_pc
    then record { controller = record c { boot_pc = word }; scheduled = none }
    else if addr == mctl_boot_sp
    then record { controller = record c { boot_sp = word }; scheduled = none }
    else if addr == mctl_halt_cpu && ltb id num_processors
    then later cpu_halt_delay (halt_cpu id)
    else if addr == mctl_power && word == 0xff
    then later poweroff_delay power_off
    else record { controller = c; scheduled = none }

-- `TimeStamp`: the halves of the time of day, and the writes of a half.
unfoldable pub get_hi : ℕ → ℕ
get_hi ts = ts / 2 ^ 32

unfoldable pub get_lo : ℕ → ℕ
get_lo ts = ts % 2 ^ 32

unfoldable pub set_hi : ℕ → ℕ → ℕ
unfolding get_lo
set_hi ts value = bit_or (get_lo ts) (value * 2 ^ 32)

-- The high half is not shifted back.
unfoldable pub set_lo : ℕ → ℕ → ℕ
unfolding get_hi
set_lo ts value = bit_or (get_hi ts) value
