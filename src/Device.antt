-- ===== src/Device.antt =====
-- uriscv/device.cc: the state that devices share, and what they ask of the bus. The strings that
-- describe a device's state to the user are left out.
pub mod Printer
pub mod Terminal
pub mod Block
pub mod Port
pub mod Flash
pub mod Disk
mod Tests
use uriscv.Prelude.{
  ℕ, ◌+◌, ◌*◌, ◌%◌, ◌^◌, Bool, true, false, not, List, [], ◌∷◌, ltb, ◌==◌, if◌then◌else◌, update,
}
use uriscv.Outcome.{Outcome, runs, exits}

-- Calls of `IntReq`, `IntAck` and `scheduleIOEvent` for the device, the last with its delay.
pub data Request : Type 0 where
  int_req int_ack : Request
  schedule_io : (delay : ℕ) → Request

abbrev pub ready : ℕ
ready = 1

abbrev pub iloperr : ℕ
iloperr = 2

abbrev pub busy : ℕ
busy = 3

abbrev pub reset : ℕ
reset = 0

abbrev pub ack : ℕ
ack = 1

abbrev pub status : ℕ
status = 0

abbrev pub command : ℕ
command = 1

abbrev pub data0 : ℕ
data0 = 2

-- The four registers of a device, and whether it works.
pub record Device : Type 0 where
  pub reg : ℕ → ℕ
  pub is_working : Bool
  pub compl_time : ℕ

-- An uninstalled device.
pub null_device : Device
null_device = record { reg = λ _. 0; is_working = false; compl_time = 0 }

-- `ReadDevReg`: a register that is not there is a panic.
pub read_reg : (ℕ → ℕ) → ℕ → Outcome ℕ
read_reg reg regnum = if ltb regnum 4 then runs (reg regnum) else exits

unfoldable pub set_reg : Device → ℕ → ℕ → Device
set_reg d i v = record d { reg = update d.reg i v }

pub is_busy : Device → Bool
is_busy d = d.reg status == busy

-- `setCondition`, on a device that is installed or not.
pub set_condition : Bool → Device → Bool → Device
set_condition installed d working = if installed then record d { is_working = working } else d

-- The delay of so many microseconds, and the deadline that `scheduleIOEvent` gives.
abbrev pub io_delay : ℕ → ℕ → ℕ
io_delay time clock_rate = time * clock_rate % 2 ^ 32

abbrev pub io_deadline : ℕ → ℕ → ℕ
io_deadline tod delay = (tod + delay) % 2 ^ 64
