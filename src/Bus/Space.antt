-- ===== src/Bus/Space.antt =====
-- uriscv/memspace.cc and its header: arrays of words behind the bus. What files fill them with is
-- part of the state that they are built with.
use uriscv.Prelude.{ℕ, ◌*◌, ◌%◌, ◌^◌, ltb, if◌then◌else◌, update}
use uriscv.Outcome.{Outcome, runs, exits}

-- The words of a space, and how many there are.
pub record Memory : Type 0 where
  pub words : ℕ → ℕ
  pub size : ℕ

-- `Size`, in bytes.
unfoldable pub byte_size : Memory → ℕ
byte_size m = m.size * 4 % 2 ^ 32

-- `RamSpace::MemRead`, `RamSpace::MemWrite` and `BiosSpace::MemRead`.
unfoldable pub ram_read : Memory → ℕ → ℕ
ram_read m i = m.words i

unfoldable pub ram_write : Memory → ℕ → ℕ → Memory
ram_write m i v = record m { words = update m.words i v }

unfoldable pub bios_read : Memory → ℕ → Outcome ℕ
bios_read m i = if ltb i m.size then runs (m.words i) else exits
