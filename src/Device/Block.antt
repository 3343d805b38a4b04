-- ===== src/Device/Block.antt =====
-- What block devices need of the rest: the bus, and files of blocks (`Block::ReadBlock` and
-- `Block::WriteBlock` of uriscv/blockdev.cc), which the host keeps.
use uriscv.Prelude.{ℕ, ◌≡◌, Bool, Option, some}
use uriscv.Outcome.{Outcome}
use uriscv.Bus.Transfer.{Block}

-- The bus after a call, with the deadline of the event, and with the block and the error of DMA.
pub record Timed (W : Type 0) : Type 0 where
  pub bus : W
  pub deadline : ℕ

pub record Moved (W : Type 0) : Type 0 where
  pub bus : W
  pub block : Block
  pub error : Bool

-- `getToDLO`, `IntReq`, `IntAck`, `scheduleIOEvent` and `DMATransfer`, for one device.
pub record BusPort (W : Type 0) : Type 0 where
  pub get_tod_lo : W → ℕ
  pub int_req : W → Outcome W
  pub int_ack : W → Outcome W
  pub schedule_io : W → ℕ → Outcome (Timed W)
  pub dma_transfer : W → Block → ℕ → Bool → Outcome (Moved W)

-- Reads and writes at an offset in bytes; none where the host fails.
pub record BlockFile (F : Type 0) : Type 0 where
  pub read_block : F → ℕ → Option Block
  pub write_block : F → ℕ → Block → Option F

-- A block that is written is read back.
pub record ReadsBack {F : Type 0} (files : BlockFile F) : Type 0 where
  pub reads_back :
      (f after : F) (ofs : ℕ) (blk : Block)
      → files.write_block f ofs blk ≡ some after
      → files.read_block after ofs ≡ some blk
