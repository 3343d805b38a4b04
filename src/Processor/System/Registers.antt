-- ===== src/Processor/System/Registers.antt =====
-- What the instructions on control registers read and write.
use uriscv.Processor.State.{Processor}
