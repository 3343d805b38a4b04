-- ===== src/Processor.antt =====
-- uriscv/processor.cc: one emulated processor. Each child models a part of the class.
pub mod Constants
pub mod State
pub mod Tlb
pub mod Trap
pub mod Translate
pub mod Bytes
pub mod Decode
pub mod Access
pub mod Alu
pub mod Load
pub mod Store
pub mod Branch
pub mod System
pub mod Cycle
pub mod Mode
mod Tests
