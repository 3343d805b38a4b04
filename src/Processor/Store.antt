-- ===== src/Processor/Store.antt =====
-- `execInstrS`.
use uriscv.Prelude.{ℕ, true, false, ◌==◌, if◌then◌else◌, add32}
use uriscv.Outcome.{Outcome, ◌>>=◌}
use uriscv.Processor.Constants.{access_write, exc_ii}
use uriscv.Processor.State.{reg_read, signal_exc, advance}
use uriscv.Processor.Translate.{map_virtual}
use uriscv.Processor.Bytes.{align, byte_pos, hword_pos, merge_byte, merge_hword}
use uriscv.Processor.Decode.{rs1, rs2, func3, store_imm}
use uriscv.Processor.Access.{BusOps, Core, Step, data_read, data_write, with_cpu, step}

module _ {W : Type 0} (b : BusOps W) where
  -- SB and SH: translate, read the old word, write it back changed. The next instruction is set
  -- also where the write fails.
  unfoldable pub store_part : Core W → ℕ → (ℕ → ℕ) → Outcome (Step W)
  store_part c vaddr merged =
      let m = map_virtual c.cpu vaddr access_write in
      let rest = (do
        old ← data_read b (with_cpu c m.cpu) m.paddr
        let written = (do
          w ← data_write b old.core m.paddr (merged old.value)
          step (with_cpu w.core (advance w.core.cpu)) w.exc)
        (if old.failed then step old.core true else written)) in
      if m.failed then step (with_cpu c m.cpu) true else rest

  -- SW: only a write that succeeds sets the next instruction.
  unfoldable pub store_word : Core W → ℕ → ℕ → Outcome (Step W)
  store_word c vaddr v =
      let m = map_virtual c.cpu vaddr access_write in
      let rest = (do
        w ← data_write b (with_cpu c m.cpu) m.paddr v
        (if w.exc then step w.core true else step (with_cpu w.core (advance w.core.cpu)) false)) in
      if m.failed then step (with_cpu c m.cpu) true else rest

  unfoldable pub exec_store : Core W → ℕ → Outcome (Step W)
  unfolding store_part store_word signal_exc
  exec_store c i =
      let vaddr = add32 (reg_read c.cpu (rs1 i)) (store_imm i) in
      let v = reg_read c.cpu (rs2 i) in
      let f = func3 i in
      if f == 0x0
      then store_part c (align vaddr) (λ old. merge_byte old v (byte_pos vaddr))
      else if f == 0x1
      then store_part c (align vaddr) (λ old. merge_hword old v (hword_pos vaddr))
      else if f == 0x2
      then store_word c vaddr v
      else step (with_cpu c (signal_exc c.cpu exc_ii 0)) true
