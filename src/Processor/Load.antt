-- ===== src/Processor/Load.antt =====
-- `execInstrL`.
use uriscv.Prelude.{ℕ, true, false, ◌==◌, if◌then◌else◌, add32}
use uriscv.Outcome.{Outcome, ◌>>=◌}
use uriscv.Processor.Constants.{access_read, exc_ii}
use uriscv.Processor.State.{reg_read, reg_write, signal_exc, advance}
use uriscv.Processor.Translate.{map_virtual}
use uriscv.Processor.Bytes.{
  align, byte_pos, hword_pos, sign_ext_byte, z_ext_byte, sign_ext_hword, z_ext_hword,
}
use uriscv.Processor.Decode.{rd, rs1, func3, load_imm}
use uriscv.Processor.Access.{BusOps, Core, Step, data_read, with_cpu, step}

module _ {W : Type 0} (b : BusOps W) where
  -- Translate, read, take a part of the word into `rd` and go on; or report the exception.
  unfoldable pub load : Core W → ℕ → ℕ → (ℕ → ℕ) → Outcome (Step W)
  load c vaddr d part =
      let m = map_virtual c.cpu vaddr access_read in
      let rest = (do
        r ← data_read b (with_cpu c m.cpu) m.paddr
        (if r.failed
            then step r.core true
            else step (with_cpu r.core (advance (reg_write r.core.cpu d (part r.value)))) false)) in
      if m.failed then step (with_cpu c m.cpu) true else rest

  unfoldable pub exec_load : Core W → ℕ → Outcome (Step W)
  unfolding load signal_exc
  exec_load c i =
      let vaddr = add32 (reg_read c.cpu (rs1 i)) (load_imm i) in
      let f = func3 i in
      if f == 0x0
      then load c (align vaddr) (rd i) (λ w. sign_ext_byte w (byte_pos vaddr))
      else if f == 0x1
      then load c (align vaddr) (rd i) (λ w. sign_ext_hword w (hword_pos vaddr))
      else if f == 0x2
      then load c vaddr (rd i) (λ w. w)
      else if f == 0x4
      then load c (align vaddr) (rd i) (λ w. z_ext_byte w (byte_pos vaddr))
      else if f == 0x5
      then load c (align vaddr) (rd i) (λ w. z_ext_hword w (hword_pos vaddr))
      else step (with_cpu c (signal_exc c.cpu exc_ii 0)) true
