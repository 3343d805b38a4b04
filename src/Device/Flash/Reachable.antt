-- ===== src/Device/Flash/Reachable.antt =====
-- A flash device through every sequence of its operations.
use uriscv.Prelude.{ℕ, ◌≡◌, Bool, true, ◌==◌, some, update, arith, if◌then◌else◌, ◌%◌, ◌^◌}
use mathlib.Core.Path.{subst}
use uriscv.Outcome.{runs, ◌>>=◌}
use uriscv.Bus.Transfer.{Block}
use uriscv.Device.{busy, status, command, data0, ready}
use uriscv.Device.Block.{BusPort, BlockFile, ReadsBack}
use uriscv.Device.Flash.{
  FlashDevice, FlashActed, flash_built, flash_write, flash_complete, freadblk, fdmaerr, block_of,
  byte_offset,
}
use uriscv.Device.Flash.Coherence.{
  IsCoherent, Coherently, flash_write-IsCoherent, flash_complete-read,
}
use uriscv.Device.Flash.Completion.{flash_complete-IsCoherent}

module _ {F W : Type 0} (files : BlockFile F) (port : BusPort W) where
  -- A register is written, the operation of a busy device ends, the device fails or is repaired,
  -- whatever the bus is like.
  pub data Reachable : FlashDevice F → Type 0 where
    begins :
        (file : F) (flash_ofs blocks_num w_time : ℕ) (buffer : Block)
        → Reachable (flash_built file flash_ofs blocks_num w_time buffer)
    writes :
        {f : FlashDevice F} (w : W) (clock_rate regnum word : ℕ) (r : FlashActed F W)
        → Reachable f
        → flash_write files port f w clock_rate regnum word ≡ runs r
        → Reachable r.flash
    completes :
        {f : FlashDevice F} (w : W) (r : FlashActed F W)
        → Reachable f
        → (f.reg status == busy) ≡ true
        → flash_complete files port f w ≡ runs r
        → Reachable r.flash
    breaks :
        {f : FlashDevice F} (working : Bool)
        → Reachable f
        → Reachable (record f { is_working = working })

  flash_built-IsCoherent :
      (file : F) (flash_ofs blocks_num w_time : ℕ) (buffer : Block)
      → IsCoherent files port (flash_built file flash_ofs blocks_num w_time buffer)
  unfolding flash_built
  flash_built-IsCoherent file flash_ofs blocks_num w_time buffer = record {
    named = λ on. absurd (ground (arith, on));
    cached = λ away valid. absurd (ground (arith, valid));
  }

  Reachable-IsCoherent :
      (f : FlashDevice F) → ReadsBack files → Reachable f → IsCoherent files port f
  Reachable-IsCoherent _ law (begins file ofs num time buffer) =
      flash_built-IsCoherent file ofs num time buffer
  Reachable-IsCoherent _ law (writes {f} w rate regnum word r s e) =
      subst (Coherently files port) e
        (flash_write-IsCoherent files port f w rate regnum word (Reachable-IsCoherent f law s))
  Reachable-IsCoherent _ law (completes {f} w r s on e) =
      subst (Coherently files port) e
        (flash_complete-IsCoherent files port f w law (Reachable-IsCoherent f law s) on)
  Reachable-IsCoherent _ law (breaks {f} working s) =
      let h = Reachable-IsCoherent f law s in record { named = h.named; cached = h.cached }

  -- Whatever a flash device has been through, with a file from which a written block is read back,
  -- its buffer is not seen: at the end of a read, a working device sends to memory the block that
  -- its file has under the number in the command, reports whether that went well, and requests its
  -- interrupt.
  pub Reachable-flash_complete :
      (f : FlashDevice F) (w : W) (blk : Block)
      → ReadsBack files
      → Reachable f
      → (f.reg status == busy) ≡ true
      → f.reg command % 2 ^ 8 ≡ freadblk
      → f.is_working ≡ true
      → files.read_block f.file (byte_offset f (block_of (f.reg command))) ≡ some blk
      → flash_complete files port f w ≡ (
          port.dma_transfer w blk (f.reg data0) true >>= (λ m. port.int_req m.bus >>= (λ v.
            runs (record {
              flash = record f {
                block_buf = block_of (f.reg command);
                flash_buf = blk;
                reg = update f.reg status (if m.error then fdmaerr else ready);
              };
              bus = v;
            }))))
  Reachable-flash_complete f w blk law s on reads works stored =
      flash_complete-read files port f w blk (Reachable-IsCoherent f law s) on reads works stored
