-- ===== src/Device/Flash/Completion.antt =====
-- The ends of a flash device's operations keep its buffer coherent.
use uriscv.Prelude.{
  ℕ, ◌%◌, ◌≡◌, refl, sym, ◌∙◌, ap, Bool, true, false, some, ◌==◌, if◌then◌else◌, max_word,
  Bool-cases, Option-cases, inl, inr, arith,
}
use uriscv.Processor.Mode.{Always-any, Always-if}
use uriscv.Bus.Transfer.{Block}
use uriscv.Device.{busy, command, data0}
use uriscv.Device.Block.{BusPort, BlockFile, ReadsBack}
use uriscv.Device.Flash.{
  FlashDevice, FlashActed, block_of, byte_offset, freadblk, fwriteblk, wanted, complete_read,
  complete_write, flash_complete, with_status,
}
use uriscv.Device.Flash.Coherence.{is_busy, code_of, IsCoherent, Coherently, over-IsCoherent, rests}

not_busy : (b : Bool) → ((if b then 6 else 1) == 3) ≡ false
not_busy true = refl
not_busy false = refl

module _ {F W : Type 0} (files : BlockFile F) (port : BusPort W) where
  file-wanted :
      (f : FlashDevice F) (blk : Block)
      → IsCoherent files port f
      → is_busy files port f ≡ true
      → code_of files port f ≡ freadblk
      → wanted files port f (block_of (f.reg command)) ≡ some blk
      → files.read_block f.file (byte_offset f (block_of (f.reg command))) ≡ some blk
  unfolding wanted
  file-wanted f blk h on reads found = elim (Bool-cases (f.block_buf == max_word)) [
    | inl invalid ↦ ground (arith, found, invalid)
    | inr valid ↦
        let same = h.named on (ground (arith, reads)) valid in
        let kept = h.cached (ground (arith, reads)) valid in
        let here : some f.flash_buf ≡ some blk = ground (arith, found, valid) in
        ap (λ b. files.read_block f.file (byte_offset f b)) (sym same) ∙ kept ∙ here
  ]

  complete_read-IsCoherent :
      (f : FlashDevice F) (w : W)
      → IsCoherent files port f
      → is_busy files port f ≡ true
      → code_of files port f ≡ freadblk
      → Coherently files port (complete_read files port f w (block_of (f.reg command)))
  unfolding complete_read
  complete_read-IsCoherent f w h on reads =
      elim (Option-cases (wanted files port f (block_of (f.reg command)))) [
        | inl lost ↦ rw (complete_read, lost) tt
        | inr (blk, found) ↦
            let stored = file-wanted f blk h on reads found in
            rw (complete_read, found)
              (Always-any (λ r. IsCoherent files port r.flash)
                (port.dma_transfer w blk (f.reg data0) true) _
                (λ m. over-IsCoherent files port _ m.bus (
                  rests files port
                    (record f { block_buf = block_of (f.reg command); flash_buf = blk })
                    (if m.error then 6 else 1) (not_busy m.error) (λ valid. stored))))
      ]

  complete_write-IsCoherent :
      (f : FlashDevice F) (w : W)
      → ReadsBack files
      → IsCoherent files port f
      → is_busy files port f ≡ true
      → code_of files port f ≡ fwriteblk
      → Coherently files port (complete_write files port f w (block_of (f.reg command)))
  unfolding complete_write
  complete_write-IsCoherent f w law h on writes =
      elim (Option-cases
        (files.write_block f.file (byte_offset f (block_of (f.reg command))) f.flash_buf)) [
          | inl lost ↦ rw (complete_write, lost) tt
          | inr (file, wrote) ↦
              let back =
                law.reads_back f.file file (byte_offset f (block_of (f.reg command))) f.flash_buf
                  wrote in
              rw (complete_write, wrote)
                (over-IsCoherent files port _ w (
                  rests files port (record f { file = file }) 1 refl
                    (λ valid.
                      ap (λ b. files.read_block file (byte_offset f b))
                        (h.named on (ground (arith, writes)) valid)
                      ∙ back)))
        ]

  emptied :
      (f : FlashDevice F) (v : ℕ)
      → (v == busy) ≡ false
      → IsCoherent files port (with_status (record f { block_buf = max_word }) v)
  emptied f v idle =
      rests files port (record f { block_buf = max_word }) v idle
        (λ valid. absurd (ground (arith, valid)))

  pub flash_complete-IsCoherent :
      (f : FlashDevice F) (w : W)
      → ReadsBack files
      → IsCoherent files port f
      → is_busy files port f ≡ true
      → Coherently files port (flash_complete files port f w)
  unfolding flash_complete
  flash_complete-IsCoherent f w law h on =
      let P : FlashActed F W → Type 0 = λ r. IsCoherent files port r.flash in
      elim (Bool-cases (f.reg 1 % 256 == 0)) [
        | inl resets ↦
            rw (flash_complete, resets) (over-IsCoherent files port _ w (emptied f 1 refl))
        | inr a ↦ elim (Bool-cases (f.reg 1 % 256 == 2)) [
          | inl reads ↦
              rw (flash_complete, a, reads)
                (Always-if P f.is_working _ _
                  (complete_read-IsCoherent f w h on (ground (arith, reads)))
                  (over-IsCoherent files port _ w (emptied f 4 refl)))
          | inr b ↦ elim (Bool-cases (f.reg 1 % 256 == 3)) [
            | inl writes ↦
                rw (flash_complete, a, b, writes)
                  (Always-if P f.is_working _ _
                    (complete_write-IsCoherent f w law h on (ground (arith, writes)))
                    (over-IsCoherent files port _ w (emptied f 5 refl)))
            | inr c ↦ rw (flash_complete, a, b, c) tt
          ]
        ]
      ]
