-- ===== src/Device/Flash/Coherence.antt =====
-- The buffer of a flash device, next to the blocks of its file.
use uriscv.Prelude.{
  ℕ, ◌%◌, ◌^◌, ◌≡◌, refl, sym, ◌∙◌, ap, Bool, true, false, ◌&&◌, ◌||◌, some, ltb, ◌==◌,
  if◌then◌else◌, update, max_word, Bool-cases, inl, inr, arith,
}
use uriscv.Outcome.{Outcome, runs, ◌>>=◌}
use uriscv.Processor.Mode.{Always, Always-any, Always-if}
use uriscv.Bus.Transfer.{Block}
use uriscv.Device.{busy, status, command, data0, ready, reset}
use uriscv.Device.Block.{BusPort, BlockFile}
use uriscv.Device.Flash.{
  FlashDevice, FlashActed, block_of, byte_offset, freadblk, fwriteblk, fdmaerr, over, begun,
  begin_read, begin_write, flash_command, flash_write, wanted, complete_read, flash_complete,
  with_reg, with_status,
}

module _ {F W : Type 0} (files : BlockFile F) (port : BusPort W) where
  abbrev pub is_busy : FlashDevice F → Bool
  is_busy f = f.reg status == busy

  abbrev pub code_of : FlashDevice F → ℕ
  code_of f = f.reg command % 2 ^ 8

  -- The buffer is invalid or has a block of the file, but for a write that is not over; then, as in
  -- a read, its block is the one that the command names.
  pub record IsCoherent (f : FlashDevice F) : Type 0 where
    pub named :
        is_busy f ≡ true
        → (code_of f == freadblk || code_of f == fwriteblk) ≡ true
        → (f.block_buf == max_word) ≡ false
        → f.block_buf ≡ block_of (f.reg command)
    pub cached :
        (is_busy f && code_of f == fwriteblk) ≡ false
        → (f.block_buf == max_word) ≡ false
        → files.read_block f.file (byte_offset f f.block_buf) ≡ some f.flash_buf

  abbrev pub Coherently : Outcome (FlashActed F W) → Type 0
  Coherently o = Always (λ r. IsCoherent r.flash) o

  pub over-IsCoherent :
      (f : FlashDevice F) (w : W) → IsCoherent f → Coherently (over files port f w)
  unfolding over
  over-IsCoherent f w h = Always-any (λ r. IsCoherent r.flash) (port.int_req w) _ (λ v. h)

  wanted-file :
      (f : FlashDevice F) (blk : Block)
      → IsCoherent f
      → is_busy f ≡ true
      → code_of f ≡ freadblk
      → files.read_block f.file (byte_offset f (block_of (f.reg command))) ≡ some blk
      → wanted files port f (block_of (f.reg command)) ≡ some blk
  unfolding wanted
  wanted-file f blk h on reads stored = elim (Bool-cases (f.block_buf == max_word)) [
    | inl invalid ↦ rw (wanted, invalid) stored
    | inr valid ↦
        let same = h.named on (ground (arith, reads)) valid in
        let kept = h.cached (ground (arith, reads)) valid in
        rw (wanted, valid)
          (sym kept ∙ ap (λ b. files.read_block f.file (byte_offset f b)) same ∙ stored)
  ]

  -- A working device that completes a read sends the block of the file that the command names,
  -- whatever its buffer has.
  pub flash_complete-read :
      (f : FlashDevice F) (w : W) (blk : Block)
      → IsCoherent f
      → is_busy f ≡ true
      → code_of f ≡ freadblk
      → f.is_working ≡ true
      → files.read_block f.file (byte_offset f (block_of (f.reg command))) ≡ some blk
      → flash_complete files port f w ≡ (
          port.dma_transfer w blk (f.reg data0) true >>= (λ m. port.int_req m.bus >>= (λ v.
            runs (record {
              flash = record f {
                block_buf = block_of (f.reg command);
                flash_buf = blk;
                reg = update f.reg status (if m.error then fdmaerr else ready);
              };
              bus = v;
            }))))
  unfolding flash_complete complete_read over
  flash_complete-read f w blk h on reads works stored =
      let apart : (code_of f == reset) ≡ false = ground (arith, reads) in
      let now : (code_of f == freadblk) ≡ true = ground (arith, reads) in
      let dispatched : flash_complete files port f w
          ≡ complete_read files port f w (block_of (f.reg command)) =
        rw (flash_complete, apart, now, works) refl in
      dispatched ∙ rw (complete_read, wanted-file f blk h on reads stored) refl

  -- Changes of the status to one that is not that of a busy device.
  pub rests :
      (f : FlashDevice F) (v : ℕ)
      → (v == busy) ≡ false
      → ((f.block_buf == max_word) ≡ false
          → files.read_block f.file (byte_offset f f.block_buf) ≡ some f.flash_buf)
      → IsCoherent (with_status f v)
  rests f v idle kept = record {
    named = λ on. absurd (ground (arith, on, idle));
    cached = λ away. kept;
  }

  begun-IsCoherent :
      (f : FlashDevice F) (w : W) (delay : ℕ)
      → ((code_of f == freadblk || code_of f == fwriteblk) ≡ true
          → (f.block_buf == max_word) ≡ false
          → f.block_buf ≡ block_of (f.reg command))
      → ((code_of f == fwriteblk) ≡ false
          → (f.block_buf == max_word) ≡ false
          → files.read_block f.file (byte_offset f f.block_buf) ≡ some f.flash_buf)
      → Coherently (begun files port f w delay)
  unfolding begun
  begun-IsCoherent f w delay named kept =
      Always-any (λ r. IsCoherent r.flash) (port.schedule_io w delay) _
        (λ t. record { named = λ on. named; cached = kept })

  begin_read-IsCoherent :
      (f : FlashDevice F) (w : W) (clock_rate : ℕ)
      → (code_of f == fwriteblk) ≡ false
      → ((f.block_buf == max_word) ≡ false
          → files.read_block f.file (byte_offset f f.block_buf) ≡ some f.flash_buf)
      → Coherently (begin_read files port f w clock_rate (block_of (f.reg command)))
  unfolding begin_read
  begin_read-IsCoherent f w clock_rate code kept =
      elim (Bool-cases (block_of (f.reg command) == f.block_buf)) [
        | inl same ↦ rw same (begun-IsCoherent f w _ (λ c v. ground (arith, same)) (λ c. kept))
        | inr other ↦ rw other (
            begun-IsCoherent (record f { block_buf = max_word }) w _
              (λ c v. absurd (ground (arith, v))) (λ c v. absurd (ground (arith, v))))
      ]

  begin_write-IsCoherent :
      (f : FlashDevice F) (w : W) (clock_rate : ℕ)
      → code_of f ≡ fwriteblk
      → Coherently (begin_write files port f w clock_rate (block_of (f.reg command)))
  unfolding begin_write
  begin_write-IsCoherent f w clock_rate code =
      Always-any (λ r. IsCoherent r.flash) (port.dma_transfer w f.flash_buf (f.reg data0) false) _
        (λ m.
          Always-if (λ r. IsCoherent r.flash) m.error _ _
            (begun-IsCoherent (record f { block_buf = max_word; flash_buf = m.block }) m.bus _
              (λ c v. absurd (ground (arith, v))) (λ c v. absurd (ground (arith, v))))
            (begun-IsCoherent
              (record f { block_buf = block_of (f.reg command); flash_buf = m.block }) m.bus _
              (λ c v. refl) (λ c v. absurd (ground (arith, c, code)))))

  flash_command-IsCoherent :
      (f : FlashDevice F) (w : W) (clock_rate word : ℕ)
      → IsCoherent f
      → is_busy f ≡ false
      → Coherently (flash_command files port (with_reg f command word) w clock_rate word)
  unfolding flash_command with_reg
  flash_command-IsCoherent f w clock_rate word h idle =
      let g : FlashDevice F = record f { reg = update f.reg command word } in
      let kept : (f.block_buf == max_word) ≡ false
          → files.read_block f.file (byte_offset f f.block_buf) ≡ some f.flash_buf =
        h.cached (ground (arith, idle)) in
      let P : FlashActed F W → Type 0 = λ r. IsCoherent r.flash in
      let acked : (k : W → Outcome (FlashActed F W))
          → ((v : W) → Coherently (k v))
          → Coherently (port.int_ack w >>= k) =
        λ k c. Always-any P (port.int_ack w) k c in
      elim (Bool-cases (word % 256 == 0)) [
        | inl resets ↦
            rw (flash_command, resets)
              (acked _
                (λ v. begun-IsCoherent g v _ (λ c. absurd (ground (arith, c, resets))) (λ c. kept)))
        | inr a ↦ elim (Bool-cases (word % 256 == 1)) [
          | inl acks ↦ rw (flash_command, a, acks) (acked _ (λ v. rests g 1 refl kept))
          | inr b ↦ elim (Bool-cases (word % 256 == 2)) [
            | inl reads ↦
                rw (flash_command, a, b, reads)
                  (acked _ (λ v.
                    Always-if P (ltb (block_of word) f.blocks_num) _ _
                      (begin_read-IsCoherent g v clock_rate (ground (arith, reads)) kept)
                      (over-IsCoherent (with_status g 4) v (rests g 4 refl kept))))
            | inr c ↦ elim (Bool-cases (word % 256 == 3)) [
              | inl sends ↦
                  rw (flash_command, a, b, c, sends)
                    (acked _ (λ v.
                      Always-if P (ltb (block_of word) f.blocks_num) _ _
                        (begin_write-IsCoherent g v clock_rate (ground (arith, sends)))
                        (over-IsCoherent (with_status g 5) v (rests g 5 refl kept))))
              | inr d ↦
                  rw (flash_command, a, b, c, d)
                    (over-IsCoherent (with_status g 2) w (rests g 2 refl kept))
            ]
          ]
        ]
      ]

  pub flash_write-IsCoherent :
      (f : FlashDevice F) (w : W) (clock_rate regnum word : ℕ)
      → IsCoherent f
      → Coherently (flash_write files port f w clock_rate regnum word)
  unfolding flash_write with_reg
  flash_write-IsCoherent f w clock_rate regnum word h = elim (Bool-cases (f.reg status == busy)) [
    | inl on ↦ rw (flash_write, on) h
    | inr idle ↦ elim (Bool-cases (regnum == 1)) [
      | inl commands ↦
          rw (flash_write, idle, commands) (flash_command-IsCoherent f w clock_rate word h idle)
      | inr a ↦ elim (Bool-cases (regnum == 2)) [
        | inl addresses ↦
            rw (flash_write, idle, a, addresses)
              (record { named = λ on. absurd (ground (arith, on, idle)); cached = h.cached })
        | inr b ↦ rw (flash_write, idle, a, b) h
      ]
    ]
  ]
