-- ===== src/Device/Flash.antt =====
-- `FlashDevice` of uriscv/device.cc.
pub mod Coherence
pub mod Completion
pub mod Reachable
pub mod Transfer
mod Tests
use uriscv.Prelude.{
  ℕ, ◌+◌, ◌*◌, ◌/◌, ◌%◌, ◌^◌, Bool, true, false, not, ◌&&◌, ◌||◌, Option, none, some, ltb, ◌==◌,
  if◌then◌else◌, update, max_word,
}
use uriscv.Outcome.{Outcome, runs, exits, ◌>>=◌}
use uriscv.Bus.Transfer.{Block, block_size}
use uriscv.Device.{ready, iloperr, busy, reset, ack, status, command, data0, io_delay}
use uriscv.Device.Block.{Timed, Moved, BusPort, BlockFile}

abbrev pub freadblk : ℕ
freadblk = 2

abbrev pub fwriteblk : ℕ
fwriteblk = 3

abbrev pub freaderr : ℕ
freaderr = 4

abbrev pub fwriterr : ℕ
fwriterr = 5

abbrev pub fdmaerr : ℕ
fdmaerr = 6

abbrev pub flashreset_time : ℕ
flashreset_time = 400

abbrev pub dma_ticks : ℕ
dma_ticks = block_size

-- The registers, the buffer with the number of its block, the image file with the offset of its
-- blocks in words, and the parameters that were read from it.
pub record FlashDevice (F : Type 0) : Type 0 where
  pub reg : ℕ → ℕ
  pub is_working : Bool
  pub compl_time : ℕ
  pub block_buf : ℕ
  pub flash_buf : Block
  pub file : F
  pub flash_ofs : ℕ
  pub blocks_num : ℕ
  pub w_time : ℕ

pub record FlashActed (F W : Type 0) : Type 0 where
  pub flash : FlashDevice F
  pub bus : W

-- The block that a command names, and the offset of a block in bytes.
abbrev pub block_of : ℕ → ℕ
block_of word = word / 2 ^ 8 % 2 ^ 24

module _ {F : Type 0} where
  abbrev pub byte_offset : FlashDevice F → ℕ → ℕ
  byte_offset f block = (f.flash_ofs + block * block_size) * 4 % 2 ^ 32

  unfoldable pub with_reg : FlashDevice F → ℕ → ℕ → FlashDevice F
  with_reg f i v = record f { reg = update f.reg i v }

  abbrev pub with_status : FlashDevice F → ℕ → FlashDevice F
  with_status f v = record f { reg = update f.reg status v }

-- A device as it is built, on a file with its parameters and whatever its buffer's memory has.
unfoldable pub flash_built : {F : Type 0} → F → ℕ → ℕ → ℕ → Block → FlashDevice F
flash_built file flash_ofs blocks_num w_time buffer = record {
  reg = update (update (λ _. 0) status ready) 3 blocks_num;
  is_working = true;
  compl_time = 0;
  block_buf = max_word;
  flash_buf = buffer;
  file = file;
  flash_ofs = flash_ofs;
  blocks_num = blocks_num;
  w_time = w_time;
}

module _ {F W : Type 0} (files : BlockFile F) (port : BusPort W) where
  -- A change of the status, with the interrupt of an operation that is over.
  unfoldable pub over : FlashDevice F → W → Outcome (FlashActed F W)
  over f w = do v ← port.int_req w; runs (record { flash = f; bus = v })

  unfoldable pub begun : FlashDevice F → W → ℕ → Outcome (FlashActed F W)
  begun f w delay = do
    t ← port.schedule_io w delay
    runs (record {
      flash = record f { reg = update f.reg status busy; compl_time = t.deadline };
      bus = t.bus;
    })

  -- A read of the block in the buffer is sooner done; another one makes the buffer invalid.
  unfoldable pub begin_read : FlashDevice F → W → ℕ → ℕ → Outcome (FlashActed F W)
  unfolding begun
  begin_read f w clock_rate block =
      if block == f.block_buf
      then begun f w dma_ticks
      else begun (record f { block_buf = max_word }) w
          ((f.w_time * 3 % 2 ^ 32 / 4 * clock_rate + dma_ticks) % 2 ^ 32)

  unfoldable pub begin_write : FlashDevice F → W → ℕ → ℕ → Outcome (FlashActed F W)
  unfolding begun
  begin_write f w clock_rate block = do
    m ← port.dma_transfer w f.flash_buf (f.reg data0) false
    if m.error
        then begun (record f { block_buf = max_word; flash_buf = m.block }) m.bus dma_ticks
        else begun (record f { block_buf = block; flash_buf = m.block }) m.bus
            ((f.w_time * clock_rate + dma_ticks) % 2 ^ 32)

  unfoldable pub flash_command : FlashDevice F → W → ℕ → ℕ → Outcome (FlashActed F W)
  unfolding over begun begin_read begin_write
  flash_command f w clock_rate word =
      let code = word % 2 ^ 8 in
      let block = block_of word in
      if code == reset
      then (port.int_ack w
          >>= (λ v. begun f v ((flashreset_time + f.w_time) * clock_rate % 2 ^ 32)))
      else if code == ack
      then (port.int_ack w >>= (λ v. runs (record { flash = with_status f ready; bus = v })))
      else if code == freadblk
      then (port.int_ack w >>= (λ v.
          if ltb block f.blocks_num
          then begin_read f v clock_rate block
          else over (with_status f freaderr) v))
      else if code == fwriteblk
      then (port.int_ack w >>= (λ v.
          if ltb block f.blocks_num
          then begin_write f v clock_rate block
          else over (with_status f fwriterr) v))
      else over (with_status f iloperr) w

  -- `WriteDevReg`: registers are written while the device is not busy.
  unfoldable pub flash_write : FlashDevice F → W → ℕ → ℕ → ℕ → Outcome (FlashActed F W)
  unfolding flash_command with_reg
  flash_write f w clock_rate regnum word =
      if f.reg status == busy
      then runs (record { flash = f; bus = w })
      else if regnum == command
      then flash_command (with_reg f command word) w clock_rate word
      else if regnum == data0
      then runs (record { flash = with_reg f data0 word; bus = w })
      else runs (record { flash = f; bus = w })

  -- The block that a read sends to memory: the buffer's if that is valid, else the file's. A file
  -- that cannot be read is a panic.
  unfoldable pub wanted : FlashDevice F → ℕ → Option Block
  wanted f block =
      if not (f.block_buf == max_word)
      then some f.flash_buf
      else files.read_block f.file (byte_offset f block)

  unfoldable pub complete_read : FlashDevice F → W → ℕ → Outcome (FlashActed F W)
  unfolding over wanted
  complete_read f w block = elim (wanted f block) [
    | none ↦ exits
    | some blk ↦
        (port.dma_transfer w blk (f.reg data0) true >>= (λ m.
          over
            (record f {
              block_buf = block;
              flash_buf = blk;
              reg = update f.reg status (if m.error then fdmaerr else ready);
            })
            m.bus))
  ]

  unfoldable pub complete_write : FlashDevice F → W → ℕ → Outcome (FlashActed F W)
  unfolding over
  complete_write f w block = elim (files.write_block f.file (byte_offset f block) f.flash_buf) [
    | none ↦ exits
    | some file ↦ over (record f { file = file; reg = update f.reg status ready }) w
  ]

  -- `CompleteDevOp`.
  unfoldable pub flash_complete : FlashDevice F → W → Outcome (FlashActed F W)
  unfolding over complete_read complete_write
  flash_complete f w =
      let code = f.reg command % 2 ^ 8 in
      let block = block_of (f.reg command) in
      let failed : ℕ → FlashDevice F =
        λ err. record f { block_buf = max_word; reg = update f.reg status err } in
      if code == reset
      then over (record f { block_buf = max_word; reg = update f.reg status ready }) w
      else if code == freadblk
      then if f.is_working then complete_read f w block else over (failed freaderr) w
      else if code == fwriteblk
      then if f.is_working then complete_write f w block else over (failed fwriterr) w
      else exits
