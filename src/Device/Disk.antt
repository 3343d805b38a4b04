-- ===== src/Device/Disk.antt =====
-- `DiskDevice` of uriscv/device.cc.
mod Ending
mod Rotation
use uriscv.Prelude.{
  ℕ, ◌+◌, ◌-◌, ◌*◌, ◌/◌, ◌%◌, ◌^◌, Bool, true, false, not, ◌&&◌, ◌||◌, Option, none, some, ltb,
  ◌==◌, if◌then◌else◌, update, max_word, bit_or,
}
use uriscv.Outcome.{Outcome, runs, exits, undefined, ◌>>=◌}
use uriscv.Bus.Transfer.{Block, block_size}
use uriscv.Device.{ready, iloperr, busy, reset, ack, status, command, data0}
use uriscv.Device.Block.{Timed, Moved, BusPort, BlockFile}
use uriscv.Device.Flash.{dma_ticks}

abbrev pub dseekcyl : ℕ
dseekcyl = 2

abbrev pub dreadblk : ℕ
dreadblk = 3

abbrev pub dwriteblk : ℕ
dwriteblk = 4

abbrev pub dseekerr : ℕ
dseekerr = 4

abbrev pub dreaderr : ℕ
dreaderr = 5

abbrev pub dwriterr : ℕ
dwriterr = 6

abbrev pub ddmaerr : ℕ
ddmaerr = 7

abbrev pub diskreset_time : ℕ
diskreset_time = 400

-- The geometry and the speed that are read from the image file.
pub record DiskParams : Type 0 where
  pub cyl_num : ℕ
  pub head_num : ℕ
  pub sect_num : ℕ
  pub rot_time : ℕ
  pub seek_time : ℕ
  pub data_sect : ℕ

-- A place on the disk: cylinder, head and sector.
pub record Place : Type 0 where
  pub cyl : ℕ
  pub head : ℕ
  pub sect : ℕ

pub record DiskDevice (F : Type 0) : Type 0 where
  pub reg : ℕ → ℕ
  pub is_working : Bool
  pub compl_time : ℕ
  pub buf_place : Place
  pub disk_buf : Block
  pub file : F
  pub disk_ofs : ℕ
  pub params : DiskParams
  pub sect_ticks : ℕ
  pub curr_cyl : ℕ

pub record DiskActed (F W : Type 0) : Type 0 where
  pub disk : DiskDevice F
  pub bus : W

-- The coordinates of a buffer that is not valid.
abbrev pub nowhere : Place
nowhere = record { cyl = max_word; head = max_word; sect = max_word }

-- The fields of a command.
abbrev pub cyl_of : ℕ → ℕ
cyl_of word = word / 2 ^ 8 % 2 ^ 16

abbrev pub head_of : ℕ → ℕ
head_of word = word / 2 ^ 16 % 2 ^ 8

abbrev pub sect_of : ℕ → ℕ
sect_of word = word / 2 ^ 8 % 2 ^ 8

-- The sectors that pass after the one under the head and before the wanted one.
unfoldable pub sectors_between : ℕ → ℕ → ℕ → ℕ
sectors_between curr_sect sect sect_num =
    if ltb curr_sect sect then sect - curr_sect - 1 else sect_num - 1 - (curr_sect - sect)

-- Ticks until a sector has passed, from a time on the disk's clock; a division by 0 is undefined.
unfoldable pub spin : ℕ → DiskParams → ℕ → ℕ → Outcome ℕ
spin sect_ticks params now sect =
    if sect_ticks == 0 || params.sect_num == 0
    then undefined
    else runs (
        (now % sect_ticks
          + sect_ticks * sectors_between (now / sect_ticks % params.sect_num) sect params.sect_num
          + sect_ticks * params.data_sect % 2 ^ 32 / 100
          + dma_ticks)
        % 2 ^ 32)

-- A device as it is built, on a file with its parameters and whatever its buffer's memory has.
unfoldable pub disk_built : {F : Type 0} → F → ℕ → DiskParams → ℕ → Block → Outcome (DiskDevice F)
disk_built file disk_ofs p clock_rate buffer =
    if p.sect_num == 0
    then undefined
    else runs (record {
      reg =
          update (update (λ _. 0) status ready) 3 (
            bit_or (bit_or (p.cyl_num * 2 ^ 16 % 2 ^ 32) (p.head_num * 2 ^ 8 % 2 ^ 32)) p.sect_num);
      is_working = true;
      compl_time = 0;
      buf_place = nowhere;
      disk_buf = buffer;
      file = file;
      disk_ofs = disk_ofs;
      params = p;
      sect_ticks = p.rot_time * clock_rate % 2 ^ 32 / p.sect_num;
      curr_cyl = 0;
    })

module _ {F : Type 0} where
  -- The place of an operation, and its offset in the file in bytes.
  abbrev pub target : DiskDevice F → ℕ → Place
  target f word = record { cyl = f.curr_cyl; head = head_of word; sect = sect_of word }

  abbrev pub place_offset : DiskDevice F → Place → ℕ
  place_offset f at =
      (f.disk_ofs
        + (at.cyl * f.params.head_num * f.params.sect_num + at.head * f.params.sect_num + at.sect)
          * block_size)
      * 4
      % 2 ^ 32

  abbrev pub on_disk : DiskDevice F → Place → Bool
  on_disk f at = ltb at.head f.params.head_num && ltb at.sect f.params.sect_num

  abbrev pub is_buffered : DiskDevice F → Place → Bool
  is_buffered f at =
      at.cyl == f.buf_place.cyl && at.head == f.buf_place.head && at.sect == f.buf_place.sect

  abbrev pub disk_status : DiskDevice F → ℕ → DiskDevice F
  disk_status f v = record f { reg = update f.reg status v }

module _ {F W : Type 0} (port : BusPort W) where
  unfoldable pub disk_over : DiskDevice F → W → Outcome (DiskActed F W)
  disk_over f w = do v ← port.int_req w; runs (record { disk = f; bus = v })

  unfoldable pub disk_begun : DiskDevice F → W → ℕ → Outcome (DiskActed F W)
  disk_begun f w delay = do
    t ← port.schedule_io w delay
    runs (record {
      disk = record f { reg = update f.reg status busy; compl_time = t.deadline };
      bus = t.bus;
    })

  -- The second acknowledgement of a seek is the source's.
  unfoldable pub begin_seek : DiskDevice F → W → ℕ → ℕ → Outcome (DiskActed F W)
  unfolding disk_begun disk_over
  begin_seek f w clock_rate cyl =
      if ltb cyl f.params.cyl_num
      then (port.int_ack w >>= (λ v. disk_begun f v (
          (f.params.seek_time
              * (if ltb cyl f.curr_cyl then f.curr_cyl - cyl else cyl - f.curr_cyl)
              * clock_rate
            + 1)
          % 2 ^ 32)))
      else disk_over (disk_status f dseekerr) w

  unfoldable pub begin_disk_read : DiskDevice F → W → Place → Outcome (DiskActed F W)
  unfolding disk_begun disk_over spin
  begin_disk_read f w at =
      if on_disk f at
      then if is_buffered f at
        then disk_begun f w dma_ticks
        else (spin f.sect_ticks f.params (port.get_tod_lo w) at.sect
            >>= (λ delay. disk_begun (record f { buf_place = nowhere }) w delay))
      else disk_over (disk_status f dreaderr) w

  unfoldable pub begin_disk_write : DiskDevice F → W → Place → Outcome (DiskActed F W)
  unfolding disk_begun disk_over spin
  begin_disk_write f w at =
      if on_disk f at
      then (port.dma_transfer w f.disk_buf (f.reg data0) false >>= (λ m.
          if m.error
          then disk_begun (record f { buf_place = nowhere; disk_buf = m.block }) m.bus dma_ticks
          else (spin f.sect_ticks f.params ((port.get_tod_lo m.bus + dma_ticks) % 2 ^ 32) at.sect
              >>= (λ delay.
                  disk_begun (record f { buf_place = at; disk_buf = m.block }) m.bus delay))))
      else disk_over (disk_status f dwriterr) w

  unfoldable pub disk_command : DiskDevice F → W → ℕ → ℕ → Outcome (DiskActed F W)
  unfolding disk_begun disk_over begin_seek begin_disk_read begin_disk_write
  disk_command f w clock_rate word =
      let code = word % 2 ^ 8 in
      if code == reset
      then (port.int_ack w >>= (λ v.
          disk_begun f v
            ((diskreset_time + f.params.seek_time * f.curr_cyl) * clock_rate % 2 ^ 32)))
      else if code == ack
      then (port.int_ack w >>= (λ v. runs (record { disk = disk_status f ready; bus = v })))
      else if code == dseekcyl
      then (port.int_ack w >>= (λ v. begin_seek f v clock_rate (cyl_of word)))
      else if code == dreadblk
      then (port.int_ack w >>= (λ v. begin_disk_read f v (target f word)))
      else if code == dwriteblk
      then (port.int_ack w >>= (λ v. begin_disk_write f v (target f word)))
      else disk_over (disk_status f iloperr) w

  -- `WriteDevReg`: registers are written while the device is not busy.
  unfoldable pub disk_write : DiskDevice F → W → ℕ → ℕ → ℕ → Outcome (DiskActed F W)
  unfolding disk_command
  disk_write f w clock_rate regnum word =
      if f.reg status == busy
      then runs (record { disk = f; bus = w })
      else if regnum == command
      then disk_command (record f { reg = update f.reg command word }) w clock_rate word
      else if regnum == data0
      then runs (record { disk = record f { reg = update f.reg data0 word }; bus = w })
      else runs (record { disk = f; bus = w })
