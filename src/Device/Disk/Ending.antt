-- ===== src/Device/Disk/Ending.antt =====
-- How a disk's operations end: `CompleteDevOp`.
use uriscv.Prelude.{
  ℕ, ◌+◌, ◌/◌, ◌%◌, ◌^◌, true, not, Option, none, some, ◌==◌, if◌then◌else◌, update, max_word,
}
use uriscv.Outcome.{Outcome, exits, ◌>>=◌}
use uriscv.Bus.Transfer.{Block}
use uriscv.Device.{ready, reset, status, command, data0}
use uriscv.Device.Block.{BusPort, BlockFile}
use uriscv.Device.Disk.{
  DiskDevice, DiskActed, Place, disk_over, cyl_of, target, place_offset, nowhere, dseekcyl,
  dreadblk, dwriteblk, dseekerr, dreaderr, dwriterr, ddmaerr,
}

module _ {F W : Type 0} (files : BlockFile F) (port : BusPort W) where
  -- The block that a read sends to memory.
  unfoldable pub disk_wanted : DiskDevice F → Place → Option Block
  disk_wanted f at =
      if not (f.buf_place.cyl == max_word)
      then some f.disk_buf
      else files.read_block f.file (place_offset f at)

  unfoldable pub complete_disk_read : DiskDevice F → W → Place → Outcome (DiskActed F W)
  unfolding disk_over disk_wanted
  complete_disk_read f w at = elim (disk_wanted f at) [
    | none ↦ exits
    | some blk ↦
        (port.dma_transfer w blk (f.reg data0) true >>= (λ m.
          disk_over port
            (record f {
              buf_place = at;
              disk_buf = blk;
              reg = update f.reg status (if m.error then ddmaerr else ready);
            })
            m.bus))
  ]

  unfoldable pub complete_disk_write : DiskDevice F → W → Place → Outcome (DiskActed F W)
  unfolding disk_over
  complete_disk_write f w at = elim (files.write_block f.file (place_offset f at) f.disk_buf) [
    | none ↦ exits
    | some file ↦ disk_over port (record f { file = file; reg = update f.reg status ready }) w
  ]

  -- The cylinder that a seek ends on: half of the way where the device does not work.
  unfoldable pub sought : DiskDevice F → DiskDevice F
  sought f =
      let cyl = cyl_of (f.reg command) in
      if f.is_working
      then record f { curr_cyl = cyl; reg = update f.reg status ready }
      else record f {
        curr_cyl = (cyl + f.curr_cyl) % 2 ^ 32 / 2;
        reg = update f.reg status dseekerr;
      }

  -- `CompleteDevOp`.
  unfoldable pub disk_complete : DiskDevice F → W → Outcome (DiskActed F W)
  unfolding disk_over complete_disk_read complete_disk_write sought
  disk_complete f w =
      let code = f.reg command % 2 ^ 8 in
      let at = target f (f.reg command) in
      let failed : ℕ → DiskDevice F =
        λ err. record f { buf_place = nowhere; reg = update f.reg status err } in
      if code == reset
      then disk_over port (failed ready) w
      else if code == dseekcyl
      then disk_over port (sought f) w
      else if code == dreadblk
      then if f.is_working then complete_disk_read f w at else disk_over port (failed dreaderr) w
      else if code == dwriteblk
      then if f.is_working then complete_disk_write f w at else disk_over port (failed dwriterr) w
      else exits
