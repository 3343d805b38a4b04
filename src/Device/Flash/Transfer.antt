-- ===== src/Device/Flash/Transfer.antt =====
-- A flash device on the bus.
use uriscv.Prelude.{
  ℕ, ◌+◌, ◌-◌, ◌*◌, ◌%◌, ◌^◌, ◌<◌, ◌≡◌, refl, ◌∙◌, ap, true, false, ◌&&◌, ◌++◌, Option, none, some,
  ltb, leb, ◌==◌, Bool-cases, inl, inr, arith, update,
}
use uriscv.Outcome.{runs}
use uriscv.Pic.{InterruptController, start_irq, line, line_ok, guarded, deliver_irq}
use uriscv.Bus.{SystemBus, Config, DeviceOps, Effect, Allocator, bus_read, int_req, driven}
use uriscv.Bus.Space.{byte_size}
use uriscv.Bus.Storage.{writable}
use uriscv.Bus.Transfer.{Block, get_word}
use uriscv.Bus.Transfer.Round.{WritableRange, Stored-Holds, dma_transfer-round}
use uriscv.Device.{busy, status, command, data0, ready}
use uriscv.Device.Block.{BlockFile, ReadsBack}
use uriscv.Device.Port.{bus_port, port_req, port_transfer}
use uriscv.Device.Flash.{FlashDevice, FlashActed, flash_complete, freadblk, block_of, byte_offset}
use uriscv.Device.Flash.Reachable.{Reachable, Reachable-flash_complete}

line_ok-device : (intl dev : ℕ) → intl < 5 → line_ok (17 + intl) dev ≡ true
unfolding line_ok
line_ok-device intl dev h = ground (arith, h)

line-device :
    (intl dev : ℕ) → intl < 5 → dev < 8 → (ltb (line (17 + intl)).il 6 && ltb dev 8) ≡ true
unfolding line
line-device intl dev h k =
    let there : (17 + intl + (2 ^ 32 - 16)) % 2 ^ 32 ≡ 1 + intl = omega (arith, h) in
    ground (arith, there, h, k)

-- A device line's interrupt always begins.
start_irq-device :
    (c : InterruptController) (intl dev : ℕ)
    → intl < 5
    → dev < 8
    → start_irq c (17 + intl) dev ≡ runs (deliver_irq c (line (17 + intl)) dev)
unfolding start_irq guarded
start_irq-device c intl dev h k = rw (line_ok-device intl dev h, line-device intl dev h k) refl

module _ {D : Type 0} (config : Config) (ops : DeviceOps D) (alloc : Allocator) where
  -- Memory does not depend on the interrupt controller.
  pic_apart :
      (b : SystemBus D) (p : InterruptController) (addr : ℕ) (cpu : Option ℕ)
      → writable config ops alloc b addr ≡ true
      → bus_read config ops (record b { pic = p }) addr cpu ≡ bus_read config ops b addr cpu
  unfolding bus_read
  pic_apart b p addr cpu h =
      elim (Bool-cases (leb 0x20000000 addr && ltb addr (0x20000000 + byte_size b.ram))) [
        | inl ram ↦ rw (bus_read, ram) refl
        | inr apart ↦
            let inside : (leb 0x0ffff000 addr && ltb addr (0x0ffff000 + byte_size b.biosdata))
                ≡ true =
              ground (arith, h, apart) in
            rw (bus_read, apart, inside) refl
      ]

  module _ (intl dev : ℕ) (intl_lt : intl < 5) (dev_lt : dev < 8) {F : Type 0}
      (files : BlockFile F) where
    req_runs :
        (e : Effect D)
        → (r : Effect D) × (port_req config ops alloc intl dev e ≡ runs r)
          × ((p : InterruptController) × (r.bus ≡ record e.bus { pic = p }))
    unfolding port_req int_req driven
    req_runs e =
        let d = deliver_irq e.bus.pic (line (17 + intl)) dev in
        let r : Effect D = record { bus = record e.bus { pic = d.pic }; irqs = e.irqs ++ d.irqs } in
        (r, rw (start_irq-device e.bus.pic intl dev intl_lt dev_lt) refl, (d.pic, refl))

    -- At the end of a read by a working device on the bus, into memory that can be written, memory
    -- has the block that the file has under the number in the command, and the status is that of
    -- success.
    pub flash_complete-bus_read :
        (f : FlashDevice F) (w : Effect D) (blk : Block)
        → ReadsBack files
        → Reachable files (bus_port config ops alloc intl dev) f
        → (f.reg status == busy) ≡ true
        → f.reg command % 2 ^ 8 ≡ freadblk
        → f.is_working ≡ true
        → files.read_block f.file (byte_offset f (block_of (f.reg command))) ≡ some blk
        → WritableRange config ops alloc w.bus (f.reg data0) 1024
        → (r : FlashActed F (Effect D)) × (flash_complete files
              (bus_port config ops alloc intl dev)
              f
              w
            ≡ runs r)
          × (r.flash.reg status ≡ ready)
          × ((ofs : ℕ)
              → ofs < 1024
              → bus_read config ops r.bus.bus (f.reg data0 + ofs * 4) none
                ≡ runs (record { value = get_word blk ofs; failed = false }))
    unfolding bus_port port_transfer
    flash_complete-bus_read f w blk law s on reads works stored range =
        let (t, u, ran, ran', out, back) =
          dma_transfer-round config ops alloc w.bus blk blk (f.reg data0) range in
        let sent : Effect D = record { bus = t.bus; irqs = w.irqs ++ t.irqs } in
        let (v, requested, (p, same)) = req_runs sent in
        let ends =
          Reachable-flash_complete files (bus_port config ops alloc intl dev) f w blk law s on reads
            works stored in
        let holds = Stored-Holds config ops alloc w.bus blk (f.reg data0) 1024 t out in
        (
          record {
            flash = record f {
              block_buf = block_of (f.reg command);
              flash_buf = blk;
              reg = update f.reg status ready;
            };
            bus = v;
          },
          ends ∙ rw (port_transfer, ran, out.no_error, requested) refl,
          refl,
          λ ofs h.
              ap (λ b. bus_read config ops b (f.reg data0 + ofs * 4) none) same
              ∙ pic_apart t.bus p (f.reg data0 + ofs * 4) none
                  (out.same_bounds (f.reg data0 + ofs * 4) ∙ range.2 ofs h)
              ∙ holds ofs h,
        )
