-- ===== src/Device/Flash/Tests.antt =====
-- A flash device that reads its second block into the memory of a machine.
use uriscv.Prelude.{
  ℕ, ◌+◌, ◌*◌, ◌<◌, ◌≡◌, refl, ap, sym, ◌∙◌, false, ◌==◌, if◌then◌else◌, [], Option, none, some,
  arith,
}
use uriscv.Outcome.{Outcome, runs}
use uriscv.Pic.{initial, end_irq}
use uriscv.Bus.{Config, DeviceOps, Effect, Allocator, bus_read, int_ack}
use uriscv.Bus.Space.{Memory, byte_size}
use uriscv.Bus.Transfer.{Block, get_word}
use uriscv.Bus.Transfer.Round.{WritableRange}
use uriscv.Device.{status, command, data0, ready}
use uriscv.Device.Block.{BlockFile, ReadsBack}
use uriscv.Device.Port.{bus_port}
use uriscv.Device.Flash.{FlashDevice, FlashActed, flash_built, flash_write, flash_complete}
use uriscv.Device.Flash.Reachable.{Reachable, begins, writes}
use uriscv.Device.Flash.Transfer.{flash_complete-bus_read}

-- A file as a function from offsets.
abbrev files : BlockFile (ℕ → Block)
files = record {
  read_block = λ f ofs. some (f ofs);
  write_block = λ f ofs blk. some (λ o. if o == ofs then blk else f o);
}

read_in : ℕ → Option (ℕ → Block) → Option Block
read_in ofs none = none
read_in ofs (some f) = some (f ofs)

files-ReadsBack : ReadsBack files
unfolding read_in
files-ReadsBack = record {
  reads_back = λ f after ofs blk e. sym (ap (read_in ofs) e) ∙ ground (arith);
}

abbrev page : Memory
page = record { words = λ i. i; size = 2048 }

abbrev config : Config
config = record { clock_rate = 1; num_processors = 1; tlb_floor_address = 0 }

abbrev numbers : DeviceOps ℕ
numbers = record {
  read_dev_reg = λ d field. runs d;
  write_dev_reg = λ b line device field word. runs (record { bus = b; irqs = [] });
}

abbrev next_node : Allocator
next_node _ = 1

abbrev machine : Effect ℕ
machine = record {
  bus = record {
    tod = 100;
    timer = 50;
    event_q = record { events = []; last_ins = none };
    ram = page;
    biosdata = page;
    bios = page;
    boot = page;
    dev_table = λ line device. 0;
    inst_dev_table = λ line. 0;
    pic = initial 1 (λ _ _. 0);
    mp_controller = record { boot_pc = 0x1fc00000; boot_sp = 0 };
  };
  irqs = [];
}

-- Words that tell the block and the place in it.
abbrev image : ℕ → Block
image ofs i = ofs + i

abbrev fresh : FlashDevice (ℕ → Block)
fresh = flash_built image 4 8 10 (λ _. 0)

acted :
    FlashDevice (ℕ → Block)
    → Outcome (FlashActed (ℕ → Block) (Effect ℕ))
    → FlashActed (ℕ → Block) (Effect ℕ)
acted f (runs r) = r
acted f _ = record { flash = f; bus = machine }

abbrev aimed : FlashActed (ℕ → Block) (Effect ℕ)
aimed =
    acted fresh
      (flash_write files (bus_port config numbers next_node 1 2) fresh machine 1 data0 0x20000000)

abbrev told : FlashActed (ℕ → Block) (Effect ℕ)
told = acted fresh (
    flash_write files (bus_port config numbers next_node 1 2) aimed.flash aimed.bus 1 command 0x102)

told-Reachable : Reachable files (bus_port config numbers next_node 1 2) told.flash
unfolding acted flash_write bus_port flash_built int_ack end_irq initial
told-Reachable =
    writes aimed.bus 1 command 0x102 told
      (writes machine 1 data0 0x20000000 aimed (begins image 4 8 10 (λ _. 0)) refl) refl

told-WritableRange : WritableRange config numbers next_node told.bus.bus 0x20000000 1024
unfolding acted flash_write bus_port flash_built int_ack end_irq initial byte_size
told-WritableRange = (refl, omega arith, λ ofs h. ground (arith, h))

flash_complete-bus_read_example :
    (r : FlashActed (ℕ → Block) (Effect ℕ)) × (flash_complete files
        (bus_port config numbers next_node 1 2)
        told.flash
        told.bus
      ≡ runs r)
    × (r.flash.reg status ≡ ready)
    × ((ofs : ℕ)
        → ofs < 1024
        → bus_read config numbers r.bus.bus (0x20000000 + ofs * 4) none
          ≡ runs (record { value = get_word (image 4112) ofs; failed = false }))
unfolding acted flash_write bus_port flash_built int_ack end_irq initial
flash_complete-bus_read_example =
    flash_complete-bus_read config numbers next_node 1 2 (omega arith) (omega arith) files
      told.flash told.bus (image 4112) files-ReadsBack told-Reachable refl refl refl refl
      told-WritableRange
