-- ===== src/Bus/Area.antt =====
-- `DeviceAreaAddress` of uriscv/systembus.cc, with the constants of uriscv/arch.h: where the
-- registers of a device are.
use uriscv.Prelude.{ℕ, ◌+◌, ◌-◌, ◌*◌, ◌/◌, ◌%◌, ◌<◌, ◌≡◌, Bool, true, ◌&&◌, leb, ltb, arith}

abbrev pub mmio_base : ℕ
mmio_base = 0x10000000

abbrev pub mmio_end : ℕ
mmio_end = 0x10000518

abbrev pub dev_reg_start : ℕ
dev_reg_start = 0x10000054

abbrev pub dev_reg_end : ℕ
dev_reg_end = 0x100002d4

-- `INBOUNDS`.
abbrev pub in_bounds : ℕ → ℕ → ℕ → Bool
in_bounds a b c = leb b a && ltb a c

-- `DEV_REG_ADDR` and the constructor from a line's index, a device and a field.
pub area_address : ℕ → ℕ → ℕ → ℕ
area_address line device field = dev_reg_start + line * 128 + device * 16 + field * 4

word_index : ℕ → ℕ
word_index pa = (pa - dev_reg_start) / 4

reg_index : ℕ → ℕ
unfolding word_index
reg_index pa = word_index pa / 4

unfoldable pub area_line : ℕ → ℕ
unfolding reg_index
area_line pa = reg_index pa / 8

unfoldable pub area_device : ℕ → ℕ
unfolding reg_index
area_device pa = reg_index pa % 8

unfoldable pub area_field : ℕ → ℕ
unfolding word_index
area_field pa = word_index pa % 4

-- The address of a field of a device lies among the device registers, and is taken apart into the
-- line, the device and the field again.
pub area_address-fields :
    (line device field : ℕ)
    → line < 5
    → device < 8
    → field < 4
    → (in_bounds (area_address line device field) dev_reg_start dev_reg_end ≡ true)
      × (area_line (area_address line device field) ≡ line)
      × (area_device (area_address line device field) ≡ device)
      × (area_field (area_address line device field) ≡ field)
unfolding area_address area_line area_device area_field reg_index word_index
area_address-fields line device field l d f = (
  ground (arith, l, d, f),
  ground (arith, l, d, f),
  ground (arith, l, d, f),
  ground (arith, l, d, f),
)

-- The registers of the bus area that lie between the devices' are words: every aligned address
-- there is that of one field of one device.
pub area_address-decoded :
    (pa : ℕ)
    → in_bounds pa dev_reg_start dev_reg_end ≡ true
    → pa % 4 ≡ 0
    → (area_line pa < 5)
      × (area_device pa < 8)
      × (area_field pa < 4)
      × (area_address (area_line pa) (area_device pa) (area_field pa) ≡ pa)
unfolding area_address area_line area_device area_field reg_index word_index
area_address-decoded pa h a =
    (ground (arith, h), ground (arith, h), ground (arith, h), ground (arith, h, a))
