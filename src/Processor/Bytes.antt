-- ===== src/Processor/Bytes.antt =====
-- Bytes and halfwords in a word, on little-endian hosts (`BIGENDIANCPU` is 0).
pub mod Merge
use uriscv.Prelude.{
  ℕ, ◌+◌, ◌-◌, ◌*◌, ◌/◌, ◌%◌, ◌^◌, Bool, if◌then◌else◌, bit_and, bit_or, not32, shl32, shr32,
  max_word,
}
use uriscv.Word.{bit_val}

abbrev pub byte_mask : ℕ
byte_mask = 0xff

abbrev pub half_mask : ℕ
half_mask = 0xffff

-- The macros `ALIGN`, `BYTEPOS` and `HWORDPOS`.
unfoldable pub align : ℕ → ℕ
align va = bit_and va 0xfffffffc

unfoldable pub byte_pos : ℕ → ℕ
byte_pos va = bit_and va 3

unfoldable pub hword_pos : ℕ → ℕ
hword_pos va = shr32 (bit_and va 3) 1

unfoldable pub sign_ext_byte : ℕ → ℕ → ℕ
sign_ext_byte val bytep =
    let v = shr32 val (8 * bytep) in if bit_val v 7 then bit_or v (not32 0x7f) else bit_and v 0x7f

unfoldable pub z_ext_byte : ℕ → ℕ → ℕ
z_ext_byte val bytep = bit_and (shr32 val (8 * bytep)) byte_mask

unfoldable pub merge_byte : ℕ → ℕ → ℕ → ℕ
merge_byte dest src bytep =
    bit_or (bit_and dest (not32 (shl32 byte_mask (bytep * 8))))
      (shl32 (bit_and src byte_mask) (bytep * 8))

-- The source returns the word as it is: the extraction stands in a comment.
unfoldable pub sign_ext_hword : ℕ → ℕ → ℕ
sign_ext_hword val hwp = val

unfoldable pub z_ext_hword : ℕ → ℕ → ℕ
z_ext_hword val hwp = bit_and (shr32 val (16 * hwp)) half_mask

unfoldable pub merge_hword : ℕ → ℕ → ℕ → ℕ
merge_hword dest src hwp =
    bit_or (bit_and dest (not32 (shl32 half_mask (hwp * 16))))
      (shl32 (bit_and src half_mask) (hwp * 16))

-- `merge`, with `load_big` and `start_left`.
pub merge : ℕ → ℕ → ℕ → Bool → Bool → ℕ
merge dest src bytep0 load_big start_left =
    let bytep = if load_big then 3 - bytep0 else bytep0 in
    if start_left
    then bit_or (bit_and dest (not32 (shl32 max_word ((3 - bytep) * 8))))
        (shl32 src ((3 - bytep) * 8))
    else bit_or (bit_and dest (not32 (shr32 max_word (bytep * 8)))) (shr32 src (bytep * 8))
