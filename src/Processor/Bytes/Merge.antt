-- ===== src/Processor/Bytes/Merge.antt =====
-- Bytes put into a word and taken out again.
use uriscv.Prelude.{
  ℕ, ◌+◌, ◌-◌, ◌*◌, ◌/◌, ◌%◌, ◌^◌, ◌≤◌, ◌<◌, ◌≡◌, refl, ◌∙◌, ap, true, arith, ◌==◌, if◌then◌else◌,
  Bool-cases, ==_iff, for_all_below, for_all_below_sound, inl, inr, bit, bit_and, not32, shl32,
  bit-and, bit-or, bit-le, bit_above, bit-shifted, bit-complement, bit-zero, bit-over, bit_ext,
  bit_and-low,
}
use native.Mathlib.Nat.{pow-le-pow_right, mul-le-mul, mod-eq_of_lt}
use uriscv.Processor.Bytes.{z_ext_byte, merge_byte}

byte_masks :
    for_all_below 4 (λ i.
      for_all_below 32 (λ k. bit (not32 (shl32 255 (i * 8))) k == (if k / 8 == i then 0 else 1)))
    ≡ true
unfolding for_all_below
byte_masks = refl

-- A mask that leaves out byte i.
byte_hole :
    (i k : ℕ) → i < 4 → k < 32 → bit (not32 (shl32 255 (i * 8))) k ≡ (if k / 8 == i then 0 else 1)
byte_hole i k hi hk = (==_iff _ _).0 (
    for_all_below_sound 32 _ k
      (for_all_below_sound 4
        (λ i.
          for_all_below 32
            (λ k. bit (not32 (shl32 255 (i * 8))) k == (if k / 8 == i then 0 else 1)))
        i byte_masks hi)
      hk)

-- A byte moved up to its place.
byte_moved :
    (b i k : ℕ)
    → b < 256
    → i < 4
    → bit (shl32 b (i * 8)) k ≡ (if k / 8 == i then bit b (k % 8) else 0)
byte_moved b i k hb hi =
    let size : 2 ^ (i * 8) ≤ 2 ^ 24 =
      pow-le-pow_right {n = 2} (omega arith) {j = 24} (omega arith) in
    let product : b * 2 ^ (i * 8) ≤ 255 * 2 ^ 24 =
      mul-le-mul {n₁ = b} {n₂ = 255} (omega arith) size in
    let fits : b * 2 ^ (i * 8) < 2 ^ 32 = omega arith in
    elim (Bool-cases (k / 8 == i)) [
      | inl here ↦
          let below : k - i * 8 ≡ k % 8 = ground arith in
          rw (mod-eq_of_lt fits, bit-shifted (i * 8) k b, below) (ground arith)
      | inr elsewhere ↦
          rw (mod-eq_of_lt fits, bit-shifted (i * 8) k b)
            (ground (arith, bit_above 8 (k - i * 8) b hb))
    ]

-- Digit by digit, `mergeByte` puts the low byte of the source at byte i, and keeps the others.
pub bit-merge_byte :
    (dest src i k : ℕ)
    → i < 4
    → k < 32
    → bit (merge_byte dest src i) k ≡ (if k / 8 == i then bit (src % 256) (k % 8) else bit dest k)
unfolding merge_byte
bit-merge_byte dest src i k hi hk =
    let low : bit_and src 255 ≡ src % 256 = bit_and-low 8 src in
    rw low (
      ground (
        arith,
        bit-or k (bit_and dest (not32 (shl32 255 (i * 8)))) (shl32 (src % 256) (i * 8)),
        bit-and k dest (not32 (shl32 255 (i * 8))),
        byte_hole i k hi hk,
        byte_moved (src % 256) i k (omega arith) hi,
        bit-le k dest,
      ))

byte-digits : (w j k : ℕ) → k < 8 → bit (w / 2 ^ (8 * j) % 256) k ≡ bit w (8 * j + k)
byte-digits w j k hk =
    let x = w / 2 ^ (8 * j) in
    let masked : bit_and x 255 ≡ x % 256 = bit_and-low 8 x in
    let ones : bit 255 k ≡ 1 = bit-complement 8 k 0 hk (omega arith) ∙ ground (arith, bit-zero k) in
    ground
      (arith, ap (λ t. bit t k) masked, bit-and k x 255, ones, bit-le k x, bit-over (8 * j) k w)

z_ext_byte-eq : (w j : ℕ) → z_ext_byte w j ≡ w / 2 ^ (8 * j) % 256
unfolding z_ext_byte
z_ext_byte-eq w j = bit_and-low 8 _

-- A byte that is merged into a word is read back as it was, and the other bytes are as they were.
pub z_ext_byte-merge_byte :
    (dest src i j : ℕ)
    → i < 4
    → j < 4
    → z_ext_byte (merge_byte dest src i) j ≡ (if i == j then src % 256 else z_ext_byte dest j)
z_ext_byte-merge_byte dest src i j hi hj =
    rw (z_ext_byte-eq (merge_byte dest src i) j, z_ext_byte-eq dest j)
      (bit_ext 8 _ _ (omega arith) (ground arith) (λ k hk. ground (
        arith,
        byte-digits (merge_byte dest src i) j k hk,
        byte-digits dest j k hk,
        bit-merge_byte dest src i (8 * j + k) hi (omega arith),
      )))
