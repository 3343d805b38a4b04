-- ===== src/Processor/Trap/Stack.antt =====
-- The digits of MSTATUS through `pushKUIEStack` and `popKUIEStack`.
use uriscv.Prelude.{
  ℕ, ◌+◌, ◌-◌, ◌*◌, ◌^◌, ◌<◌, ◌≡◌, refl, true, arith, ◌==◌, if◌then◌else◌, ==_iff, for_all_below,
  for_all_below_sound, bit, bit_and, not32, shl32, bit-and, bit-or, bit-le, bit_above, bit-shifted,
  bit-div, bit-zero, ◌||◌, bit_and-field, bit_and-le, bit_or-lt,
}
use uriscv.Word.{reset_bit}
use uriscv.Word.BitLaws.{bit-set_bit, bit-reset_bit, bit_val_lem, set_bit-lt, reset_bit-lt}
use uriscv.Processor.Constants.{mstatus}
use uriscv.Processor.State.{Processor, csr_read}
use uriscv.Processor.Trap.{
  copy_bit, pushed_status, popped_status, mpp_field, push_ku_ie_stack, pop_ku_ie_stack,
}

mpp_table :
    for_all_below 32
      (λ k. bit (not32 0x1800) k == (if k == 11 then 0 else if k == 12 then 0 else 1))
    ≡ true
unfolding for_all_below
mpp_table = refl

-- Digits 11 and 12 of the mask of MPP.
mpp_mask_bit :
    (k : ℕ) → k < 32 → bit (not32 0x1800) k ≡ (if (k == 11) then 0 else if k == 12 then 0 else 1)
mpp_mask_bit k h = (==_iff _ _).0 (for_all_below_sound 32 _ k mpp_table h)

copy_bit-lt : (s from to : ℕ) → s < 2 ^ 32 → copy_bit s from to < 2 ^ 32
unfolding copy_bit
copy_bit-lt s from to h = ground (arith, set_bit-lt s to h, reset_bit-lt s to h)

bit-copy_bit :
    (s from to k : ℕ)
    → s < 2 ^ 32
    → to < 32
    → bit (copy_bit s from to) k ≡ (if k == to then bit s from else bit s k)
unfolding copy_bit
bit-copy_bit s from to k hs ht =
    ground
      (arith, bit_val_lem s from, bit-le from s, bit-set_bit s to k ht, bit-reset_bit s to k hs ht)

-- Where the fields of MSTATUS go on the way into a handler.
pub bit-pushed_status :
    (s mode k : ℕ)
    → s < 2 ^ 32
    → mode < 4
    → k < 32
    → bit (pushed_status s mode) k ≡ (
        if k == 12
        then bit mode 1
        else if k == 11
        then bit mode 0
        else if k == 7
        then bit s 3
        else if k == 3
        then 0
        else bit s k)
unfolding pushed_status
bit-pushed_status s mode k hs hm hk =
    let s1 = copy_bit s 3 7 in
    let s2 = reset_bit s1 3 in
    ground (
      arith,
      bit-or k (bit_and s2 (not32 0x1800)) (mode * 2 ^ 11),
      bit-and k s2 (not32 0x1800),
      mpp_mask_bit k hk,
      bit-reset_bit s1 3 k (copy_bit-lt s 3 7 hs) (omega arith),
      bit-copy_bit s 3 7 k hs (omega arith),
      bit-shifted 11 k mode,
      bit_above 2 (k - 11) mode hm,
      bit-le k s,
    )

bit-popped_status :
    (s k : ℕ)
    → s < 2 ^ 32
    → k < 17
    → bit (popped_status s) k ≡ (if k == 7 then 0 else if k == 3 then bit s 7 else bit s k)
unfolding popped_status
bit-popped_status s k hs hk =
    let s1 = copy_bit s 7 3 in
    let s2 = reset_bit s1 7 in
    let small = reset_bit-lt s1 7 (copy_bit-lt s 7 3 hs) in
    ground (
      arith,
      bit-reset_bit s1 7 k (copy_bit-lt s 7 3 hs) (omega arith),
      bit-copy_bit s 7 3 k hs (omega arith),
      bit-reset_bit s2 17 k small (omega arith),
    )

-- MPP by its two digits.
pub mpp_field-bits : (s : ℕ) → mpp_field s ≡ bit s 11 + 2 * bit s 12
unfolding mpp_field
mpp_field-bits s = omega (arith, bit_and-field 11 2 s, bit-div 11 s, bit-div 12 s)

pub pushed_status-lt : (s mode : ℕ) → s < 2 ^ 32 → mode < 4 → pushed_status s mode < 2 ^ 32
unfolding pushed_status
pushed_status-lt s mode hs hm =
    let s2 = reset_bit (copy_bit s 3 7) 3 in
    let small = reset_bit-lt (copy_bit s 3 7) 3 (copy_bit-lt s 3 7 hs) in
    bit_or-lt 32 (bit_and s2 (not32 0x1800)) (shl32 mode 11)
      (omega (arith, bit_and-le s2 (not32 0x1800), small)) (omega arith)

-- Leaving a handler undoes entering it: the mode and the interrupt enable of MSTATUS are those of
-- before, MPIE and MPP are cleared, and every other digit below MPRV is kept.
pub pop-push :
    (p : Processor) (k : ℕ)
    → csr_read p mstatus < 2 ^ 32
    → p.mode < 4
    → k < 17
    → let q = pop_ku_ie_stack (push_ku_ie_stack p) in
      (q.mode ≡ p.mode)
      × (bit (csr_read q mstatus) k
          ≡ (if (k == 7) || (k == 11) || (k == 12) then 0 else bit (csr_read p mstatus) k))
unfolding pop_ku_ie_stack push_ku_ie_stack
pop-push p k hs hm hk =
    let s = pushed_status (p.csr mstatus) p.mode in
    let t = popped_status s in
    let small = pushed_status-lt (p.csr mstatus) p.mode hs hm in
    (
      ground (
        arith,
        mpp_field-bits t,
        bit-popped_status s 11 small (omega arith),
        bit-popped_status s 12 small (omega arith),
        bit-pushed_status (p.csr mstatus) p.mode 11 hs hm (omega arith),
        bit-pushed_status (p.csr mstatus) p.mode 12 hs hm (omega arith),
      ),
      ground (
        arith,
        bit-or k (bit_and t (not32 0x1800)) 0,
        bit-and k t (not32 0x1800),
        mpp_mask_bit k (omega arith),
        bit-zero k,
        bit-le k t,
        bit-popped_status s k small hk,
        bit-pushed_status (p.csr mstatus) p.mode k hs hm (omega arith),
        bit-pushed_status (p.csr mstatus) p.mode 7 hs hm (omega arith),
      ),
    )
