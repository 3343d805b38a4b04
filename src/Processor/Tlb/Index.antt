-- ===== src/Processor/Tlb/Index.antt =====
-- Which indices the instructions on the translation buffer use.
use uriscv.Prelude.{
  ℕ, zero, suc, ◌-◌, ◌*◌, ◌≤◌, ◌<◌, ◌≡◌, refl, none, some, List, [], ◌∷◌, arith, length, get_elem?,
  bit_and, bit_and-le, bit_and-le_right, bit_and-below, sub32,
}
use uriscv.Processor.Constants.{csr_random}
use uriscv.Processor.State.{Processor, TlbEntry, csr_read}
use uriscv.Processor.Tlb.{rnd_idx, random_top, random_reg_tick}

pub get_elem?-some :
    (es : List TlbEntry) (i : ℕ) → i < length es → (e : TlbEntry) × (get_elem? es i ≡ some e)
get_elem?-some [] i h = absurd (omega arith)
get_elem?-some (e ∷ es) zero h = (e, refl)
get_elem?-some (e ∷ es) (suc i) h = get_elem?-some es i (omega arith)

pub get_elem?-none : (es : List TlbEntry) (i : ℕ) → length es ≤ i → get_elem? es i ≡ none
get_elem?-none [] i h = refl
get_elem?-none (e ∷ es) zero h = absurd (omega arith)
get_elem?-none (e ∷ es) (suc i) h = get_elem?-none es i (omega arith)

pub rnd_idx-le : (w : ℕ) → rnd_idx w * 256 ≤ w
unfolding rnd_idx
rnd_idx-le w = omega (arith, bit_and-le w 0x7fffffff)

-- The value that the tick leaves in RANDOM.
random-tick :
    (p : Processor)
    → csr_read (random_reg_tick p) csr_random
      ≡ bit_and (sub32 (csr_read p csr_random) 256) (random_top p)
unfolding random_reg_tick
random-tick p = ground arith

tlb-tick : (p : Processor) → (random_reg_tick p).tlb ≡ p.tlb
unfolding random_reg_tick
tlb-tick p = ground arith

-- The tick leaves an index of the buffer in RANDOM, whatever was there.
pub random_reg_tick_in_range :
    (p : Processor)
    → 0 < length p.tlb
    → rnd_idx (csr_read (random_reg_tick p) csr_random) < length (random_reg_tick p).tlb
random_reg_tick_in_range p h =
    rw (tlb-tick p, random-tick p)
      (omega (
        arith,
        rnd_idx-le (bit_and (sub32 (csr_read p csr_random) 256) (random_top p)),
        bit_and-le_right (sub32 (csr_read p csr_random) 256) (random_top p),
        top p,
      ))
  where
    top : (p : Processor) → random_top p ≡ (length p.tlb - 1) * 256
    top p = unfold random_top in refl

-- Where RANDOM stood at the lowest index that it should have, the tick takes it to index 0, and its
-- reset goes to CSR 0.
pub random_reg_tick_resets_csr_0 :
    (p : Processor)
    → 256 ≤ csr_read p csr_random
    → csr_read p csr_random < 512
    → (csr_read (random_reg_tick p) csr_random ≡ 0)
      × (csr_read (random_reg_tick p) 0 ≡ random_top p)
unfolding random_reg_tick random_top
random_reg_tick_resets_csr_0 p lo hi =
    let zeroed : bit_and (sub32 (csr_read p csr_random) 256) ((length p.tlb - 1) * 256) ≡ 0 =
      bit_and-below 8 (sub32 (csr_read p csr_random) 256) (length p.tlb - 1) (omega arith) in
    (ground (arith, zeroed), ground (arith, zeroed))
