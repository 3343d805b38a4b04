-- ===== src/Processor/System/Buffer.antt =====
-- The services that read and write the translation buffer at an index.
use uriscv.Prelude.{
  ℕ, ◌≤◌, ◌<◌, ◌≡◌, ◌⊎◌, refl, ◌∙◌, ap, ltb, ltb→lt, ◌==◌, if◌then◌else◌, Bool-cases, inl, inr,
  arith, some, List, ◌∷◌, length, get_elem?, set, length-set, get_elem?-set_self, get_elem?-set_ne,
  bit_and, bit_or,
}
use uriscv.Outcome.{runs, undefined, ◌>>=◌}
use uriscv.Processor.Constants.{
  vpn_mask, asid_mask, entrylo_mask, csr_entryhi, csr_entrylo, csr_index, csr_random,
}
use uriscv.Processor.State.{Processor, TlbEntry, tlb_changed, csr_read, csr_write}
use uriscv.Processor.Tlb.{rnd_idx, set_hi, set_lo, write_entry, random_reg_tick}
use uriscv.Processor.Tlb.Index.{get_elem?-some, get_elem?-none, random_reg_tick_in_range}
use uriscv.Processor.System.{tlbr, tlbwi, tlbwr}

-- The entry that two words make.
abbrev pub entry_of : ℕ → ℕ → TlbEntry
entry_of hi lo = record {
  hi = bit_and hi (bit_or vpn_mask asid_mask);
  lo = bit_and lo entrylo_mask;
}

-- A write of entry `i` and nothing else of the buffer, with the control registers kept.
pub record Stored (p : Processor) (i : ℕ) (e : TlbEntry) (q : Processor) : Type 0 where
  pub entries : (j : ℕ) → get_elem? q.tlb j ≡ (if j == i then some e else get_elem? p.tlb j)
  pub same_size : length q.tlb ≡ length p.tlb
  pub same_csr : q.csr ≡ p.csr

set-entries :
    (es : List TlbEntry) (i : ℕ) (e : TlbEntry) (j : ℕ)
    → i < length es
    → get_elem? (set es i e) j ≡ (if j == i then some e else get_elem? es j)
set-entries es i e j h = elim (Bool-cases (j == i)) [
  | inl same ↦ let eq : j ≡ i = ground arith in rw (same, eq) (get_elem?-set_self es i e h)
  | inr other ↦ rw other (get_elem?-set_ne es i j e (λ eq. ground arith))
]

write_entry_lem :
    (p : Processor) (i hi lo told : ℕ)
    → ((i < length p.tlb)
        × (q : Processor) × (write_entry p i hi lo told ≡ runs q)
        × Stored p i (entry_of hi lo) q)
      ⊎ ((length p.tlb ≤ i) × (write_entry p i hi lo told ≡ undefined))
unfolding write_entry set_hi set_lo
write_entry_lem p i hi lo told = elim (Bool-cases (ltb i (length p.tlb))) [
  | inl inside ↦
      let h = ltb→lt i (length p.tlb) inside in
      let (e, found) = get_elem?-some p.tlb i h in
      inl (
        h,
        record p { tlb = set p.tlb i (entry_of hi lo); signals = tlb_changed told ∷ p.signals },
        rw (found, write_entry) refl,
        record {
          entries = λ j. set-entries p.tlb i (entry_of hi lo) j h;
          same_size = length-set p.tlb i (entry_of hi lo);
          same_csr = refl;
        },
      )
  | inr outside ↦
      let h : length p.tlb ≤ i = ground arith in
      inr (h, rw (get_elem?-none p.tlb i h, write_entry) refl)
]

-- TLBWI writes the entry that INDEX names and no other; an index past the end, which the guest
-- may put there, is an access out of bounds.
pub tlbwi_lem :
    (p : Processor)
    → let i = rnd_idx (csr_read p csr_index) in
      ((i < length p.tlb)
        × (q : Processor) × (tlbwi p ≡ runs q)
        × Stored p i (entry_of (csr_read p csr_entryhi) (csr_read p csr_entrylo)) q)
      ⊎ ((length p.tlb ≤ i) × (tlbwi p ≡ undefined))
unfolding tlbwi
tlbwi_lem p = write_entry_lem p _ _ _ _

-- After any tick of RANDOM, TLBWR writes inside the buffer.
pub tlbwr_in_range :
    (p : Processor)
    → 0 < length p.tlb
    → let t = random_reg_tick p in
      (q : Processor) × (tlbwr t ≡ runs q)
      × Stored t
          (rnd_idx (csr_read t csr_random))
          (entry_of (csr_read t csr_entryhi) (csr_read t csr_entrylo))
          q
unfolding tlbwr
tlbwr_in_range p h =
    elim (write_entry_lem (random_reg_tick p) (rnd_idx (csr_read (random_reg_tick p) csr_random))
      (csr_read (random_reg_tick p) csr_entryhi) (csr_read (random_reg_tick p) csr_entrylo)
      (rnd_idx (csr_read (random_reg_tick p) csr_index))) [
        | inl (inside, q, e, stored) ↦ (q, e, stored)
        | inr (outside, e) ↦ absurd (omega (arith, random_reg_tick_in_range p h))
      ]

-- TLBR after TLBWI at an index inside the buffer gives back ENTRYHI and ENTRYLO, but for the
-- digits that an entry keeps at 0.
pub tlbr-tlbwi :
    (p : Processor)
    → rnd_idx (csr_read p csr_index) < length p.tlb
    → (q : Processor) × (tlbwi p >>= tlbr ≡ runs q)
      × (csr_read q csr_entryhi ≡ bit_and (csr_read p csr_entryhi) (bit_or vpn_mask asid_mask))
      × (csr_read q csr_entrylo ≡ bit_and (csr_read p csr_entrylo) entrylo_mask)
unfolding tlbr
tlbr-tlbwi p h = elim (tlbwi_lem p) [
  | inl (inside, q, e, stored) ↦
      let i = rnd_idx (csr_read p csr_index) in
      let index : rnd_idx (csr_read q csr_index) ≡ i =
        ap (λ f. rnd_idx (f csr_index)) stored.same_csr in
      let found : get_elem? q.tlb i
          ≡ some (entry_of (csr_read p csr_entryhi) (csr_read p csr_entrylo)) =
        stored.entries i ∙ ground arith in
      (
        csr_write
            (csr_write q csr_entryhi
              (entry_of (csr_read p csr_entryhi) (csr_read p csr_entrylo)).hi)
            csr_entrylo (entry_of (csr_read p csr_entryhi) (csr_read p csr_entrylo)).lo,
        rw (e, tlbr, index, found) refl,
        refl,
        refl,
      )
  | inr (outside, e) ↦ absurd (omega arith)
]
