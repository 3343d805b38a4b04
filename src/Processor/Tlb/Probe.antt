-- ===== src/Processor/Tlb/Probe.antt =====
-- What `probeTLB` finds.
use uriscv.Prelude.{
  ℕ, zero, suc, ◌+◌, ◌<◌, ◌≡◌, ◌⊎◌, refl, ◌∙◌, ap, true, false, Option, none, some, List, [], ◌∷◌,
  arith, Bool-cases, inl, inr, length,
}
use uriscv.Processor.State.{Processor, TlbEntry}
use uriscv.Processor.Tlb.{entry_matches, probe_from, probe_tlb}

-- No entry matches.
abbrev pub NoMatch : ℕ → ℕ → List TlbEntry → Type 0
NoMatch r va [] = Unit {0}
NoMatch r va (e ∷ es) = (entry_matches r va e ≡ false) × NoMatch r va es

-- The last entry that matches stands at an index.
abbrev pub LastMatch : ℕ → ℕ → List TlbEntry → ℕ → Type 0
LastMatch r va [] k = ⊥
LastMatch r va (e ∷ es) zero = (entry_matches r va e ≡ true) × NoMatch r va es
LastMatch r va (e ∷ es) (suc k) = LastMatch r va es k

probe_from-cases :
    (r va i : ℕ) (es : List TlbEntry) (found : Option ℕ)
    → (NoMatch r va es × (probe_from r va i es found ≡ found))
      ⊎ ((k : ℕ) × LastMatch r va es k × (probe_from r va i es found ≡ some (i + k)))
unfolding probe_from
probe_from-cases r va i [] found = inl (tt, refl)
probe_from-cases r va i (e ∷ es) found = elim (Bool-cases (entry_matches r va e)) [
  | inl hit ↦ elim (probe_from-cases r va (suc i) es (some i)) [
    | inl (rest, q) ↦ inr (0, (hit, rest), rw hit (q ∙ ap some (omega arith)))
    | inr (k, last, q) ↦ inr (suc k, last, rw hit (q ∙ ap some (omega arith)))
  ]
  | inr miss ↦ elim (probe_from-cases r va (suc i) es found) [
    | inl (rest, q) ↦ inl ((miss, rest), rw miss q)
    | inr (k, last, q) ↦ inr (suc k, last, rw miss (q ∙ ap some (omega arith)))
  ]
]

pub LastMatch-lt : (r va : ℕ) (es : List TlbEntry) (k : ℕ) → LastMatch r va es k → k < length es
LastMatch-lt r va [] k h = absurd h
LastMatch-lt r va (e ∷ es) zero h = omega arith
LastMatch-lt r va (e ∷ es) (suc k) h = omega (arith, LastMatch-lt r va es k h)

-- The probe finds the last of the entries that match, at an index inside the buffer, and finds none
-- exactly when none matches.
pub probe_tlb_lem :
    (p : Processor) (r va : ℕ)
    → (NoMatch r va p.tlb × (probe_tlb p r va ≡ none))
      ⊎ ((k : ℕ) × LastMatch r va p.tlb k × (k < length p.tlb) × (probe_tlb p r va ≡ some k))
unfolding probe_tlb
probe_tlb_lem p r va = elim (probe_from-cases r va 0 p.tlb none) [
  | inl none_match ↦ inl none_match
  | inr (k, last, e) ↦ inr (k, last, LastMatch-lt r va p.tlb k last, e ∙ ap some (omega arith))
]
