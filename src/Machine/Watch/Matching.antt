-- ===== src/Machine/Watch/Matching.antt =====
-- When an access stops the machine, by the stop points alone.
use uriscv.Prelude.{
  ℕ, ◌≡◌, ◌≢◌, ◌⊎◌, refl, Bool, true, false, ◌&&◌, ◌||◌, List, [], ◌∷◌, Option, none, some, ◌==◌,
  if◌then◌else◌, bit_or, Bool-cases, inl, inr, arith,
}
use uriscv.Outcome.{runs}
use uriscv.Processor.Constants.{access_read, access_write, access_exec}
use uriscv.Stop.{Stoppoint, StoppointSet, is_match}
use uriscv.Stop.Probing.{IsWellFormed, scan, probe-scan}
use uriscv.Machine.Watch.{
  StopState, has, sc_suspect, sc_breakpoint, probe_in, stopped_by, suspected, broken,
  handle_vm_access,
}

-- Whether one of the stop points matches.
unfoldable pub matched : ℕ → ℕ → ℕ → List Stoppoint → Bool
matched asid addr mode [] = false
matched asid addr mode (p ∷ ps) = is_match p asid addr mode || matched asid addr mode ps

found : Option (ℕ × Stoppoint) → Option Stoppoint
found none = none
found (some (i, p)) = some p

-- What an access leaves: the machine stops if it did or the access is matched, for a cause that is
-- kept for the processor, and nothing else changes.
pub record Reacts (w v : StopState) (id cause : ℕ) (hit : Bool) : Type 0 where
  pub stops : v.stop_requested ≡ (w.stop_requested || hit)
  pub caused :
      (v.pd id).stop_cause
      ≡ (if hit then bit_or (w.pd id).stop_cause cause else (w.pd id).stop_cause)
  pub others : (j : ℕ) → j ≢ id → v.pd j ≡ w.pd j
  pub unmatched : hit ≡ false → v ≡ w

same-Reacts : (w : StopState) (id cause : ℕ) → Reacts w w id cause false
same-Reacts w id cause = record {
  stops = ground arith;
  caused = refl;
  others = λ j h. refl;
  unmatched = λ h. refl;
}

scan-matched :
    (asid addr mode : ℕ) (ps : List Stoppoint)
    → (found (scan asid addr mode ps) ≡ none) × (matched asid addr mode ps ≡ false)
      ⊎ ((p : Stoppoint) × (found (scan asid addr mode ps) ≡ some p)
          × (matched asid addr mode ps ≡ true))
unfolding scan matched found
scan-matched asid addr mode [] = inl (refl, refl)
scan-matched asid addr mode (q ∷ ps) = elim (Bool-cases (is_match q asid addr mode)) [
  | inl hit ↦ inr (q, ground (arith, hit), ground (arith, hit))
  | inr miss ↦ elim (scan-matched asid addr mode ps) [
    | inl (a, b) ↦ inl (ground (arith, a, miss), ground (arith, b, miss))
    | inr (p, a, b) ↦ inr (p, ground (arith, a, miss), ground (arith, b, miss))
  ]
]

probe_in-found :
    (o : Option StoppointSet) (s : StoppointSet) (asid addr mode : ℕ)
    → o ≡ some s
    → IsWellFormed s
    → probe_in o asid addr mode ≡ runs (found (scan asid addr mode s.points))
unfolding probe_in found
probe_in-found o s asid addr mode e h = rw (e, probe_in, probe-scan asid addr mode s h) refl

suspected-Reacts :
    (w : StopState) (id : ℕ) (p : Stoppoint)
    → (v : StopState) × (suspected w (some id) p ≡ runs v) × Reacts w v id sc_suspect true
unfolding suspected stopped_by
suspected-Reacts w id p = (
  _,
  refl,
  record {
    stops = ground arith;
    caused = ground arith;
    others = λ j h. ground (arith, h);
    unmatched = λ h. absurd (cc);
  },
)

broken-Reacts :
    (w : StopState) (id : ℕ) (p : Stoppoint)
    → (v : StopState) × (broken w (some id) p ≡ runs v) × Reacts w v id sc_breakpoint true
unfolding broken stopped_by
broken-Reacts w id p = (
  _,
  refl,
  record {
    stops = ground arith;
    caused = ground arith;
    others = λ j h. ground (arith, h);
    unmatched = λ h. absurd (cc);
  },
)

-- The set that an access is looked up in, and the cause of a stop.
abbrev pub watching : StopState → ℕ → Option StoppointSet
watching w access = if access == access_exec then w.breakpoints else w.suspects

abbrev pub cause_of : ℕ → ℕ
cause_of access = if access == access_exec then sc_breakpoint else sc_suspect

module _ (w : StopState) (s : StoppointSet) (asid addr id : ℕ) where
  Reaction : ℕ → Type 0
  Reaction access =
      (v : StopState) × (handle_vm_access w asid addr access (some id) ≡ runs v)
      × Reacts w v id (cause_of access)
          (has w.stop_mask (cause_of access) && matched asid addr access s.points)

  exec-Reacts : w.breakpoints ≡ some s → IsWellFormed s → Reaction access_exec
  unfolding Reaction handle_vm_access
  exec-Reacts set h = elim (Bool-cases (has w.stop_mask sc_breakpoint)) [
    | inr off ↦ (w, rw (handle_vm_access, off) refl, rw off (same-Reacts w id sc_breakpoint))
    | inl on ↦ elim (scan-matched asid addr access_exec s.points) [
      | inl (miss, unmet) ↦ (
        w,
        rw (handle_vm_access, on, probe_in-found w.breakpoints s asid addr access_exec set h, miss)
            refl,
        rw (on, unmet) (same-Reacts w id sc_breakpoint),
      )
      | inr (p, hit, met) ↦
          let (v, ran, reacts) = broken-Reacts w id p in
          (
            v,
            rw
                (
                  handle_vm_access,
                  on,
                  probe_in-found w.breakpoints s asid addr access_exec set h,
                  hit,
                )
                ran,
            rw (on, met) reacts,
          )
    ]
  ]

  data-Reacts :
      (access : ℕ)
      → (access == access_read || access == access_write) ≡ true
      → w.suspects ≡ some s
      → IsWellFormed s
      → Reaction access
  unfolding Reaction handle_vm_access
  data-Reacts access kind set h =
      let apart : (access == access_exec) ≡ false = ground (arith, kind) in
      elim (Bool-cases (has w.stop_mask sc_suspect)) [
        | inr off ↦ (
          w,
          rw (handle_vm_access, kind, off) refl,
          rw (apart, off) (same-Reacts w id sc_suspect),
        )
        | inl on ↦ elim (scan-matched asid addr access s.points) [
          | inl (miss, unmet) ↦ (
            w,
            rw
                (
                  handle_vm_access,
                  kind,
                  on,
                  probe_in-found w.suspects s asid addr access set h,
                  miss,
                )
                refl,
            rw (apart, on, unmet) (same-Reacts w id sc_suspect),
          )
          | inr (p, hit, met) ↦
              let (v, ran, reacts) = suspected-Reacts w id p in
              (
                v,
                rw
                    (
                      handle_vm_access,
                      kind,
                      on,
                      probe_in-found w.suspects s asid addr access set h,
                      hit,
                    )
                    ran,
                rw (apart, on, met) reacts,
              )
        ]
      ]

-- An access of a processor, by a virtual address or at the bus's reserved space, stops the machine
-- where the mask asks for it and one of the stop points of the kind is enabled and has the address
-- and the access, and only there: then the cause is noted for that processor, and no other changes.
-- The set of stop points is well formed.
pub handle_vm_access-Reacts :
    (w : StopState) (s : StoppointSet) (asid addr access id : ℕ)
    → (access ≡ access_read) ⊎ ((access ≡ access_write) ⊎ (access ≡ access_exec))
    → watching w access ≡ some s
    → IsWellFormed s
    → (v : StopState) × (handle_vm_access w asid addr access (some id) ≡ runs v)
      × Reacts w v id
          (cause_of access)
          (has w.stop_mask (cause_of access) && matched asid addr access s.points)
unfolding Reaction
handle_vm_access-Reacts w s asid addr access id (inl reads) set h =
    data-Reacts w s asid addr id access (ground (arith, reads)) (ground (arith, reads, set)) h
handle_vm_access-Reacts w s asid addr access id (inr (inl writes)) set h =
    data-Reacts w s asid addr id access (ground (arith, writes)) (ground (arith, writes, set)) h
handle_vm_access-Reacts w s asid addr access id (inr (inr runs_it)) set h =
    rw runs_it (exec-Reacts w s asid addr id (ground (arith, runs_it, set)) h)
