-- ===== src/Machine/Idle/Cycles.antt =====
-- A round of cycles of processors that wait.
use uriscv.Prelude.{
  ℕ, suc, ◌≤◌, ◌≡◌, refl, ap, List, [], ◌∷◌, ◌++◌, some, ◌==◌, map, length-append, min, get_elem?,
  set, length, Bool-cases, inl, inr, arith,
}
use mathlib.Core.List.{append_assoc}
use uriscv.Outcome.{runs}
use uriscv.Stop.Order.{All}
use uriscv.Processor.State.{Processor}
use uriscv.Processor.Access.{BusOps, apply_irqs}
use uriscv.Bus.{SystemBus}
use uriscv.Machine.{Machine, told, flush, cycle_at, cycles_from, least_idle, skip_each, idle_cycles}
use uriscv.Machine.Watch.{StopState, observe_all}
use uriscv.Machine.Waiting.{IsSettled, slept, skip-slept, cycle-slept, slept-quiet, slept-zero}

abbrev pub May : ℕ → Processor → Type 0
May k p = k ≤ uriscv.Processor.Cycle.idle_cycles p

abbrev Quiet : Processor → Type 0
Quiet p = p.signals ≡ []

-- The least of the processors' idle cycles.
least_idle-May :
    (ps : List Processor) (c k : ℕ) → suc k ≤ least_idle c ps → (suc k ≤ c) × All (May (suc k)) ps
unfolding least_idle
least_idle-May [] c k h = (h, tt)
least_idle-May (p ∷ ps) c k h =
    let n = uriscv.Processor.Cycle.idle_cycles p in
    elim (Bool-cases (min c n == 0)) [
      | inl nil ↦ absurd (ground (arith, h, nil))
      | inr more ↦
          let rest : suc k ≤ least_idle (min c n) ps = ground (arith, h, more) in
          let (least, each) = least_idle-May ps (min c n) k rest in
          (omega (arith, least), (omega (arith, least), each))
    ]

pub skip_each-slept :
    (ps : List Processor) (k : ℕ)
    → All (May (suc k)) ps
    → skip_each (suc k) ps ≡ runs (map (slept (suc k)) ps)
unfolding skip_each
skip_each-slept [] k h = refl
skip_each-slept (p ∷ ps) k (h, hs) =
    rw (skip-slept p (suc k) (omega arith) h, skip_each-slept ps k hs) refl

-- With no signal pending there is nothing to flush, and nobody is told of no line.
flush-Quiet :
    (w : StopState) (ps : List Processor)
    → All Quiet ps
    → flush w ps ≡ runs (record { stops = w; cpus = ps })
unfolding flush observe_all
flush-Quiet w [] h = refl
flush-Quiet w (p ∷ ps) (h, hs) = rw (h, flush-Quiet w ps hs) refl

apply_none : (ps : List Processor) → map (λ p. apply_irqs p []) ps ≡ ps
unfolding apply_irqs
apply_none [] = refl
apply_none (p ∷ ps) = ap (λ qs. p ∷ qs) (apply_none ps)

module _ {D : Type 0} where
  pub idle_cycles-May :
      (m : Machine D) (k : ℕ)
      → suc k ≤ idle_cycles m
      → (suc k ≤ uriscv.Bus.Clock.idle_cycles m.bus) × All (May (suc k)) m.cpus
  unfolding idle_cycles
  idle_cycles-May m k h =
      least_idle-May m.cpus (uriscv.Bus.Clock.idle_cycles m.bus) k (ground (arith, h))

  pub told-Quiet : (m : Machine D) → All Quiet m.cpus → told m [] ≡ runs m
  unfolding told
  told-Quiet m h = rw (apply_none m.cpus, flush-Quiet m.stops m.cpus h) refl

get_elem?-length {ℓ} :
    {A : Type ℓ} (xs ys : List A) (y : A) → get_elem? (xs ++ (y ∷ ys)) (length xs) ≡ some y
get_elem?-length [] ys y = refl
get_elem?-length (x ∷ xs) ys y = get_elem?-length xs ys y

set-length {ℓ} :
    {A : Type ℓ} (xs ys : List A) (y z : A) → set (xs ++ (y ∷ ys)) (length xs) z ≡ xs ++ (z ∷ ys)
set-length [] ys y z = refl
set-length (x ∷ xs) ys y z = ap (λ l. x ∷ l) (set-length xs ys y z)

pub All-both :
    (P Q : Processor → Type 0) (ps : List Processor) → All P ps → All Q ps → All (λ p. P p × Q p) ps
All-both P Q [] h k = tt
All-both P Q (p ∷ ps) (h, hs) (k, ks) = ((h, k), All-both P Q ps hs ks)

abbrev pub Waits : ℕ → Processor → Type 0
Waits k p = IsSettled p × May k p

All-append {ℓ} :
    {A : Type ℓ} (P : A → Type 0) (xs ys : List A) → All P xs → All P ys → All P (xs ++ ys)
All-append P [] ys t h = h
All-append P (x ∷ xs) ys (p, ps) h = (p, All-append P xs ys ps h)

pub slept-Quiet : (ps : List Processor) (k j : ℕ) → All (Waits k) ps → All Quiet (map (slept j) ps)
slept-Quiet [] k j h = tt
slept-Quiet (p ∷ ps) k j ((s, m), hs) = (slept-quiet p j s.quiet, slept-Quiet ps k j hs)

pub slept-zeros : (ps : List Processor) → All IsSettled ps → map (slept 0) ps ≡ ps
slept-zeros [] h = refl
slept-zeros (p ∷ ps) (s, hs) = rw (slept-zero p s.time_lt, slept-zeros ps hs) refl

pub as_many_slept : (ps : List Processor) (k : ℕ) → length (map (slept k) ps) ≡ length ps
as_many_slept [] k = refl
as_many_slept (p ∷ ps) k = ap suc (as_many_slept ps k)

module _ {D : Type 0} (b : BusOps (SystemBus D)) where
  unfoldable pub with_cpus : Machine D → List Processor → Machine D
  with_cpus m ps = record m { cpus = ps }

  cycle_at-slept :
      (m : Machine D) (xs ys : List Processor) (p : Processor) (k : ℕ)
      → Waits (suc k) p
      → All Quiet xs
      → All Quiet ys
      → cycle_at b (length xs) (with_cpus m (xs ++ (slept k p ∷ ys)))
        ≡ runs (with_cpus m (xs ++ (slept (suc k) p ∷ ys)))
  unfolding cycle_at with_cpus
  cycle_at-slept m xs ys p k (s, may) qx qy =
      rw
        (
          cycle_at,
          get_elem?-length xs ys (slept k p),
          cycle-slept b p m.bus k s may,
          set-length xs ys (slept k p) (slept (suc k) p),
        )
        (told-Quiet (with_cpus m (xs ++ (slept (suc k) p ∷ ys)))
          (All-append Quiet xs (slept (suc k) p ∷ ys) qx (slept-quiet p (suc k) s.quiet, qy)))

  pub cycles_from-slept :
      (m : Machine D) (xs ys : List Processor) (k : ℕ)
      → All (Waits (suc k)) ys
      → All Quiet xs
      → cycles_from b (length ys) (length xs) (with_cpus m (xs ++ map (slept k) ys))
        ≡ runs (with_cpus m (xs ++ map (slept (suc k)) ys))
  unfolding cycles_from
  cycles_from-slept m xs [] k h q = refl
  cycles_from-slept m xs (y ∷ ys) k ((s, may), hs) q =
      let z = slept (suc k) y in
      let done =
        cycle_at-slept m xs (map (slept k) ys) y k (s, may) q (slept-Quiet ys (suc k) k hs) in
      let rest =
        cycles_from-slept m (xs ++ (z ∷ [])) ys k hs
          (All-append Quiet xs (z ∷ []) q (slept-quiet y (suc k) s.quiet, tt)) in
      let longer : length (xs ++ (z ∷ [])) ≡ suc (length xs) =
        omega (arith, length-append xs (z ∷ [])) in
      rw
        (
          cycles_from,
          done,
          ← longer,
          ← append_assoc xs (z ∷ []) (map (slept k) ys),
          ← append_assoc xs (z ∷ []) (map (slept (suc k)) ys),
        )
        rest
