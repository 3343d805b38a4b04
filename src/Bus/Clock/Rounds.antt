-- ===== src/Bus/Clock/Rounds.antt =====
-- The rounds that the loop over due events takes.
use uriscv.Prelude.{
  ℕ, zero, suc, ◌≤◌, ◌≡◌, ◌⊎◌, refl, true, List, [], ◌∷◌, none, some, leb, Bool-cases, Option-cases,
  inl, inr, arith,
}
use mathlib.Core.Path.{subst}
use uriscv.Outcome.{Outcome, runs, exits, undefined}
use uriscv.Event.{Event, EventQueue, remove_head}
use uriscv.Processor.Mode.{Always}
use uriscv.Bus.{SystemBus}
use uriscv.Bus.Control.{Callback}
use uriscv.Bus.Clock.{due_count, due_callback, popped, run_due}

pub Outcome-cases :
    {A : Type 0} (o : Outcome A) → ((a : A) × (o ≡ runs a)) ⊎ ((o ≡ exits) ⊎ (o ≡ undefined))
Outcome-cases (runs a) = inl (a, refl)
Outcome-cases exits = inr (inl refl)
Outcome-cases undefined = inr (inr refl)

-- The first event of a queue whose callback is due.
pub due_head :
    (tod : ℕ) (es : List (Event Callback)) (c : Callback)
    → due_callback tod es ≡ some c
    → (h : Event Callback) × (rest : List (Event Callback)) × (es ≡ h ∷ rest)
      × (leb h.deadline tod ≡ true)
      × (due_count tod es ≡ suc (due_count tod rest))
unfolding due_callback due_count
due_head tod [] c e = absurd (cc)
due_head tod (h ∷ rest) c e = elim (Bool-cases (leb h.deadline tod)) [
  | inl due ↦ (h, rest, refl, due, rw due refl)
  | inr early ↦ absurd (ground (arith, e, early))
]

pub due_callback-counted :
    (tod : ℕ) (es : List (Event Callback)) → due_count tod es ≡ 0 → due_callback tod es ≡ none
unfolding due_callback due_count
due_callback-counted tod [] e = refl
due_callback-counted tod (h ∷ rest) e = elim (Bool-cases (leb h.deadline tod)) [
  | inl due ↦ absurd (ground (arith, e, due))
  | inr early ↦ rw early refl
]

pub remove_head-events :
    (q : EventQueue Callback) (h : Event Callback) (rest : List (Event Callback))
    → q.events ≡ h ∷ rest
    → (remove_head q).events ≡ rest
unfolding remove_head
remove_head-events q h rest e = rw e refl

-- While its event is the first of the queue and due, what a callback does leaves the time as it is
-- and that event in place, and schedules nothing that is due at once.
pub record KeepsTime {D : Type 0} (b c : SystemBus D) : Type 0 where
  pub same_time : c.tod ≡ b.tod
  pub not_at_once :
      (h : Event Callback) (rest : List (Event Callback))
      → b.event_q.events ≡ h ∷ rest
      → leb h.deadline b.tod ≡ true
      → (after : List (Event Callback)) × (c.event_q.events ≡ h ∷ after)
        × (due_count b.tod after ≡ due_count b.tod rest)

module _ {D S : Type 0} (bus_of : S → SystemBus D) (call : Callback → S → Outcome S)
    (pop : S → S) where
  pub run_due-settled :
      (n : ℕ) (s : S)
      → due_callback (bus_of s).tod (bus_of s).event_q.events ≡ none
      → run_due bus_of call pop n s ≡ some (runs s)
  unfolding run_due
  run_due-settled zero s h = rw (run_due, h) refl
  run_due-settled (suc n) s h = rw (run_due, h) refl

module _ {D S : Type 0} (bus_of : S → SystemBus D) (call : Callback → S → Outcome S) (pop : S → S)
    (pops : (s : S) → bus_of (pop s) ≡ popped (bus_of s))
    (keeps : (c : Callback) (s : S)
      → Always (λ d. KeepsTime (bus_of s) (bus_of d)) (call c s)) where
  abbrev Settled : S → Type 0
  Settled s = due_callback (bus_of s).tod (bus_of s).event_q.events ≡ none

  -- One round with a due event leaves one due event less.
  round_counts :
      (n : ℕ) (s d : S) (c : Callback)
      → due_callback (bus_of s).tod (bus_of s).event_q.events ≡ some c
      → call c s ≡ runs d
      → due_count (bus_of s).tod (bus_of s).event_q.events ≤ suc n
      → due_count (bus_of (pop d)).tod (bus_of (pop d)).event_q.events ≤ n
  unfolding popped
  round_counts n s d c due ran bound =
      let (h, rest, first, is_due, counted) =
        due_head (bus_of s).tod (bus_of s).event_q.events c due in
      let k = subst (Always (λ d. KeepsTime (bus_of s) (bus_of d))) ran (keeps c s) in
      let (after, kept, unchanged) = k.not_at_once h rest first is_due in
      rw (pops d, k.same_time, remove_head-events (bus_of d).event_q h after kept, unchanged)
        (omega (arith, counted, bound))

  -- With as many rounds as events are due, the loop ends, and leaves no first event that is due.
  pub run_due-Ends :
      (n : ℕ) (s : S)
      → due_count (bus_of s).tod (bus_of s).event_q.events ≤ n
      → (o : Outcome S) × (run_due bus_of call pop n s ≡ some o) × Always Settled o
  unfolding run_due
  run_due-Ends zero s h =
      let settled =
        due_callback-counted (bus_of s).tod (bus_of s).event_q.events (omega (arith, h)) in
      (runs s, run_due-settled bus_of call pop zero s settled, settled)
  run_due-Ends (suc n) s h =
      elim (Option-cases (due_callback (bus_of s).tod (bus_of s).event_q.events)) [
        | inl settled ↦ (runs s, run_due-settled bus_of call pop (suc n) s settled, settled)
        | inr (c, due) ↦ elim (Outcome-cases (call c s)) [
          | inl (d, ran) ↦
              rw (run_due, due, ran) (run_due-Ends n (pop d) (round_counts n s d c due ran h))
          | inr (inl out) ↦ rw (run_due, due, out) (_, refl, tt)
          | inr (inr out) ↦ rw (run_due, due, out) (_, refl, tt)
        ]
      ]
