-- ===== src/Device/Terminal/Reachable.antt =====
-- A terminal through every sequence of its operations.
use uriscv.Prelude.{ℕ, suc, ◌≡◌, refl, sym, ◌∙◌, Bool, true, false, ◌||◌, List, arith}
use mathlib.Core.Path.{subst}
use uriscv.Outcome.{Outcome, runs}
use uriscv.Processor.Mode.{Always}
use uriscv.Device.Terminal.{
  TerminalDevice, TerminalActed, built, terminal_write, terminal_complete, input,
}
use uriscv.Device.Terminal.Pending.{
  waiting_after, requested_after, IsTerminal, IsActed, terminal_write-IsActed,
}
use uriscv.Device.Terminal.Completion.{terminal_complete-Completes, Completes}

-- A terminal with the number of its scheduled operations and the state of its interrupt: a register
-- is written, a scheduled operation completes, text is typed, the terminal fails or is repaired.
pub data Reachable : TerminalDevice → ℕ → Bool → Type 0 where
  begins : Reachable built 0 false
  writes :
      {t : TerminalDevice} {n : ℕ} {requested : Bool}
      → Reachable t n requested
      → (tod clock_rate regnum word : ℕ) (r : TerminalActed)
      → terminal_write t tod clock_rate regnum word ≡ r
      → Reachable r.terminal (waiting_after n r.requests) (requested_after requested r.requests)
  completes :
      {t : TerminalDevice} {n : ℕ} {requested : Bool}
      → Reachable t (suc n) requested
      → (tod clock_rate : ℕ) (r : TerminalActed) → terminal_complete t tod clock_rate true ≡ runs r
      → Reachable r.terminal (waiting_after n r.requests) (requested_after requested r.requests)
  types :
      {t : TerminalDevice} {n : ℕ} {requested : Bool}
      → Reachable t n requested
      → (text : List ℕ) (logged : Bool) (u : TerminalDevice) → input t text logged ≡ runs u
      → Reachable u n requested
  breaks :
      {t : TerminalDevice} {n : ℕ} {requested : Bool}
      → Reachable t n requested
      → (working : Bool) → Reachable (record t { is_working = working }) n requested

built-IsTerminal : IsTerminal built 0 false
unfolding built
built-IsTerminal = record {
  counted = refl;
  shared = refl;
  recv_known = λ h. absurd (ground (arith, h));
  tran_known = λ h. absurd (ground (arith, h));
}

runs-injective : {A : Type 0} {x y : A} → runs x ≡ runs y → x ≡ y
runs-injective e = cc

Completes-IsTerminal :
    (t : TerminalDevice) (n : ℕ) (requested : Bool) (w : IsTerminal t (suc n) requested)
    (o : Outcome TerminalActed) (r : TerminalActed)
    → Completes t n requested w o
    → o ≡ runs r
    → IsActed n requested r
Completes-IsTerminal t n requested w o r (u, ran, acted) e =
    subst (IsActed n requested) (runs-injective (sym ran ∙ e)) acted

input-IsTerminal :
    (t : TerminalDevice) (n : ℕ) (requested : Bool) (text : List ℕ) (writes : Bool)
    → IsTerminal t n requested
    → Always (λ v. IsTerminal v n requested) (input t text writes)
unfolding input
input-IsTerminal t n requested text true w = record {
  counted = w.counted;
  shared = w.shared;
  recv_known = w.recv_known;
  tran_known = w.tran_known;
}
input-IsTerminal t n requested text false w = tt

Reachable-IsTerminal :
    (t : TerminalDevice) (n : ℕ) (requested : Bool)
    → Reachable t n requested
    → IsTerminal t n requested
Reachable-IsTerminal _ _ _ begins = built-IsTerminal
Reachable-IsTerminal _ _ _ (writes {t} {n} {requested} s tod rate regnum word r e) =
    subst (IsActed n requested) e (
      terminal_write-IsActed t n requested (Reachable-IsTerminal t n requested s) tod rate regnum
        word)
Reachable-IsTerminal _ _ _ (completes {t} {n} {requested} s tod rate r e) =
    let w = Reachable-IsTerminal t (suc n) requested s in
    Completes-IsTerminal t n requested w _ r (terminal_complete-Completes t n requested w tod rate)
      e
Reachable-IsTerminal _ _ _ (types {t} {n} {requested} s text logged u e) =
    subst (Always (λ v. IsTerminal v n requested)) e
      (input-IsTerminal t n requested text logged (Reachable-IsTerminal t n requested s))
Reachable-IsTerminal _ _ _ (breaks {t} {n} {requested} s working) =
    let w = Reachable-IsTerminal t n requested s in
    record {
      counted = w.counted;
      shared = w.shared;
      recv_known = w.recv_known;
      tran_known = w.tran_known;
    }

-- Whatever a terminal has been through, its interrupt is requested exactly while the receiver or the
-- transmitter has one pending, and an operation that is scheduled can be completed, to a terminal of
-- which the same holds, where its log file takes the character.
pub Reachable-completes :
    (t : TerminalDevice) (n : ℕ) (requested : Bool)
    → Reachable t n requested
    → (requested ≡ (t.recv_int_pend || t.tran_int_pend))
      × ((m tod clock_rate : ℕ)
          → n ≡ suc m
          → (r : TerminalActed) × (terminal_complete t tod clock_rate true ≡ runs r)
            × (requested_after requested r.requests
                ≡ (r.terminal.recv_int_pend || r.terminal.tran_int_pend)))
Reachable-completes t n requested s =
    let w = Reachable-IsTerminal t n requested s in
    (
      w.shared,
      λ m tod rate e.
          let (r, ran, acted) =
            terminal_complete-Completes t m requested (subst (λ k. IsTerminal t k requested) e w)
              tod rate in
          (r, ran, acted.shared),
    )
