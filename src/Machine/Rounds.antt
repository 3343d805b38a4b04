-- ===== src/Machine/Rounds.antt =====
-- The rounds that `step` runs, and why it returns.
use uriscv.Prelude.{
  ℕ, zero, suc, ◌+◌, ◌≤◌, ◌<◌, ◌≡◌, ◌⊎◌, refl, ◌∙◌, ap, true, false, Bool, not, ◌&&◌, Option, some,
  ltb, Bool-cases, inl, inr, length, arith,
}
use uriscv.Bus.Clock.Rounds.{Outcome-cases}
use uriscv.Outcome.{Outcome, runs, exits, undefined}
use uriscv.Processor.Access.{BusOps}
use uriscv.Bus.{SystemBus}
use uriscv.Machine.{Machine, Stepped, round, step_loop, step, going, restarted}
use uriscv.Machine.Watch.{cleared}
use uriscv.Machine.Clock.{Completed, clock_tick}
use uriscv.Machine.Clock.Ends.{Punctual, clock_tick-Ends}

-- The machine on which the rounds start: as it was, but with no stop and no pause requested, and
-- with no stop cause of a processor.
pub record Begins {D : Type 0} (m s : Machine D) : Type 0 where
  pub same_bus : s.bus ≡ m.bus
  pub same_cpus : s.cpus ≡ m.cpus
  pub same_power : s.halted ≡ m.halted
  pub same_mask : s.stops.stop_mask ≡ m.stops.stop_mask
  pub same_points :
      (s.stops.breakpoints ≡ m.stops.breakpoints)
      × (s.stops.suspects ≡ m.stops.suspects)
      × (s.stops.tracepoints ≡ m.stops.tracepoints)
  pub no_stop : s.stops.stop_requested ≡ false
  pub no_pause : s.stops.pause_requested ≡ false
  pub no_cause : (id : ℕ) → id < length m.cpus → (s.stops.pd id).stop_cause ≡ 0

-- A machine whose power is on, and which is not told to stop or to pause.
pub record GoesOn {D : Type 0} (m : Machine D) : Type 0 where
  pub power : m.halted ≡ false
  pub stop : m.stops.stop_requested ≡ false
  pub pause : m.stops.pause_requested ≡ false

abbrev pub IsOver : {D : Type 0} → Machine D → Type 0
IsOver m = (m.halted ≡ true) ⊎ ((m.stops.stop_requested ≡ true) ⊎ (m.stops.pause_requested ≡ true))

module _ {D : Type 0} (run : Machine D → Option (Outcome (Machine D))) where
  -- So many rounds, each of which begins on a machine that goes on.
  pub data Trace : ℕ → Machine D → Machine D → Type 0 where
    begun : {s : Machine D} → Trace zero s s
    goes :
        {k : ℕ} {s m d : Machine D}
        → GoesOn s
        → run s ≡ some (runs m)
        → Trace k m d
        → Trace (suc k) s d

  -- How stepping for n rounds ends after k rounds on d: because all rounds are run or d is over, or in
  -- the midst of a round more.
  pub data Ending (n k : ℕ) (d : Machine D) : Outcome (Stepped D) → Type 0 where
    returns :
        {r : Stepped D}
        → r.machine ≡ d
        → r.stepped ≡ k
        → r.stopped ≡ d.stops.stop_requested
        → k ≤ n
        → (k ≡ n) ⊎ IsOver d
        → Ending n k d (runs r)
    quits : k < n → GoesOn d → run d ≡ some exits → Ending n k d exits
    breaks : k < n → GoesOn d → run d ≡ some undefined → Ending n k d undefined

  abbrev pub RunsTo : ℕ → Machine D → Outcome (Stepped D) → Type 0
  RunsTo n s o = (k : ℕ) × (d : Machine D) × Trace k s d × Ending n k d o

  Trace-snoc :
      {k : ℕ} {s m d : Machine D}
      → Trace k s m
      → GoesOn m
      → run m ≡ some (runs d)
      → Trace (suc k) s d
  Trace-snoc begun on e = goes on e begun
  Trace-snoc (goes first e t) on f = goes first e (Trace-snoc t on f)

module _ {D : Type 0} where
  restarted-Begins : (m : Machine D) → Begins m (restarted m)
  unfolding cleared
  restarted-Begins m = record {
    same_bus = refl;
    same_cpus = refl;
    same_power = refl;
    same_mask = refl;
    same_points = (refl, refl, refl);
    no_stop = refl;
    no_pause = refl;
    no_cause = λ id h. (let low : ltb id (length m.cpus) ≡ true = ground (arith, h) in rw low refl);
  }

-- The test of the loop.
is_over :
    (h s p : Bool) → (not h && not s && not p) ≡ false → (h ≡ true) ⊎ ((s ≡ true) ⊎ (p ≡ true))
is_over true s p e = inl refl
is_over false true p e = inr (inl refl)
is_over false false true e = inr (inr refl)
is_over false false false e = absurd cc

on : (h s p : Bool) → (not h && not s && not p) ≡ true → (h ≡ false) × (s ≡ false) × (p ≡ false)
on true s p e = absurd cc
on false true p e = absurd cc
on false false true e = absurd cc
on false false false e = (refl, refl, refl)

module _ {D : Type 0} (b : BusOps (SystemBus D)) (tick : Machine D → Option (Outcome (Machine D)))
    (ticks : (m : Machine D) → (o : Outcome (Machine D)) × (tick m ≡ some o)) where
  round_ends : (m : Machine D) → (o : Outcome (Machine D)) × (round b tick m ≡ some o)
  unfolding round
  round_ends m = let (o, e) = ticks m in rw (round, e) (_, refl)

  goes_on : (m : Machine D) → going b tick m ≡ true → GoesOn m
  goes_on m e =
      let (power, stop, pause) = on m.halted m.stops.stop_requested m.stops.pause_requested e in
      record { power = power; stop = stop; pause = pause }

  step_loop-RunsTo :
      (n k all : ℕ) (s m : Machine D)
      → Trace (round b tick) k s m
      → k + n ≡ all
      → (o : Outcome (Stepped D)) × (step_loop b tick n k m ≡ some o)
        × RunsTo (round b tick) all s o
  unfolding step_loop
  step_loop-RunsTo zero k all s m t e =
      (_, refl, (k, m, t, returns refl refl refl (omega (arith, e)) (inl (omega (arith, e)))))
  step_loop-RunsTo (suc n) k all s m t e = elim (Bool-cases (going b tick m)) [
    | inr off ↦
        rw (step_loop, off)
          (
            _,
            refl,
            (
              k,
              m,
              t,
              returns refl refl refl (omega (arith, e))
                  (inr (is_over m.halted m.stops.stop_requested m.stops.pause_requested off)),
            ),
          )
    | inl more ↦
        let (o, ran) = round_ends m in
        elim (Outcome-cases o) [
          | inl (d, now) ↦
              rw (step_loop, more, ran, now)
                (step_loop-RunsTo n (suc k) all s d
                  (Trace-snoc (round b tick) t (goes_on m more) (ran ∙ ap some now))
                  (omega (arith, e)))
          | inr (inl out) ↦
              rw (step_loop, more, ran, out)
                (_, refl, (k, m, t, quits (omega (arith, e)) (goes_on m more) (ran ∙ ap some out)))
          | inr (inr out) ↦
              rw (step_loop, more, ran, out)
                (_, refl, (k, m, t, breaks (omega (arith, e)) (goes_on m more) (ran ∙ ap some out)))
        ]
  ]

clock_tick_ends :
    {D : Type 0} (b : BusOps (SystemBus D)) (complete : ℕ → ℕ → SystemBus D → Outcome (Completed D))
    → Punctual b complete
    → (m : Machine D) → (o : Outcome (Machine D)) × (clock_tick b complete m ≡ some o)
clock_tick_ends b complete law m = let (o, e, settled) = clock_tick-Ends b complete law m in (o, e)

-- `step` ends, provided that the ends of devices' operations schedule nothing that is due at once. It
-- begins with no stop, no pause and no stop cause left over, and runs round after round, each on a
-- machine that is on and is not told to stop or to pause, no more than it was asked for. Where it
-- returns it has run them all, or the machine is off or was told to stop or to pause; it answers how
-- many it ran and whether a stop was requested. Else a round ended the emulator or was undefined.
pub step-RunsTo :
    {D : Type 0} (b : BusOps (SystemBus D)) (complete : ℕ → ℕ → SystemBus D → Outcome (Completed D))
    → Punctual b complete
    → (n : ℕ) (m : Machine D)
    → (o : Outcome (Stepped D)) × (step b (clock_tick b complete) n m ≡ some o)
      × (s : Machine D) × Begins m s
      × RunsTo (round b (clock_tick b complete)) n s o
unfolding step
step-RunsTo b complete law n m =
    let (o, e, ran) =
      step_loop-RunsTo b (clock_tick b complete) (clock_tick_ends b complete law) n 0 n
        (restarted m) (restarted m) begun (omega arith) in
    (o, e, restarted m, restarted-Begins m, ran)
