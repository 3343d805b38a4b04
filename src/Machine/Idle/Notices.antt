-- ===== src/Machine/Idle/Notices.antt =====
-- What observers see of the writes of the bus for itself, before and after `step` clears its flags.
use uriscv.Prelude.{ℕ, ◌≡◌, refl, ◌∙◌, ap, Bool, true, false, Option, none, some, if◌then◌else◌}
use uriscv.Outcome.{Outcome, runs, exits, undefined, ◌>>=◌}
use uriscv.Processor.Constants.{access_write}
use uriscv.Stop.{Stoppoint}
use uriscv.Machine.{notify_clock, notify_timer}
use uriscv.Machine.Watch.{
  StopState, cleared, notify_write, probe_in, suspected, has, sc_suspect, maxasid,
}

-- Whether a write of the bus for itself is seen does not depend on what `step` clears.
module _ (n : ℕ) where
  traced_cleared :
      (w : StopState) (o : Outcome (Option Stoppoint))
      → (o >>= (λ p. runs (cleared n w))) ≡ ((o >>= (λ p. runs w)) >>= (λ v. runs (cleared n v)))
  traced_cleared w (runs p) = refl
  traced_cleared w exits = refl
  traced_cleared w undefined = refl

  abbrev noticed : ℕ → StopState → Bool → Outcome (Option Stoppoint) → Outcome StopState
  noticed addr w on o =
      (if on
        then (o >>= (λ hit. elim hit [ none ↦ runs w | some p ↦ suspected w none p ]))
        else runs w)
      >>= (λ v. probe_in v.tracepoints maxasid addr access_write >>= (λ p. runs v))

  noticed-cleared :
      (addr : ℕ) (w : StopState) (on : Bool) (o : Outcome (Option Stoppoint))
      → noticed addr (cleared n w) on o ≡ (noticed addr w on o >>= (λ v. runs (cleared n v)))
  unfolding suspected cleared
  noticed-cleared addr w false o =
      traced_cleared w (probe_in w.tracepoints maxasid addr access_write)
  noticed-cleared addr w true (runs none) =
      traced_cleared w (probe_in w.tracepoints maxasid addr access_write)
  noticed-cleared addr w true (runs (some p)) = refl
  noticed-cleared addr w true exits = refl
  noticed-cleared addr w true undefined = refl

  notify_write-cleared :
      (w : StopState) (addr : ℕ)
      → notify_write (cleared n w) addr ≡ (notify_write w addr >>= (λ v. runs (cleared n v)))
  unfolding notify_write cleared
  notify_write-cleared w addr =
      noticed-cleared addr w (has w.stop_mask sc_suspect)
        (probe_in w.suspects maxasid addr access_write)

  twice-cleared :
      (o : Outcome StopState) (addr : ℕ)
      → ((o >>= (λ v. runs (cleared n v))) >>= (λ v. notify_write v addr))
        ≡ ((o >>= (λ v. notify_write v addr)) >>= (λ v. runs (cleared n v)))
  twice-cleared (runs v) addr = notify_write-cleared v addr
  twice-cleared exits addr = refl
  twice-cleared undefined addr = refl

  pub notify_clock-cleared :
      (w : StopState) → notify_clock w ≡ runs w → notify_clock (cleared n w) ≡ runs (cleared n w)
  unfolding notify_clock
  notify_clock-cleared w h =
      ap (λ o. o >>= (λ v. notify_write v 0x1000001c)) (notify_write-cleared w 0x10000018)
      ∙ twice-cleared (notify_write w 0x10000018) 0x1000001c
      ∙ ap (λ o. o >>= (λ v. runs (cleared n v))) h

  pub notify_timer-cleared :
      (w : StopState) → notify_timer w ≡ runs w → notify_timer (cleared n w) ≡ runs (cleared n w)
  unfolding notify_timer
  notify_timer-cleared w h =
      notify_write-cleared w 0x10000020 ∙ ap (λ o. o >>= (λ v. runs (cleared n v))) h
