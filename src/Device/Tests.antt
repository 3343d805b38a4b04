-- ===== src/Device/Tests.antt =====
-- A terminal that is told to transmit a character.
use uriscv.Prelude.{ℕ, suc, ◌≡◌, refl, true, false, ◌||◌}
use uriscv.Outcome.{runs}
use uriscv.Device.Terminal.{
  TerminalDevice, TerminalActed, built, terminal_write, tran_command, terminal_complete,
}
use uriscv.Device.Terminal.Pending.{requested_after}
use uriscv.Device.Terminal.Reachable.{begins, writes, Reachable-completes}

-- The command that transmits the character 65.
abbrev sending : TerminalActed
sending = terminal_write built 100 1 3 0x4102

abbrev sent : TerminalDevice
sent = sending.terminal

Reachable-completes_example :
    (false ≡ (sent.recv_int_pend || sent.tran_int_pend))
    × ((m tod clock_rate : ℕ)
        → 1 ≡ suc m
        → (r : TerminalActed) × (terminal_complete sent tod clock_rate true ≡ runs r)
          × (requested_after false r.requests
              ≡ (r.terminal.recv_int_pend || r.terminal.tran_int_pend)))
unfolding terminal_write tran_command built
Reachable-completes_example =
    Reachable-completes sent 1 false (writes begins 100 1 3 0x4102 sending refl)
