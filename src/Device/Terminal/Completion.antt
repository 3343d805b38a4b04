-- ===== src/Device/Terminal/Completion.antt =====
-- The completion of a terminal's operations, and the terminal through every sequence of its operations.
use uriscv.Prelude.{
  ℕ, suc, ◌+◌, ◌-◌, ◌*◌, ◌/◌, ◌%◌, ◌^◌, ◌<◌, ◌≡◌, refl, sym, Bool, true, false, List, [], ◌∷◌, ltb,
  ◌==◌, if◌then◌else◌, bit_or-shifted, Bool-cases, inl, inr, arith,
}
use uriscv.Outcome.{Outcome, runs}
use uriscv.Device.{busy, reset}
use uriscv.Device.Terminal.{
  TerminalDevice, TerminalActed, recvcommand, transtatus, trancommand, recvchr, set_reg,
  terminal_complete, recv_complete, tran_complete, do_recv, recv_char, received, transmitted,
  char_word,
}
use uriscv.Device.Terminal.Pending.{recv_busy, tran_busy, IsTerminal, IsActed, or_comm}

-- The statuses of characters are not that of a busy half.
received-idle : (c : ℕ) → (received c == busy) ≡ false
unfolding received char_word
received-idle c =
    let x = if ltb c 128 then c else c + (2 ^ 32 - 2 ^ 8) in
    let apart : x * 2 ^ 8 % 2 ^ 32 ≡ x % 2 ^ 24 * 2 ^ 8 = omega arith in
    ground (arith, apart, bit_or-shifted 8 (x % 2 ^ 24) 5 (omega arith))

transmitted-idle :
    (t : TerminalDevice) (code : ℕ) → 3 < code → code < 8 → (transmitted t code == busy) ≡ false
unfolding transmitted
transmitted-idle t code low high =
    ground
      (arith, bit_or-shifted 8 (t.reg trancommand / 2 ^ 8 % 2 ^ 8) code (omega (arith, high)), low)

module _ (t : TerminalDevice) (n : ℕ) (requested : Bool) (w : IsTerminal t (suc n) requested) where
  do_recv-busy : do_recv t ≡ true → recv_busy t ≡ true
  unfolding do_recv
  do_recv-busy h = ground (arith, h)

  do_recv-idle : do_recv t ≡ false → tran_busy t ≡ true
  unfolding do_recv
  do_recv-idle h = ground (arith, h, w.counted)

  recv_char-IsActed :
      (tod clock_rate : ℕ) (buf : List ℕ)
      → t.recv_buf ≡ buf
      → recv_busy t ≡ true
      → IsActed n requested (recv_char t tod clock_rate)
  unfolding recv_char set_reg
  recv_char-IsActed tod clock_rate [] e on =
      rw (recv_char, e)
        (record {
          counted = w.counted;
          shared = w.shared;
          recv_known = w.recv_known;
          tran_known = w.tran_known;
        })
  recv_char-IsActed tod clock_rate (c ∷ cs) e on = elim (Bool-cases t.is_working) [
    | inl works ↦
        rw (recv_char, e, works)
          (record {
            counted = ground (arith, w.counted, on, received-idle c);
            shared = refl;
            recv_known = λ h. absurd (ground (arith, h, received-idle c));
            tran_known = w.tran_known;
          })
    | inr broken ↦
        rw (recv_char, e, broken)
          (record {
            counted = ground (arith, w.counted, on);
            shared = refl;
            recv_known = λ h. absurd (ground (arith, h));
            tran_known = w.tran_known;
          })
  ]

  abbrev pub Completes : Outcome TerminalActed → Type 0
  Completes o = (r : TerminalActed) × (o ≡ runs r) × IsActed n requested r

  recv_complete-Completes :
      (tod clock_rate : ℕ) → recv_busy t ≡ true → Completes (recv_complete t tod clock_rate)
  unfolding recv_complete set_reg
  recv_complete-Completes tod clock_rate on = elim (Bool-cases (t.reg recvcommand == reset)) [
    | inl resets ↦
        rw (recv_complete, resets)
          (
            _,
            refl,
            record {
              counted = ground (arith, w.counted, on);
              shared = refl;
              recv_known = λ h. absurd (ground (arith, h));
              tran_known = w.tran_known;
            },
          )
    | inr a ↦
        let receives : (t.reg recvcommand == recvchr) ≡ true = ground (arith, w.recv_known on, a) in
        rw (recv_complete, a, receives)
          (_, refl, recv_char-IsActed tod clock_rate t.recv_buf refl on)
  ]

  -- A half's status that is not that of a busy one.
  tran_done :
      (v : ℕ) (works : Bool) (chars : List ℕ)
      → tran_busy t ≡ true
      → (v == busy) ≡ false
      → IsTerminal
          (record (set_reg t transtatus v) {
            is_working = works;
            tran_int_pend = true;
            log = chars;
          })
          n
          true
  unfolding set_reg
  tran_done v works chars on done = record {
    counted = ground (arith, w.counted, on, done);
    shared = sym (or_comm t.recv_int_pend true);
    recv_known = w.recv_known;
    tran_known = λ h. absurd (ground (arith, h, done));
  }

  tran_complete-Completes : tran_busy t ≡ true → Completes (tran_complete t true)
  unfolding tran_complete set_reg
  tran_complete-Completes on = elim (Bool-cases (t.reg trancommand % 256 == 0)) [
    | inl resets ↦ rw (tran_complete, resets) (_, refl, tran_done 1 t.is_working t.log on refl)
    | inr a ↦
        let sends : (t.reg trancommand % 256 == 2) ≡ true = ground (arith, w.tran_known on, a) in
        elim (Bool-cases t.is_working) [
          | inl works ↦
              rw (tran_complete, a, sends, works)
                (
                  _,
                  refl,
                  tran_done (transmitted t 5) true _ on
                      (transmitted-idle t 5 (omega arith) (omega arith)),
                )
          | inr broken ↦
              rw (tran_complete, a, sends, broken)
                (
                  _,
                  refl,
                  tran_done (transmitted t 4) false t.log on
                      (transmitted-idle t 4 (omega arith) (omega arith)),
                )
        ]
  ]

  pub terminal_complete-Completes :
      (tod clock_rate : ℕ) → Completes (terminal_complete t tod clock_rate true)
  unfolding terminal_complete
  terminal_complete-Completes tod clock_rate = elim (Bool-cases (do_recv t)) [
    | inl recv ↦
        rw (terminal_complete, recv) (recv_complete-Completes tod clock_rate (do_recv-busy recv))
    | inr tran ↦ rw (terminal_complete, tran) (tran_complete-Completes (do_recv-idle tran))
  ]
