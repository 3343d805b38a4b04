-- ===== src/Device/Terminal/Pending.antt =====
-- The interrupt that the halves of a terminal share, and the operations that wait for their end.
use uriscv.Prelude.{
  ℕ, suc, ◌+◌, ◌%◌, ◌^◌, ◌≡◌, refl, ◌∙◌, ap, Bool, true, false, not, ◌&&◌, ◌||◌, List, [], ◌∷◌,
  ◌++◌, ◌==◌, if◌then◌else◌, Bool-cases, inl, inr, arith,
}
use uriscv.Device.{Request, int_req, int_ack, schedule_io, busy, reset}
use uriscv.Device.Terminal.{
  TerminalDevice, TerminalActed, recvstatus, recvcommand, transtatus, trancommand, recvchr, tranchr,
  set_reg, terminal_write, recv_command, tran_command, recv_started, tran_started, ack_unless,
}

-- How many operations are scheduled, and whether the interrupt is requested, after requests.
abbrev pub waiting_after : ℕ → List Request → ℕ
waiting_after n [] = n
waiting_after n (int_req ∷ rs) = waiting_after n rs
waiting_after n (int_ack ∷ rs) = waiting_after n rs
waiting_after n (schedule_io delay ∷ rs) = waiting_after (suc n) rs

abbrev pub requested_after : Bool → List Request → Bool
requested_after b [] = b
requested_after b (int_req ∷ rs) = requested_after true rs
requested_after b (int_ack ∷ rs) = requested_after false rs
requested_after b (schedule_io delay ∷ rs) = requested_after b rs

abbrev pub recv_busy : TerminalDevice → Bool
recv_busy t = t.reg recvstatus == busy

abbrev pub tran_busy : TerminalDevice → Bool
tran_busy t = t.reg transtatus == busy

-- One operation waits for each half that is busy, with a command that takes time, and the interrupt
-- is requested exactly while a half has it pending.
pub record IsTerminal (t : TerminalDevice) (waiting : ℕ) (requested : Bool) : Type 0 where
  pub counted : waiting ≡ (if recv_busy t then 1 else 0) + (if tran_busy t then 1 else 0)
  pub shared : requested ≡ (t.recv_int_pend || t.tran_int_pend)
  pub recv_known :
      recv_busy t ≡ true → (t.reg recvcommand == reset || t.reg recvcommand == recvchr) ≡ true
  pub tran_known :
      tran_busy t ≡ true
      → (t.reg trancommand % 2 ^ 8 == reset || t.reg trancommand % 2 ^ 8 == tranchr) ≡ true

abbrev pub IsActed : ℕ → Bool → TerminalActed → Type 0
IsActed waiting requested r =
    IsTerminal r.terminal (waiting_after waiting r.requests) (requested_after requested r.requests)

or-true : (b : Bool) → (b || true) ≡ true
or-true true = refl
or-true false = refl

-- What an acknowledgement that another half's interrupt holds back leaves requested.
acked :
    (requested mine other : Bool) (rs : List Request)
    → requested ≡ (mine || other)
    → requested_after requested (ack_unless other ++ rs) ≡ requested_after other rs
unfolding ack_unless
acked requested mine true rs h = ap (λ b. requested_after b rs) (h ∙ or-true mine)
acked requested mine false rs h = refl

unscheduled :
    (waiting : ℕ) (other : Bool) (rs : List Request)
    → waiting_after waiting (ack_unless other ++ rs) ≡ waiting_after waiting rs
unfolding ack_unless
unscheduled waiting true rs = refl
unscheduled waiting false rs = refl

acked_only :
    (requested mine other : Bool)
    → requested ≡ (mine || other)
    → requested_after requested (ack_unless other) ≡ other
unfolding ack_unless
acked_only requested mine true h = h ∙ or-true mine
acked_only requested mine false h = refl

unscheduled_only : (waiting : ℕ) (other : Bool) → waiting_after waiting (ack_unless other) ≡ waiting
unfolding ack_unless
unscheduled_only waiting true = refl
unscheduled_only waiting false = refl

pub or_comm : (a b : Bool) → (a || b) ≡ (b || a)
or_comm true true = refl
or_comm true false = refl
or_comm false true = refl
or_comm false false = refl

module _ (t : TerminalDevice) (waiting : ℕ) (requested : Bool)
    (w : IsTerminal t waiting requested) where
  recv_started-IsActed :
      (tod delay word : ℕ)
      → recv_busy t ≡ false
      → (word == reset || word == recvchr) ≡ true
      → IsActed waiting requested (recv_started (set_reg t recvcommand word) tod delay)
  unfolding recv_started set_reg
  recv_started-IsActed tod delay word idle known =
      rw
        (
          acked requested t.recv_int_pend t.tran_int_pend (schedule_io delay ∷ []) w.shared,
          unscheduled waiting t.tran_int_pend (schedule_io delay ∷ []),
        )
        (record {
          counted = ground (arith, w.counted, idle);
          shared = refl;
          recv_known = λ h. known;
          tran_known = w.tran_known;
        })

  recv_command-IsActed :
      (tod clock_rate word : ℕ)
      → recv_busy t ≡ false
      → IsActed waiting requested (recv_command t tod clock_rate word)
  unfolding recv_command set_reg
  recv_command-IsActed tod clock_rate word idle = elim (Bool-cases (word == 0)) [
    | inl resets ↦
        rw (recv_command, resets) (recv_started-IsActed tod _ word idle (ground (arith, resets)))
    | inr a ↦ elim (Bool-cases (word == 1)) [
      | inl acks ↦
          rw
            (
              recv_command,
              a,
              acks,
              acked_only requested t.recv_int_pend t.tran_int_pend w.shared,
              unscheduled_only waiting t.tran_int_pend,
            )
            (record {
              counted = ground (arith, w.counted, idle);
              shared = refl;
              recv_known = λ h. absurd (ground (arith, h));
              tran_known = w.tran_known;
            })
      | inr b ↦ elim (Bool-cases (word == 2)) [
        | inl receives ↦
            rw (recv_command, a, b, receives)
              (recv_started-IsActed tod _ word idle (ground (arith, receives)))
        | inr c ↦
            rw (recv_command, a, b, c)
              (record {
                counted = ground (arith, w.counted, idle);
                shared = refl;
                recv_known = λ h. absurd (ground (arith, h));
                tran_known = w.tran_known;
              })
      ]
    ]
  ]

  tran_started-IsActed :
      (tod delay word : ℕ) (line : List ℕ)
      → tran_busy t ≡ false
      → (word % 2 ^ 8 == reset || word % 2 ^ 8 == tranchr) ≡ true
      → IsActed waiting requested
          (tran_started (record (set_reg t trancommand word) { tran_buf = line }) tod delay)
  unfolding tran_started set_reg
  tran_started-IsActed tod delay word line idle known =
      let shared : requested ≡ (t.tran_int_pend || t.recv_int_pend) =
        w.shared ∙ or_comm t.recv_int_pend t.tran_int_pend in
      rw
        (
          acked requested t.tran_int_pend t.recv_int_pend (schedule_io delay ∷ []) shared,
          unscheduled waiting t.recv_int_pend (schedule_io delay ∷ []),
        )
        (record {
          counted = ground (arith, w.counted, idle);
          shared = or_comm false t.recv_int_pend;
          recv_known = w.recv_known;
          tran_known = λ h. known;
        })

  tran_command-IsActed :
      (tod clock_rate word : ℕ)
      → tran_busy t ≡ false
      → IsActed waiting requested (tran_command t tod clock_rate word)
  unfolding tran_command set_reg
  tran_command-IsActed tod clock_rate word idle =
      let shared : requested ≡ (t.tran_int_pend || t.recv_int_pend) =
        w.shared ∙ or_comm t.recv_int_pend t.tran_int_pend in
      elim (Bool-cases (word % 256 == 0)) [
        | inl resets ↦
            rw (tran_command, resets)
              (tran_started-IsActed tod _ word t.tran_buf idle (ground (arith, resets)))
        | inr a ↦ elim (Bool-cases (word % 256 == 1)) [
          | inl acks ↦
              rw
                (
                  tran_command,
                  a,
                  acks,
                  acked_only requested t.tran_int_pend t.recv_int_pend shared,
                  unscheduled_only waiting t.recv_int_pend,
                )
                (record {
                  counted = ground (arith, w.counted, idle);
                  shared = or_comm false t.recv_int_pend;
                  recv_known = w.recv_known;
                  tran_known = λ h. absurd (ground (arith, h));
                })
          | inr b ↦ elim (Bool-cases (word % 256 == 2)) [
            | inl sends ↦
                rw (tran_command, a, b, sends)
                  (tran_started-IsActed tod _ word _ idle (ground (arith, sends)))
            | inr c ↦
                rw (tran_command, a, b, c)
                  (record {
                    counted = ground (arith, w.counted, idle);
                    shared = or_comm true t.recv_int_pend;
                    recv_known = w.recv_known;
                    tran_known = λ h. absurd (ground (arith, h));
                  })
          ]
        ]
      ]

  pub terminal_write-IsActed :
      (tod clock_rate regnum word : ℕ)
      → IsActed waiting requested (terminal_write t tod clock_rate regnum word)
  unfolding terminal_write
  terminal_write-IsActed tod clock_rate regnum word =
      elim (Bool-cases (regnum == recvcommand && not (t.reg recvstatus == busy))) [
        | inl recv ↦
            rw (terminal_write, recv)
              (recv_command-IsActed tod clock_rate word (ground (arith, recv)))
        | inr a ↦ elim (Bool-cases (regnum == trancommand && not (t.reg transtatus == busy))) [
          | inl tran ↦
              rw (terminal_write, a, tran)
                (tran_command-IsActed tod clock_rate word (ground (arith, tran)))
          | inr b ↦ rw (terminal_write, a, b) w
        ]
      ]
