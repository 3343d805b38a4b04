-- ===== src/Device/Terminal.antt =====
-- `TerminalDevice` of uriscv/device.cc: a receiver and a transmitter with one interrupt between them.
-- The unreceived part of the input is a list of characters, as are the log file and the line that is
-- printed when it ends; whether the file takes a character is a parameter. `char` is signed.
pub mod Pending
pub mod Completion
pub mod Reachable
use uriscv.Prelude.{
  ℕ, ◌+◌, ◌-◌, ◌*◌, ◌/◌, ◌%◌, ◌^◌, Bool, true, false, not, ◌&&◌, ◌||◌, List, [], ◌∷◌, ◌++◌, ltb,
  leb, ◌==◌, if◌then◌else◌, update, bit_or,
}
use uriscv.Outcome.{Outcome, runs, exits}
use uriscv.Device.{
  Request, int_req, int_ack, schedule_io, ready, iloperr, busy, reset, ack, io_delay, io_deadline,
}

abbrev pub recvstatus : ℕ
recvstatus = 0

abbrev pub recvcommand : ℕ
recvcommand = 1

abbrev pub transtatus : ℕ
transtatus = 2

abbrev pub trancommand : ℕ
trancommand = 3

abbrev pub tranchr : ℕ
tranchr = 2

abbrev pub recvchr : ℕ
recvchr = 2

abbrev pub tranerr : ℕ
tranerr = 4

abbrev pub recverr : ℕ
recverr = 4

abbrev pub recvd : ℕ
recvd = 5

abbrev pub transmd : ℕ
transmd = 5

abbrev pub termreset_time : ℕ
termreset_time = 400

abbrev pub tranchr_time : ℕ
tranchr_time = 80

abbrev pub recvchr_time : ℕ
recvchr_time = 80

pub record TerminalDevice : Type 0 where
  pub reg : ℕ → ℕ
  pub is_working : Bool
  pub recv_c_time : ℕ
  pub tran_c_time : ℕ
  pub recv_int_pend : Bool
  pub tran_int_pend : Bool
  pub recv_buf : List ℕ
  pub tran_buf : List ℕ
  pub log : List ℕ

-- A terminal as it is built, on registers that are 0.
unfoldable pub built : TerminalDevice
built = record {
  reg = update (update (λ _. 0) recvstatus ready) transtatus ready;
  is_working = true;
  recv_c_time = 0;
  tran_c_time = 0;
  recv_int_pend = false;
  tran_int_pend = false;
  recv_buf = [];
  tran_buf = [];
  log = [];
}

pub record TerminalActed : Type 0 where
  pub terminal : TerminalDevice
  pub requests : List Request

unfoldable pub set_reg : TerminalDevice → ℕ → ℕ → TerminalDevice
set_reg t i v = record t { reg = update t.reg i v }

-- An acknowledgement reaches the bus only where the other half has no interrupt pending.
unfoldable pub ack_unless : Bool → List Request
ack_unless other = if other then [] else int_ack ∷ []

-- A command of the receiver that takes time, and one of the transmitter.
unfoldable pub recv_started : TerminalDevice → ℕ → ℕ → TerminalActed
unfolding set_reg ack_unless
recv_started t tod delay = record {
  terminal = record (set_reg t recvstatus busy) {
    recv_int_pend = false;
    recv_c_time = io_deadline tod delay;
  };
  requests = ack_unless t.tran_int_pend ++ (schedule_io delay ∷ []);
}

unfoldable pub tran_started : TerminalDevice → ℕ → ℕ → TerminalActed
unfolding set_reg ack_unless
tran_started t tod delay = record {
  terminal = record (set_reg t transtatus busy) {
    tran_int_pend = false;
    tran_c_time = io_deadline tod delay;
  };
  requests = ack_unless t.recv_int_pend ++ (schedule_io delay ∷ []);
}

unfoldable pub recv_command : TerminalDevice → ℕ → ℕ → ℕ → TerminalActed
unfolding set_reg ack_unless recv_started
recv_command t tod clock_rate word =
    let u : TerminalDevice = set_reg t recvcommand word in
    if word == reset
    then recv_started u tod (io_delay termreset_time clock_rate)
    else if word == ack
    then record {
      terminal = record (set_reg u recvstatus ready) { recv_int_pend = false };
      requests = ack_unless t.tran_int_pend;
    }
    else if word == recvchr
    then recv_started u tod (io_delay recvchr_time clock_rate)
    else record {
      terminal = record (set_reg u recvstatus iloperr) { recv_int_pend = true };
      requests = int_req ∷ [];
    }

-- The line that the transmitter gathers is printed at its end.
gathered : List ℕ → ℕ → List ℕ
gathered line c = if c == 10 then [] else line ++ (c ∷ [])

unfoldable pub tran_command : TerminalDevice → ℕ → ℕ → ℕ → TerminalActed
unfolding set_reg ack_unless tran_started gathered
tran_command t tod clock_rate word =
    let u : TerminalDevice = set_reg t trancommand word in
    let code = word % 2 ^ 8 in
    if code == reset
    then tran_started u tod (io_delay termreset_time clock_rate)
    else if code == ack
    then record {
      terminal = record (set_reg u transtatus ready) { tran_int_pend = false };
      requests = ack_unless t.recv_int_pend;
    }
    else if code == tranchr
    then tran_started (record u { tran_buf = gathered u.tran_buf (word / 2 ^ 8 % 2 ^ 8) }) tod
        (io_delay tranchr_time clock_rate)
    else record {
      terminal = record (set_reg u transtatus iloperr) { tran_int_pend = true };
      requests = int_req ∷ [];
    }

-- `WriteDevReg`: each half takes a command while it is not busy.
unfoldable pub terminal_write : TerminalDevice → ℕ → ℕ → ℕ → ℕ → TerminalActed
unfolding recv_command tran_command
terminal_write t tod clock_rate regnum word =
    if regnum == recvcommand && not (t.reg recvstatus == busy)
    then recv_command t tod clock_rate word
    else if regnum == trancommand && not (t.reg transtatus == busy)
    then tran_command t tod clock_rate word
    else record { terminal = t; requests = [] }

-- A `char` as a word, and the status of a received character.
unfoldable pub char_word : ℕ → ℕ
char_word c = if ltb c 128 then c else c + (2 ^ 32 - 2 ^ 8)

unfoldable pub received : ℕ → ℕ
unfolding char_word
received c = bit_or (char_word c * 2 ^ 8 % 2 ^ 32) recvd

unfoldable pub recv_char : TerminalDevice → ℕ → ℕ → TerminalActed
unfolding set_reg received
recv_char t tod clock_rate = elim t.recv_buf [
  | [] ↦ record {
    terminal = record t { recv_c_time = io_deadline tod (io_delay recvchr_time clock_rate) };
    requests = schedule_io (io_delay recvchr_time clock_rate) ∷ [];
  }
  | c ∷ cs ↦ record {
    terminal =
        if t.is_working
        then record (set_reg t recvstatus (received c)) { recv_int_pend = true; recv_buf = cs }
        else record (set_reg t recvstatus recverr) { recv_int_pend = true };
    requests = int_req ∷ [];
  }
]

unfoldable pub recv_complete : TerminalDevice → ℕ → ℕ → Outcome TerminalActed
unfolding set_reg recv_char
recv_complete t tod clock_rate =
    if t.reg recvcommand == reset
    then runs (record {
      terminal = record (set_reg t recvstatus ready) { recv_int_pend = true };
      requests = int_req ∷ [];
    })
    else if t.reg recvcommand == recvchr
    then runs (recv_char t tod clock_rate)
    else exits

-- The status of a transmitted character keeps it in its second byte.
unfoldable pub transmitted : TerminalDevice → ℕ → ℕ
transmitted t code = bit_or (t.reg trancommand / 2 ^ 8 % 2 ^ 8 * 2 ^ 8) code

unfoldable pub tran_complete : TerminalDevice → Bool → Outcome TerminalActed
unfolding set_reg transmitted
tran_complete t writes =
    if t.reg trancommand % 2 ^ 8 == reset
    then runs (record {
      terminal = record (set_reg t transtatus ready) { tran_int_pend = true };
      requests = int_req ∷ [];
    })
    else if t.reg trancommand % 2 ^ 8 == tranchr
    then if not t.is_working
      then runs (record {
        terminal = record (set_reg t transtatus (transmitted t tranerr)) { tran_int_pend = true };
        requests = int_req ∷ [];
      })
      else if writes
      then runs (record {
        terminal = record (set_reg t transtatus (transmitted t transmd)) {
          tran_int_pend = true;
          log = t.log ++ (t.reg trancommand / 2 ^ 8 % 2 ^ 8 ∷ []);
        };
        requests = int_req ∷ [];
      })
      else exits
    else exits

-- Whether the receiver is the half that completes: of two that are busy, the one that is due first.
unfoldable pub do_recv : TerminalDevice → Bool
do_recv t =
    if t.reg recvstatus == busy && t.reg transtatus == busy
    then leb t.recv_c_time t.tran_c_time
    else t.reg recvstatus == busy

-- `CompleteDevOp`.
unfoldable pub terminal_complete : TerminalDevice → ℕ → ℕ → Bool → Outcome TerminalActed
unfolding do_recv recv_complete tran_complete
terminal_complete t tod clock_rate writes =
    if do_recv t then recv_complete t tod clock_rate else tran_complete t writes

-- `Input`: the text follows what is not received yet, with the end of its line, and is logged.
unfoldable pub input : TerminalDevice → List ℕ → Bool → Outcome TerminalDevice
input t text writes =
    if writes
    then runs
        (record t { recv_buf = t.recv_buf ++ text ++ (10 ∷ []); log = t.log ++ text ++ (10 ∷ []) })
    else exits
