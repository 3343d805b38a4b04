-- ===== src/Device/Printer.antt =====
-- `PrinterDevice` of uriscv/device.cc. The characters that have reached the log file are a list, and
-- whether the file takes a character is a parameter.
use uriscv.Prelude.{ℕ, ◌%◌, ◌^◌, Bool, not, List, [], ◌∷◌, ◌++◌, ◌==◌, if◌then◌else◌}
use uriscv.Outcome.{Outcome, runs, exits}
use uriscv.Device.{
  Device, Request, int_req, int_ack, schedule_io, ready, iloperr, busy, reset, ack, status, command,
  data0, set_reg, io_delay, io_deadline,
}

abbrev pub prntchr : ℕ
prntchr = 2

abbrev pub prnterr : ℕ
prnterr = 4

abbrev pub prntreset_time : ℕ
prntreset_time = 40

abbrev pub prntchr_time : ℕ
prntchr_time = 8

pub record PrinterDevice : Type 0 where
  pub device : Device
  pub printed : List ℕ

pub record PrinterActed : Type 0 where
  pub printer : PrinterDevice
  pub requests : List Request

-- A command that takes time.
started : PrinterDevice → ℕ → ℕ → PrinterActed
unfolding set_reg
started p tod delay = record {
  printer = record p {
    device = record (set_reg p.device status busy) { compl_time = io_deadline tod delay };
  };
  requests = int_ack ∷ schedule_io delay ∷ [];
}

printer_command : PrinterDevice → ℕ → ℕ → ℕ → PrinterActed
unfolding started set_reg
printer_command p tod clock_rate word =
    let q : PrinterDevice = record p { device = set_reg p.device command word } in
    if word == reset
    then started q tod (io_delay prntreset_time clock_rate)
    else if word == ack
    then record {
      printer = record q { device = set_reg q.device status ready };
      requests = int_ack ∷ [];
    }
    else if word == prntchr
    then started q tod (io_delay prntchr_time clock_rate)
    else record {
      printer = record q { device = set_reg q.device status iloperr };
      requests = int_req ∷ [];
    }

-- `WriteDevReg`: registers are written while the device is not busy.
unfoldable pub printer_write : PrinterDevice → ℕ → ℕ → ℕ → ℕ → PrinterActed
unfolding printer_command set_reg
printer_write p tod clock_rate regnum word =
    if p.device.reg status == busy
    then record { printer = p; requests = [] }
    else if regnum == command
    then printer_command p tod clock_rate word
    else if regnum == data0
    then record { printer = record p { device = set_reg p.device data0 word }; requests = [] }
    else record { printer = p; requests = [] }

-- `CompleteDevOp`, given whether the file takes the character.
unfoldable pub printer_complete : PrinterDevice → Bool → Outcome PrinterActed
unfolding set_reg
printer_complete p writes =
    if p.device.reg command == reset
    then runs (record {
      printer = record p { device = set_reg p.device status ready };
      requests = int_req ∷ [];
    })
    else if p.device.reg command == prntchr
    then if not p.device.is_working
      then runs (record {
        printer = record p { device = set_reg p.device status prnterr };
        requests = int_req ∷ [];
      })
      else if writes
      then runs (record {
        printer = record {
          device = set_reg p.device status ready;
          printed = p.printed ++ (p.device.reg data0 % 2 ^ 8 ∷ []);
        };
        requests = int_req ∷ [];
      })
      else exits
    else exits
