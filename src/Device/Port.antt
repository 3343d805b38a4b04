-- ===== src/Device/Port.antt =====
-- The bus as a device of uriscv/device.cc uses it: the calls of uriscv/systembus.cc for the device's
-- line and number, with the lines that they move.
use uriscv.Prelude.{ℕ, ◌+◌, ◌%◌, ◌^◌, Bool, ◌++◌}
use uriscv.Outcome.{Outcome, runs, ◌>>=◌}
use uriscv.Bus.{Config, DeviceOps, Effect, Allocator, int_req, int_ack, schedule_event}
use uriscv.Bus.Control.{complete_op, get_lo}
use uriscv.Bus.Transfer.{Block, dma_transfer}
use uriscv.Device.Block.{Timed, Moved, BusPort}

module _ {D : Type 0} (config : Config) (ops : DeviceOps D) (alloc : Allocator) (line dev : ℕ) where
  joined : Effect D → Effect D → Effect D
  joined e r = record { bus = r.bus; irqs = e.irqs ++ r.irqs }

  unfoldable pub port_req : Effect D → Outcome (Effect D)
  unfolding joined
  port_req e = do r ← int_req e.bus line dev; runs (joined e r)

  unfoldable pub port_ack : Effect D → Outcome (Effect D)
  unfolding joined
  port_ack e = do r ← int_ack e.bus line dev; runs (joined e r)

  unfoldable pub port_schedule : Effect D → ℕ → Outcome (Timed (Effect D))
  unfolding schedule_event
  port_schedule e delay = do
    b ← schedule_event alloc e.bus delay (complete_op line dev)
    runs (record { bus = record e { bus = b }; deadline = (e.bus.tod + delay) % 2 ^ 64 })

  unfoldable pub port_transfer : Effect D → Block → ℕ → Bool → Outcome (Moved (Effect D))
  unfolding dma_transfer
  port_transfer e blk start to_memory = do
    t ← dma_transfer config ops alloc e.bus blk start to_memory
    runs (record {
      bus = record { bus = t.bus; irqs = e.irqs ++ t.irqs };
      block = t.block;
      error = t.error;
    })

  unfoldable pub bus_port : BusPort (Effect D)
  unfolding port_req port_ack port_schedule port_transfer
  bus_port = record {
    get_tod_lo = λ e. get_lo e.bus.tod;
    int_req = port_req;
    int_ack = port_ack;
    schedule_io = port_schedule;
    dma_transfer = port_transfer;
  }
