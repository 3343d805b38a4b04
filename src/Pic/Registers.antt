-- ===== src/Pic/Registers.antt =====
-- `Read`, `Write` and `deliverIPI` of the interrupt controller, from uriscv/mpic.cc. An address is
-- a word's; the processor is none where the source passes NULL.
use uriscv.Prelude.{
  ℕ, zero, suc, ◌-◌, ◌*◌, ◌/◌, ◌%◌, ◌^◌, Bool, true, false, ◌&&◌, List, [], ◌∷◌, ◌++◌, Option, none,
  some, ltb, leb, ◌==◌, if◌then◌else◌, bit, bit_and, bit_or, not32, update,
}
use uriscv.Outcome.{Outcome, runs, exits, undefined}
use uriscv.Processor.Access.{Irq, raise, lower}
use uriscv.Pic.{
  Source, IpiMessage, CpuData, InterruptController, set_source, set_cpu, il_ipi,
  cpuctl_tpr_priority_mask,
}

abbrev pub cdev_bitmap_base : ℕ
cdev_bitmap_base = 0x10000040

abbrev pub cdev_bitmap_end : ℕ
cdev_bitmap_end = 0x10000054

abbrev pub irt_base : ℕ
irt_base = 0x10000300

abbrev pub irt_end : ℕ
irt_end = 0x100003c0

abbrev pub cpuctl_inbox : ℕ
cpuctl_inbox = 0x10000400

abbrev pub cpuctl_outbox : ℕ
cpuctl_outbox = 0x10000404

abbrev pub cpuctl_tpr : ℕ
cpuctl_tpr = 0x10000408

abbrev pub cpuctl_bios_res_0 : ℕ
cpuctl_bios_res_0 = 0x1000040c

abbrev pub cpuctl_bios_res_1 : ℕ
cpuctl_bios_res_1 = 0x10000410

abbrev pub cpuctl_end : ℕ
cpuctl_end = 0x10000414

abbrev pub ipi_latency : ℕ
ipi_latency = 20

-- The data of the processor that accesses the controller: none is a null pointer, and a number
-- outside of the vector has no data.
unfoldable pub own_data : InterruptController → Option ℕ → Option CpuData
own_data c none = none
own_data c (some i) = if ltb i c.size then some (c.cpu_data i) else none

abbrev pub irt_source : InterruptController → ℕ → Source
irt_source c addr = let offset = (addr - irt_base) / 4 in c.sources (offset / 8) (offset % 8)

unfoldable pub inbox_word : List IpiMessage → ℕ
inbox_word [] = 0
inbox_word (m ∷ ms) = bit_or m.msg (m.origin * 2 ^ 8)

unfoldable pub cpuctl_read : CpuData → ℕ → ℕ
unfolding inbox_word
cpuctl_read d addr =
    if addr == cpuctl_inbox
    then inbox_word d.ipi_inbox
    else if addr == cpuctl_tpr
    then d.task_priority
    else if addr == cpuctl_bios_res_0
    then d.bios_reserved 0
    else if addr == cpuctl_bios_res_1
    then d.bios_reserved 1
    else 0

unfoldable pub read : InterruptController → ℕ → Option ℕ → Outcome ℕ
unfolding own_data cpuctl_read
read c addr cpu =
    if leb cdev_bitmap_base addr && ltb addr cdev_bitmap_end
    then elim (own_data c cpu) [
      | none ↦ undefined
      | some d ↦ runs (d.idb ((addr - cdev_bitmap_base) / 4))
    ]
    else if leb irt_base addr && ltb addr irt_end
    then runs
        (bit_or (irt_source c addr).route.destination ((irt_source c addr).route.policy * 2 ^ 28))
    else if leb cpuctl_inbox addr && ltb addr cpuctl_end
    then elim (own_data c cpu) [ none ↦ undefined | some d ↦ runs (cpuctl_read d addr) ]
    else exits

-- A call of `scheduleEvent` for an outbox: the delay, the sender and the word.
pub record Posted : Type 0 where
  pub delay : ℕ
  pub sender : ℕ
  pub outbox : ℕ

pub record PicWritten : Type 0 where
  pub pic : InterruptController
  pub irqs : List Irq
  pub posted : Option Posted

-- The processor's data after a message is taken from its inbox, and whether that was the last.
pub record Popped : Type 0 where
  pub data_after : CpuData
  pub emptied : Bool

unfoldable pub pop_inbox : CpuData → Popped
pop_inbox d = elim d.ipi_inbox [
  | [] ↦ record { data_after = d; emptied = false }
  | _ ∷ [] ↦ record {
    data_after = record d { ipi_inbox = []; ip_mask = bit_and d.ip_mask (not32 (2 ^ il_ipi)) };
    emptied = true;
  }
  | _ ∷ m ∷ ms ↦ record { data_after = record d { ipi_inbox = m ∷ ms }; emptied = false }
]

unfoldable pub cpuctl_write : InterruptController → ℕ → ℕ → ℕ → ℕ → PicWritten
unfolding set_cpu pop_inbox
cpuctl_write c i clock_rate addr word =
    let d = c.cpu_data i in
    let popped = pop_inbox d in
    if addr == cpuctl_inbox
    then record {
      pic = set_cpu c i popped.data_after;
      irqs = if popped.emptied then lower il_ipi i ∷ [] else [];
      posted = none;
    }
    else if addr == cpuctl_outbox
    then record {
      pic = c;
      irqs = [];
      posted =
          some (record { delay = ipi_latency * clock_rate % 2 ^ 32; sender = i; outbox = word });
    }
    else if addr == cpuctl_tpr
    then record {
      pic = set_cpu c i (record d { task_priority = bit_and word cpuctl_tpr_priority_mask });
      irqs = [];
      posted = none;
    }
    else if addr == cpuctl_bios_res_0
    then record {
      pic = set_cpu c i (record d { bios_reserved = update d.bios_reserved 0 word });
      irqs = [];
      posted = none;
    }
    else if addr == cpuctl_bios_res_1
    then record {
      pic = set_cpu c i (record d { bios_reserved = update d.bios_reserved 1 word });
      irqs = [];
      posted = none;
    }
    else record { pic = c; irqs = []; posted = none }

-- The routing word: `IRT_ENTRY_GET_DEST` and `IRT_ENTRY_GET_POLICY`.
unfoldable pub irt_write : InterruptController → ℕ → ℕ → InterruptController
unfolding set_source
irt_write c addr word =
    let offset = (addr - irt_base) / 4 in
    let s = c.sources (offset / 8) (offset % 8) in
    set_source c (offset / 8) (offset % 8)
      (record s { route = record { destination = word % 2 ^ 16; policy = word / 2 ^ 28 % 2 } })

unfoldable pub write : InterruptController → ℕ → ℕ → ℕ → Option ℕ → Outcome PicWritten
unfolding own_data cpuctl_write irt_write
write c clock_rate addr word cpu =
    if leb irt_base addr && ltb addr irt_end
    then runs (record { pic = irt_write c addr word; irqs = []; posted = none })
    else if leb cpuctl_inbox addr && ltb addr cpuctl_end
    then elim cpu [
      | none ↦ undefined
      | some i ↦ if ltb i c.size then runs (cpuctl_write c i clock_rate addr word) else undefined
    ]
    else runs (record { pic = c; irqs = []; posted = none })

-- Whether the inbox has no message of the sender.
unfoldable pub has_slot : ℕ → List IpiMessage → Bool
has_slot origin [] = true
has_slot origin (m ∷ ms) =
    let rest = has_slot origin ms in if m.origin == origin then false else rest

unfoldable pub deposit : CpuData → ℕ → ℕ → CpuData
deposit d origin outbox = record d {
  ipi_inbox = d.ipi_inbox ++ (record { origin = origin % 2 ^ 4; msg = outbox % 2 ^ 8 } ∷ []);
  ip_mask = bit_or d.ip_mask (2 ^ il_ipi);
}

pub record Delivered : Type 0 where
  pub pic : InterruptController
  pub irqs : List Irq

-- One round of the loop over the processors.
unfoldable pub deliver_one : InterruptController → ℕ → ℕ → ℕ → Delivered
unfolding has_slot deposit set_cpu
deliver_one c origin outbox i =
    let recipients = outbox / 2 ^ 8 % 2 ^ 16 in
    let d = c.cpu_data i in
    if bit recipients i == 1 && has_slot origin d.ipi_inbox
    then record { pic = set_cpu c i (deposit d origin outbox); irqs = raise il_ipi i ∷ [] }
    else record { pic = c; irqs = [] }

-- After the first k rounds.
unfoldable pub deliver_below : InterruptController → ℕ → ℕ → ℕ → Delivered
unfolding deliver_one
deliver_below c origin outbox zero = record { pic = c; irqs = [] }
deliver_below c origin outbox (suc k) =
    let before = deliver_below c origin outbox k in
    let round = deliver_one before.pic origin outbox k in
    record { pic = round.pic; irqs = before.irqs ++ round.irqs }

-- `deliverIPI`.
abbrev pub deliver_ipi : InterruptController → ℕ → ℕ → Delivered
deliver_ipi c origin outbox = deliver_below c origin outbox c.size
