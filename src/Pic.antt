-- ===== src/Pic.antt =====
-- uriscv/mpic.cc and its header: the interrupt controller. Calls of `AssertIRQ` and `DeassertIRQ`
-- are the lists of lines that an operation returns, and the event of an outbox is data.
pub mod Registers
pub mod Routing
pub mod Lines
pub mod Operations
pub mod Reachable
mod Tests
use uriscv.Prelude.{
  ℕ, zero, suc, ◌+◌, ◌-◌, ◌*◌, ◌/◌, ◌%◌, ◌^◌, Bool, true, false, not, ◌&&◌, ◌||◌, List, [], ◌∷◌,
  ◌++◌, Option, none, some, ltb, leb, ◌==◌, if◌then◌else◌, bit, bit_and, bit_or, sub32, not32,
  update,
}
use uriscv.Outcome.{Outcome, runs, exits, undefined}
use uriscv.Processor.Access.{Irq, raise, lower}

-- `destination` has 16 bits and `policy` one.
pub record Route : Type 0 where
  pub destination : ℕ
  pub policy : ℕ

pub record Source : Type 0 where
  pub last_target : ℕ
  pub route : Route

-- `origin` has 4 bits and `msg` 8.
pub record IpiMessage : Type 0 where
  pub origin : ℕ
  pub msg : ℕ

-- `idb` has 5 words and `bios_reserved` two.
pub record CpuData : Type 0 where
  pub ip_mask : ℕ
  pub idb : ℕ → ℕ
  pub ipi_inbox : List IpiMessage
  pub task_priority : ℕ
  pub bios_reserved : ℕ → ℕ

-- `sources` has 6 rows of 8, and `size` processors have their data in `cpu_data`.
pub record InterruptController : Type 0 where
  pub arbiter : ℕ
  pub sources : ℕ → ℕ → Source
  pub size : ℕ
  pub cpu_data : ℕ → CpuData

abbrev pub base_il : ℕ
base_il = 16

abbrev pub shared_il_base : ℕ
shared_il_base = 1

abbrev pub invalid_cpu_id : ℕ
invalid_cpu_id = 0xffffffff

abbrev pub il_timer : ℕ
il_timer = 3

abbrev pub il_ipi : ℕ
il_ipi = 16

abbrev pub irt_policy_fixed : ℕ
irt_policy_fixed = 0

abbrev pub cpuctl_tpr_priority_mask : ℕ
cpuctl_tpr_priority_mask = 0xf

-- The controller as it is built, with what is in the memory of its reserved words.
unfoldable pub initial : ℕ → (ℕ → ℕ → ℕ) → InterruptController
initial n reserved = record {
  arbiter = 0;
  sources = λ _ _. record {
    last_target = invalid_cpu_id;
    route = record { destination = 0; policy = irt_policy_fixed };
  };
  size = n;
  cpu_data = λ i. record {
    ip_mask = 0;
    idb = λ _. 0;
    ipi_inbox = [];
    task_priority = cpuctl_tpr_priority_mask;
    bios_reserved = reserved i;
  };
}

-- The row of a line and the line that is asserted for it. What is at or below 0 as an `int`
-- stands for the timer.
pub record Line : Type 0 where
  pub il : ℕ
  pub irq : ℕ

unfoldable pub line : ℕ → Line
line irq =
    let il = sub32 irq base_il in
    if il == 0 || leb (2 ^ 31) il
    then record { il = 0; irq = il_timer }
    else record { il = il; irq = irq }

-- `assert((int)il >= (int)kSharedILBase || !devNo)`.
unfoldable pub line_ok : ℕ → ℕ → Bool
line_ok irq dev = let il = sub32 irq base_il in leb shared_il_base il && ltb il (2 ^ 31) || dev == 0

unfoldable pub set_source : InterruptController → ℕ → ℕ → Source → InterruptController
set_source c il dev s = record c { sources = update c.sources il (update (c.sources il) dev s) }

unfoldable pub set_cpu : InterruptController → ℕ → CpuData → InterruptController
set_cpu c i d = record c { cpu_data = update c.cpu_data i d }

-- `source.route.destination & (1U << id)`, where the id is below 16.
unfoldable pub routed : Source → ℕ → Bool
routed s id = bit s.route.destination id == 1

-- The candidate at `(arbiter + i) % cpuData.size()`.
unfoldable pub rotated : InterruptController → ℕ → ℕ
rotated c i = (c.arbiter + i) % c.size

-- The target after `k` rounds of the loop over the candidates.
unfoldable pub dynamic_target : InterruptController → Source → ℕ → ℕ
unfolding rotated routed
dynamic_target c s zero = invalid_cpu_id
dynamic_target c s (suc k) =
    let target = dynamic_target c s k in
    let id = rotated c k in
    if routed s id
      && (target == invalid_cpu_id
          || ltb (c.cpu_data target).task_priority (c.cpu_data id).task_priority)
    then id
    else target

-- The target, and the controller with its arbiter moved on.
pub record Chosen : Type 0 where
  pub target : ℕ
  pub pic : InterruptController

unfoldable pub choose : InterruptController → Source → Chosen
unfolding dynamic_target
choose c s =
    let target = dynamic_target c s c.size in
    if s.route.policy == irt_policy_fixed
    then record {
      target = if ltb s.route.destination c.size then s.route.destination else invalid_cpu_id;
      pic = c;
    }
    else if target == invalid_cpu_id
    then record { target = target; pic = c }
    else record { target = target; pic = record c { arbiter = (target + 1) % c.size } }

-- `ipMask |= 1U << bit`, and for a shared line the device's bit in its bitmap.
unfoldable pub signal : CpuData → ℕ → ℕ → CpuData
signal d il dev =
    let marked : CpuData = record d { ip_mask = bit_or d.ip_mask (2 ^ (base_il + il)) } in
    if leb shared_il_base il
    then record marked {
      idb = update d.idb (il - shared_il_base) (bit_or (d.idb (il - shared_il_base)) (2 ^ dev));
    }
    else marked

-- The controller after an operation, with the lines that it moved.
pub record Driven : Type 0 where
  pub pic : InterruptController
  pub irqs : List Irq

-- The assertion of `StartIRQ` and `EndIRQ`, and the bounds of the array of sources.
unfoldable pub guarded : ℕ → ℕ → Outcome Driven → Outcome Driven
unfolding line line_ok
guarded irq dev o =
    if not (line_ok irq dev)
    then exits
    else if ltb (line irq).il 6 && ltb dev 8
    then o
    else undefined

-- An interrupt without a valid target is lost.
unfoldable pub deliver_irq : InterruptController → Line → ℕ → Driven
unfolding set_source set_cpu choose signal
deliver_irq c l dev =
    let s = c.sources l.il dev in
    let p = (choose c s).pic in
    let t = (choose c s).target in
    if t == invalid_cpu_id then record { pic = p; irqs = [] } else record {
      pic =
          set_cpu (set_source p l.il dev (record s { last_target = t })) t
            (signal (p.cpu_data t) l.il dev);
      irqs = raise l.irq t ∷ [];
    }

-- `StartIRQ`.
unfoldable pub start_irq : InterruptController → ℕ → ℕ → Outcome Driven
unfolding guarded line deliver_irq
start_irq c irq dev = guarded irq dev (runs (deliver_irq c (line irq) dev))

-- The end of an interrupt on a processor: its data, and whether its line is lowered.
pub record Ended : Type 0 where
  pub data_after : CpuData
  pub lowered : Bool

unfoldable pub end_on : CpuData → Line → ℕ → Ended
end_on d l dev =
    let cleared = bit_and (d.idb (l.il - shared_il_base)) (not32 (2 ^ dev)) in
    let low : CpuData = record d { ip_mask = bit_and d.ip_mask (not32 (2 ^ l.irq)) } in
    if leb shared_il_base l.il
    then if cleared == 0
      then record {
        data_after = record low { idb = update d.idb (l.il - shared_il_base) cleared };
        lowered = true;
      }
      else record {
        data_after = record d { idb = update d.idb (l.il - shared_il_base) cleared };
        lowered = false;
      }
    else record { data_after = low; lowered = true }

-- An acknowledgement of what was never delivered is spurious.
unfoldable pub acknowledge : InterruptController → Line → ℕ → Outcome Driven
unfolding set_source set_cpu end_on
acknowledge c l dev =
    let s = c.sources l.il dev in
    let t = s.last_target in
    let e = end_on (c.cpu_data t) l dev in
    if t == invalid_cpu_id
    then runs (record { pic = c; irqs = [] })
    else if ltb t c.size
    then runs (record {
      pic =
          set_source (set_cpu c t e.data_after) l.il dev
            (record s { last_target = invalid_cpu_id });
      irqs = if e.lowered then lower l.irq t ∷ [] else [];
    })
    else undefined

-- `EndIRQ`.
unfoldable pub end_irq : InterruptController → ℕ → ℕ → Outcome Driven
unfolding guarded line acknowledge
end_irq c irq dev = guarded irq dev (acknowledge c (line irq) dev)
