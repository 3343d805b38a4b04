-- ===== src/Pic/Operations.antt =====
-- Each operation of the interrupt controller keeps the processors' data and their lines in step.
use uriscv.Prelude.{
  ℕ, zero, suc, ◌/◌, ◌%◌, ◌^◌, ◌<◌, ◌≡◌, refl, sym, ◌∙◌, ap, Bool, true, false, not, ◌&&◌, ltb, leb,
  ◌==◌, if◌then◌else◌, Bool-cases, inl, inr, arith, bit, update, List, [], ◌∷◌, ◌++◌, Option, none,
  some,
}
use mathlib.Core.Path.{subst}
use uriscv.Outcome.{Outcome, runs, exits, undefined}
use uriscv.Processor.Mode.{Always, Always-if}
use uriscv.Processor.Access.{Irq, lower}
use uriscv.Pic.{
  Source, CpuData, InterruptController, Line, Driven, invalid_cpu_id, choose, line, end_on, set_cpu,
  set_source, start_irq, end_irq, guarded, line_ok, deliver_irq, acknowledge, il_ipi,
  dynamic_target,
}
use uriscv.Pic.Registers.{
  pop_inbox, has_slot, cpuctl_write, irt_write, write, deliver_one, deliver_below, PicWritten,
  cpuctl_inbox, cpuctl_outbox, cpuctl_tpr, cpuctl_bios_res_0, cpuctl_bios_res_1, cpuctl_end,
  irt_base, irt_end,
}
use uriscv.Pic.Lines.{
  Lines, drive_one, drive, waiting, Distinct, IsWired, IsLine, lowered_if, line-IsLine,
  signal-IsWired, end_on-IsWired, pop_inbox-IsWired, deposit-IsWired,
}

-- Every processor's data agree with its lines.
abbrev pub AllWired : InterruptController → Lines → Type 0
AllWired c up = (i : ℕ) → IsWired (c.cpu_data i) (up i)

set_cpu-AllWired :
    (c : InterruptController) (up : Lines) (t : ℕ) (d : CpuData) (f : ℕ → Bool)
    → IsWired d f
    → AllWired c up
    → AllWired (set_cpu c t d) (update up t f)
unfolding set_cpu
set_cpu-AllWired c up t d f w all i = elim (Bool-cases (i == t)) [
  | inl here ↦ rw here w
  | inr other ↦ rw other (all i)
]

-- A line of one processor, lowered or left, as a change of them all.
drive-lowered :
    (c : InterruptController) (up : Lines) (t il : ℕ) (d : CpuData) (b : Bool)
    → IsWired d (lowered_if b il (up t))
    → AllWired c up
    → AllWired (set_cpu c t d) (drive up (if b then lower il t ∷ [] else []))
unfolding set_cpu
drive-lowered c up t il d true w all = set_cpu-AllWired c up t d (update (up t) il false) w all
drive-lowered c up t il d false w all = λ i. elim (Bool-cases (i == t)) [
  | inl here ↦ rw here (subst (λ j. IsWired d (up j)) (sym (ground (arith, here))) w)
  | inr other ↦ rw other (all i)
]

abbrev pub DrivenWired : Lines → Driven → Type 0
DrivenWired up r = AllWired r.pic (drive up r.irqs)

choose-same_data : (c : InterruptController) (s : Source) → (choose c s).pic.cpu_data ≡ c.cpu_data
unfolding choose
choose-same_data c s = elim (Bool-cases (s.route.policy == 0)) [
  | inl fixed ↦ rw fixed refl
  | inr dynamic ↦ elim (Bool-cases (dynamic_target c s c.size == invalid_cpu_id)) [
    | inl lost ↦ rw (dynamic, lost) refl
    | inr found ↦ rw (dynamic, found) refl
  ]
]

Always-guarded :
    (P : Driven → Type 0) (irq dev : ℕ) (o : Outcome Driven)
    → Always P o
    → Always P (guarded irq dev o)
unfolding guarded
Always-guarded P irq dev o h =
    Always-if P (not (line_ok irq dev)) exits _ tt
      (Always-if P (ltb (line irq).il 6 && ltb dev 8) o undefined h tt)

deliver_irq-Wired :
    (c : InterruptController) (up : Lines) (l : Line) (dev : ℕ)
    → IsLine l
    → AllWired c up
    → DrivenWired up (deliver_irq c l dev)
unfolding deliver_irq set_source
deliver_irq-Wired c up l dev shape all =
    let chosen = choose c (c.sources l.il dev) in
    let same = choose-same_data c (c.sources l.il dev) in
    let all' : AllWired chosen.pic up = λ i. rw same (all i) in
    let w =
      signal-IsWired (chosen.pic.cpu_data chosen.target) (up chosen.target) l dev shape
        (all' chosen.target) in
    elim (Bool-cases (chosen.target == invalid_cpu_id)) [
      | inl lost ↦ rw lost all'
      | inr found ↦ rw found (set_cpu-AllWired chosen.pic up chosen.target _ _ w all')
    ]

pub start_irq-Wired :
    (c : InterruptController) (up : Lines) (irq dev : ℕ)
    → irq < 2 ^ 32
    → AllWired c up
    → Always (DrivenWired up) (start_irq c irq dev)
unfolding start_irq
start_irq-Wired c up irq dev h all =
    Always-guarded (DrivenWired up) irq dev (runs (deliver_irq c (line irq) dev))
      (deliver_irq-Wired c up (line irq) dev (line-IsLine irq h) all)

acknowledge-Wired :
    (c : InterruptController) (up : Lines) (l : Line) (dev : ℕ)
    → IsLine l
    → AllWired c up
    → Always (DrivenWired up) (acknowledge c l dev)
unfolding acknowledge set_source
acknowledge-Wired c up l dev shape all =
    let t = (c.sources l.il dev).last_target in
    let e = end_on (c.cpu_data t) l dev in
    let w = end_on-IsWired (c.cpu_data t) (up t) l dev shape (all t) in
    elim (Bool-cases (t == invalid_cpu_id)) [
      | inl spurious ↦ rw spurious all
      | inr found ↦ elim (Bool-cases (ltb t c.size)) [
        | inl known ↦ rw (found, known) (drive-lowered c up t l.irq e.data_after e.lowered w all)
        | inr unknown ↦ rw (found, unknown) tt
      ]
    ]

pub end_irq-Wired :
    (c : InterruptController) (up : Lines) (irq dev : ℕ)
    → irq < 2 ^ 32
    → AllWired c up
    → Always (DrivenWired up) (end_irq c irq dev)
unfolding end_irq
end_irq-Wired c up irq dev h all =
    Always-guarded (DrivenWired up) irq dev (acknowledge c (line irq) dev)
      (acknowledge-Wired c up (line irq) dev (line-IsLine irq h) all)

-- The words of a processor that neither lines nor inbox depend on.
same_wires :
    (d e : CpuData) (up : ℕ → Bool)
    → e.idb ≡ d.idb
    → e.ipi_inbox ≡ d.ipi_inbox
    → IsWired d up
    → IsWired e up
same_wires d e up same_idb same_inbox w = record {
  devices = λ k h. w.devices k h ∙ ap (λ f. not (f k == 0)) (sym same_idb);
  inbox = w.inbox ∙ ap waiting (sym same_inbox);
  senders = subst Distinct (sym same_inbox) w.senders;
}

set_words-Wired :
    (c : InterruptController) (up : Lines) (i : ℕ) (e : CpuData)
    → e.idb ≡ (c.cpu_data i).idb
    → e.ipi_inbox ≡ (c.cpu_data i).ipi_inbox
    → AllWired c up
    → AllWired (set_cpu c i e) up
set_words-Wired c up i e same_idb same_inbox all =
    drive-lowered c up i 0 e false (same_wires (c.cpu_data i) e (up i) same_idb same_inbox (all i))
      all

abbrev pub WrittenWired : Lines → PicWritten → Type 0
WrittenWired up r = AllWired r.pic (drive up r.irqs)

cpuctl_write-Wired :
    (c : InterruptController) (up : Lines) (i clock_rate addr word : ℕ)
    → AllWired c up
    → WrittenWired up (cpuctl_write c i clock_rate addr word)
unfolding cpuctl_write
cpuctl_write-Wired c up i clock_rate addr word all =
    let d = c.cpu_data i in
    let popped = pop_inbox d in
    elim (Bool-cases (addr == cpuctl_inbox)) [
      | inl inbox ↦ rw inbox (
          drive-lowered c up i il_ipi popped.data_after popped.emptied
            (pop_inbox-IsWired d (up i) (all i)) all)
      | inr a ↦ elim (Bool-cases (addr == cpuctl_outbox)) [
        | inl outbox ↦ rw (a, outbox) all
        | inr b ↦ elim (Bool-cases (addr == cpuctl_tpr)) [
          | inl tpr ↦ rw (a, b, tpr) (set_words-Wired c up i _ refl refl all)
          | inr e ↦ elim (Bool-cases (addr == cpuctl_bios_res_0)) [
            | inl first ↦ rw (a, b, e, first) (set_words-Wired c up i _ refl refl all)
            | inr f ↦ elim (Bool-cases (addr == cpuctl_bios_res_1)) [
              | inl second ↦ rw (a, b, e, f, second) (set_words-Wired c up i _ refl refl all)
              | inr g ↦ rw (a, b, e, f, g) all
            ]
          ]
        ]
      ]
    ]

irt_write-Wired :
    (c : InterruptController) (up : Lines) (addr word : ℕ)
    → AllWired c up
    → AllWired (irt_write c addr word) up
unfolding irt_write set_source
irt_write-Wired c up addr word all = all

pub write-Wired :
    (c : InterruptController) (up : Lines) (clock_rate addr word : ℕ) (cpu : Option ℕ)
    → AllWired c up
    → Always (WrittenWired up) (write c clock_rate addr word cpu)
unfolding write
write-Wired c up clock_rate addr word cpu all =
    elim (Bool-cases (leb irt_base addr && ltb addr irt_end)) [
      | inl routing ↦ rw routing (irt_write-Wired c up addr word all)
      | inr a ↦ elim (Bool-cases (leb cpuctl_inbox addr && ltb addr cpuctl_end)) [
        | inr b ↦ rw (a, b) all
        | inl control ↦
            elim cpu as (λ o. Always (WrittenWired up) (write c clock_rate addr word o)) [
              | none ↦ rw (a, control) tt
              | some i ↦ elim (Bool-cases (ltb i c.size)) [
                | inl known ↦
                    rw (a, control, known) (cpuctl_write-Wired c up i clock_rate addr word all)
                | inr unknown ↦ rw (a, control, unknown) tt
              ]
            ]
      ]
    ]

drive-append : (up : Lines) (ps qs : List Irq) → drive up (ps ++ qs) ≡ drive (drive up ps) qs
drive-append up [] qs = refl
drive-append up (p ∷ ps) qs = drive-append (drive_one up p) ps qs

deliver_one-Wired :
    (c : InterruptController) (up : Lines) (origin outbox i : ℕ)
    → origin < 16
    → AllWired c up
    → AllWired (deliver_one c origin outbox i).pic (drive up (deliver_one c origin outbox i).irqs)
unfolding deliver_one
deliver_one-Wired c up origin outbox i h all =
    let asked = bit (outbox / 256 % 65536) i == 1 in
    elim (Bool-cases asked) [
      | inr skipped ↦ rw skipped all
      | inl called ↦ elim (Bool-cases (has_slot origin (c.cpu_data i).ipi_inbox)) [
        | inr full ↦ rw (called, full) all
        | inl free ↦
            rw (called, free)
              (set_cpu-AllWired c up i _ _
                (deposit-IsWired (c.cpu_data i) (up i) origin outbox h free (all i)) all)
      ]
    ]

pub deliver_below-Wired :
    (c : InterruptController) (up : Lines) (origin outbox k : ℕ)
    → origin < 16
    → AllWired c up
    → AllWired
        (deliver_below c origin outbox k).pic
        (drive up (deliver_below c origin outbox k).irqs)
unfolding deliver_below
deliver_below-Wired c up origin outbox zero h all = all
deliver_below-Wired c up origin outbox (suc k) h all =
    let before = deliver_below c origin outbox k in
    rw (drive-append up before.irqs (deliver_one before.pic origin outbox k).irqs) (
      deliver_one-Wired before.pic (drive up before.irqs) origin outbox k h
        (deliver_below-Wired c up origin outbox k h all))
