-- ===== src/Pic/Tests.antt =====
-- The interrupt controller of two processors.
use uriscv.Prelude.{ℕ, ◌≡◌, ◌⊎◌, refl, none, [], arith, false, ◌<◌, ◌+◌, ◌%◌, ◌==◌, if◌then◌else◌}
use uriscv.Pic.{
  InterruptController, Source, Driven, initial, choose, start_irq, invalid_cpu_id, routed, guarded,
  deliver_irq,
}
use uriscv.Pic.Registers.{irt_write, write}
use uriscv.Pic.Lines.{drive}
use uriscv.Pic.Operations.{AllWired}
use uriscv.Pic.Reachable.{Reachable-Wired, begins, follows, starts, writes}
use uriscv.Pic.Routing.{Elected, choose-Elected}

-- Both processors are in the destination field, and the policy is dynamic.
abbrev both : Source
both = record { last_target = invalid_cpu_id; route = record { destination = 3; policy = 1 } }

-- The first processor is busy, the second one is not.
abbrev one_busy : InterruptController
one_busy = record {
  arbiter = 0;
  sources = λ _ _. both;
  size = 2;
  cpu_data = λ i. record {
    ip_mask = 0;
    idb = λ _. 0;
    ipi_inbox = [];
    task_priority = if i == 0 then 2 else 15;
    bios_reserved = λ _. 0;
  };
}

choose-Elected_example :
    (((choose one_busy both).target ≡ invalid_cpu_id)
      × ((id : ℕ) → id < 2 → routed both id ≡ false)
      × ((choose one_busy both).pic ≡ one_busy))
    ⊎ (Elected one_busy both (choose one_busy both).target
        × ((choose one_busy both).pic
            ≡ record one_busy { arbiter = ((choose one_busy both).target + 1) % 2 }))
choose-Elected_example = choose-Elected one_busy both (omega arith) (omega arith) (omega arith) refl

abbrev fresh_words : ℕ → ℕ → ℕ
fresh_words _ _ = 0

-- The controller after the routing word of the first disk is written, and its interrupt begun.
abbrev second_only : InterruptController
second_only = irt_write (initial 2 fresh_words) 0x10000320 1

abbrev interrupted : Driven
interrupted = deliver_irq second_only (record { il = 1; irq = 17 }) 0

Reachable-Wired_example : AllWired interrupted.pic (drive (λ i il. false) interrupted.irqs)
unfolding write irt_write start_irq guarded deliver_irq
Reachable-Wired_example =
    Reachable-Wired 2 fresh_words interrupted.pic (drive (λ i il. false) interrupted.irqs) (
      follows
        (follows begins (
          writes 1 0x10000320 1 none (record { pic = second_only; irqs = []; posted = none }) refl))
        (starts 17 0 interrupted (omega arith) refl))
