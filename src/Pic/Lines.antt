-- ===== src/Pic/Lines.antt =====
-- The lines that the interrupt controller asserts on the processors, next to what it keeps of them.
use uriscv.Prelude.{
  ℕ, ◌+◌, ◌%◌, ◌^◌, ◌≤◌, ◌<◌, ◌≡◌, ◌⊎◌, refl, sym, ◌∙◌, ap, Bool, true, false, not, ◌||◌, leb, ◌==◌,
  if◌then◌else◌, Bool-cases, inl, inr, arith, bit, bit-or, bit-two_pow, bit-zero, bit_or,
  bit_and-le, not32, update, List, [], ◌∷◌, ◌++◌,
}
use mathlib.Core.Path.{subst}
use native.Mathlib.Nat.{mod-eq_of_lt}
use uriscv.Processor.Access.{Irq, raise, lower}
use uriscv.Pic.{IpiMessage, CpuData, Line, line, signal, end_on, il_ipi}
use uriscv.Pic.Registers.{pop_inbox, deposit, has_slot}

-- Whether a line is up on a processor.
abbrev pub Lines : Type 0
Lines = ℕ → ℕ → Bool

abbrev pub drive_one : Lines → Irq → Lines
drive_one up (raise il t) = update up t (update (up t) il true)
drive_one up (lower il t) = update up t (update (up t) il false)

abbrev pub drive : Lines → List Irq → Lines
drive up [] = up
drive up (q ∷ qs) = drive (drive_one up q) qs

abbrev pub waiting : List IpiMessage → Bool
waiting [] = false
waiting (m ∷ ms) = true

-- No two messages of a sender.
abbrev pub Distinct : List IpiMessage → Type 0
Distinct [] = Unit {0}
Distinct (m ∷ ms) = (has_slot m.origin ms ≡ true) × Distinct ms

-- A processor's data and lines: the line of a row of devices is up exactly while one of them waits,
-- the line of the inbox exactly while that has a message.
pub record IsWired (d : CpuData) (up : ℕ → Bool) : Type 0 where
  pub devices : (k : ℕ) → k < 5 → up (17 + k) ≡ not (d.idb k == 0)
  pub inbox : up il_ipi ≡ waiting d.ipi_inbox
  pub senders : Distinct d.ipi_inbox

bit_or-two_pow : (x dev : ℕ) → (bit_or x (2 ^ dev) == 0) ≡ false
bit_or-two_pow x dev = elim (Bool-cases (bit_or x (2 ^ dev) == 0)) [
  | inr apart ↦ apart
  | inl zero_word ↦ absurd (
      ground (
        arith,
        zero_word,
        bit-or dev x (2 ^ dev),
        bit-two_pow dev dev,
        ap (λ w. bit w dev) {x = bit_or x (2 ^ dev)} {y = 0} (ground (arith, zero_word)),
        bit-zero dev,
      ))
]

-- The line that the controller works on, and the one that it asserts for it.
abbrev pub IsLine : Line → Type 0
IsLine l = ((l.il ≡ 0) × (l.irq ≡ 3)) ⊎ ((1 ≤ l.il) × (l.irq ≡ 16 + l.il))

pub line-IsLine : (irq : ℕ) → irq < 2 ^ 32 → IsLine (line irq)
unfolding line
line-IsLine irq h =
    let il = (irq + 4294967280) % 4294967296 in
    elim (Bool-cases (il == 0 || leb 2147483648 il)) [
      | inl timer ↦ rw (line, timer) (inl (refl, refl))
      | inr shared ↦ rw (line, shared) (inr (ground (arith, shared), ground (arith, shared, h)))
    ]

signal-inbox : (d : CpuData) (il dev : ℕ) → (signal d il dev).ipi_inbox ≡ d.ipi_inbox
unfolding signal
signal-inbox d il dev = ground arith

pub signal-IsWired :
    (d : CpuData) (up : ℕ → Bool) (l : Line) (dev : ℕ)
    → IsLine l
    → IsWired d up
    → IsWired (signal d l.il dev) (update up l.irq true)
unfolding signal
signal-IsWired d up l dev shape w = record {
  devices = λ k h. elim shape [
    | inl (timer, three) ↦ ground (arith, w.devices k h)
    | inr (shared, same) ↦ ground (arith, w.devices k h, bit_or-two_pow (d.idb k) dev)
  ];
  inbox = rw (signal-inbox d l.il dev) (elim shape [
    | inl (timer, three) ↦ ground (arith, w.inbox)
    | inr (shared, same) ↦ ground (arith, w.inbox)
  ]);
  senders = rw (signal-inbox d l.il dev) w.senders;
}

-- The lines after `end_on`.
abbrev pub lowered_if : Bool → ℕ → (ℕ → Bool) → ℕ → Bool
lowered_if b irq up = if b then update up irq false else up

end_on-inbox :
    (d : CpuData) (l : Line) (dev : ℕ) → (end_on d l dev).data_after.ipi_inbox ≡ d.ipi_inbox
unfolding end_on
end_on-inbox d l dev = ground arith

pub end_on-IsWired :
    (d : CpuData) (up : ℕ → Bool) (l : Line) (dev : ℕ)
    → IsLine l
    → IsWired d up
    → IsWired (end_on d l dev).data_after (lowered_if (end_on d l dev).lowered l.irq up)
unfolding end_on
end_on-IsWired d up l dev shape w = record {
  devices = λ k h. elim shape [
    | inl (timer, three) ↦ ground (arith, w.devices k h)
    | inr (shared, same) ↦ ground (arith, w.devices k h, bit_and-le (d.idb k) (not32 (2 ^ dev)))
  ];
  inbox = rw (end_on-inbox d l dev) (elim shape [
    | inl (timer, three) ↦ ground (arith, w.inbox)
    | inr (shared, same) ↦ ground (arith, w.inbox)
  ]);
  senders = rw (end_on-inbox d l dev) w.senders;
}

pop_inbox-IsWired_from :
    (d : CpuData) (up : ℕ → Bool) (ms : List IpiMessage)
    → d.ipi_inbox ≡ ms
    → IsWired d up
    → IsWired (pop_inbox d).data_after (lowered_if (pop_inbox d).emptied il_ipi up)
unfolding pop_inbox
pop_inbox-IsWired_from d up [] e w =
    rw e (record { devices = w.devices; inbox = w.inbox ∙ ap waiting e; senders = tt })
pop_inbox-IsWired_from d up (m ∷ []) e w =
    rw e (record { devices = λ k h. ground (arith, w.devices k h); inbox = refl; senders = tt })
pop_inbox-IsWired_from d up (m ∷ n ∷ ms) e w =
    let senders : Distinct (m ∷ n ∷ ms) = subst Distinct e w.senders in
    rw e (record { devices = w.devices; inbox = w.inbox ∙ ap waiting e; senders = senders.1 })

pub pop_inbox-IsWired :
    (d : CpuData) (up : ℕ → Bool)
    → IsWired d up
    → IsWired (pop_inbox d).data_after (lowered_if (pop_inbox d).emptied il_ipi up)
pop_inbox-IsWired d up w = pop_inbox-IsWired_from d up d.ipi_inbox refl w

waiting-append : (ms : List IpiMessage) (m : IpiMessage) → waiting (ms ++ (m ∷ [])) ≡ true
waiting-append [] m = refl
waiting-append (n ∷ ms) m = refl

has_slot-append :
    (origin : ℕ) (ms : List IpiMessage) (m : IpiMessage)
    → has_slot origin ms ≡ true
    → (m.origin == origin) ≡ false
    → has_slot origin (ms ++ (m ∷ [])) ≡ true
unfolding has_slot
has_slot-append origin [] m h apart = rw apart refl
has_slot-append origin (n ∷ ms) m h apart = elim (Bool-cases (n.origin == origin)) [
  | inl same ↦ absurd (ground (arith, h, same))
  | inr other ↦ rw other (has_slot-append origin ms m (ground (arith, h, other)) apart)
]

Distinct-append :
    (ms : List IpiMessage) (m : IpiMessage)
    → Distinct ms
    → has_slot m.origin ms ≡ true
    → Distinct (ms ++ (m ∷ []))
unfolding has_slot
Distinct-append [] m d h = (refl, tt)
Distinct-append (n ∷ ms) m (free, d) h = (
  has_slot-append n.origin ms m free (ground (arith, h)),
  Distinct-append ms m d (ground (arith, h)),
)

pub deposit-IsWired :
    (d : CpuData) (up : ℕ → Bool) (origin outbox : ℕ)
    → origin < 16
    → has_slot origin d.ipi_inbox ≡ true
    → IsWired d up
    → IsWired (deposit d origin outbox) (update up il_ipi true)
unfolding deposit
deposit-IsWired d up origin outbox small free w =
    let kept : origin % 16 ≡ origin = mod-eq_of_lt small in
    record {
      devices = λ k h. ground (arith, w.devices k h);
      inbox = sym (waiting-append d.ipi_inbox _);
      senders = Distinct-append d.ipi_inbox _ w.senders (rw kept free);
    }
