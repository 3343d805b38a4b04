-- ===== src/Pic/Routing.antt =====
-- The processor that an interrupt is routed to.
use uriscv.Prelude.{
  ℕ, zero, suc, ◌+◌, ◌-◌, ◌%◌, ◌≤◌, ◌<◌, ◌≡◌, ◌⊎◌, refl, ◌∙◌, Bool, true, false, ltb, ◌==◌,
  if◌then◌else◌, Bool-cases, inl, inr, arith,
}
use mathlib.Core.Path.{subst}
use native.Mathlib.Nat.{mod-lt, mod-eq_of_lt, add-mod_right}
use uriscv.Pic.{
  Source, InterruptController, invalid_cpu_id, routed, rotated, dynamic_target, choose,
  irt_policy_fixed,
}

module _ (c : InterruptController) (s : Source) where
  -- No candidate of the first k rounds is in the destination field.
  abbrev pub NoneBelow : ℕ → Type 0
  NoneBelow k = (i : ℕ) → i < k → routed s (rotated c i) ≡ false

  -- Round j of the first k has the candidate with the greatest priority value: no later one is
  -- above it, and every earlier one is below it.
  pub record BestBelow (k t : ℕ) : Type 0 where
    pub round : ℕ
    pub in_time : round < k
    pub candidate : rotated c round ≡ t
    pub eligible : routed s t ≡ true
    pub greatest :
        (i : ℕ)
        → i < k
        → routed s (rotated c i) ≡ true
        → (c.cpu_data (rotated c i)).task_priority ≤ (c.cpu_data t).task_priority
    pub first :
        (i : ℕ)
        → i < round
        → routed s (rotated c i) ≡ true
        → (c.cpu_data (rotated c i)).task_priority < (c.cpu_data t).task_priority

  abbrev pub Outcomes : ℕ → ℕ → Type 0
  Outcomes k t = ((t ≡ invalid_cpu_id) × NoneBelow k) ⊎ BestBelow k t

  rotated-lt : (i : ℕ) → 0 < c.size → rotated c i < c.size
  unfolding rotated
  rotated-lt i h = mod-lt (c.arbiter + i) h

  -- A property of all rounds below k, and of round k.
  up_to : (P : ℕ → Type 0) (k : ℕ) → ((i : ℕ) → i < k → P i) → P k → (i : ℕ) → i < suc k → P i
  up_to P k before now i h = elim (Bool-cases (ltb i k)) [
    | inl lower ↦ before i (ground (arith, lower))
    | inr last ↦ subst P (ground (arith, last, h)) now
  ]

  dynamic_target-skip :
      (k : ℕ) → routed s (rotated c k) ≡ false → dynamic_target c s (suc k) ≡ dynamic_target c s k
  unfolding dynamic_target
  dynamic_target-skip k h = rw h refl

  dynamic_target-first :
      (k : ℕ)
      → routed s (rotated c k) ≡ true
      → dynamic_target c s k ≡ invalid_cpu_id
      → dynamic_target c s (suc k) ≡ rotated c k
  unfolding dynamic_target
  dynamic_target-first k h e = rw (h, e) refl

  dynamic_target-compare :
      (k : ℕ) (b : Bool)
      → routed s (rotated c k) ≡ true
      → (dynamic_target c s k == invalid_cpu_id) ≡ false
      → ltb
          (c.cpu_data (dynamic_target c s k)).task_priority
          (c.cpu_data (rotated c k)).task_priority
        ≡ b
      → dynamic_target c s (suc k) ≡ (if b then rotated c k else dynamic_target c s k)
  unfolding dynamic_target
  dynamic_target-compare k b h e l = rw (h, e, l) refl

  Outcomes-skip : (k t : ℕ) → routed s (rotated c k) ≡ false → Outcomes k t → Outcomes (suc k) t
  Outcomes-skip k t h (inl (e, before)) =
      inl (e, up_to (λ i. routed s (rotated c i) ≡ false) k before h)
  Outcomes-skip k t h (inr b) = inr (record {
    round = b.round;
    in_time = omega (arith, b.in_time);
    candidate = b.candidate;
    eligible = b.eligible;
    greatest = up_to _ k b.greatest (λ met. absurd (ground (arith, met, h)));
    first = b.first;
  })

  Outcomes-first :
      (k : ℕ) → routed s (rotated c k) ≡ true → NoneBelow k → Outcomes (suc k) (rotated c k)
  Outcomes-first k h before = inr (record {
    round = k;
    in_time = omega arith;
    candidate = refl;
    eligible = h;
    greatest = up_to _ k (λ i l met. absurd (ground (arith, met, before i l))) (λ met. omega arith);
    first = λ i l met. absurd (ground (arith, met, before i l));
  })

  Outcomes-replace :
      (k t : ℕ)
      → routed s (rotated c k) ≡ true
      → (c.cpu_data t).task_priority < (c.cpu_data (rotated c k)).task_priority
      → BestBelow k t
      → Outcomes (suc k) (rotated c k)
  Outcomes-replace k t h above b = inr (record {
    round = k;
    in_time = omega arith;
    candidate = refl;
    eligible = h;
    greatest = up_to _ k (λ i l met. omega (arith, above, b.greatest i l met)) (λ met. omega arith);
    first = λ i l met. omega (arith, above, b.greatest i l met);
  })

  Outcomes-keep :
      (k t : ℕ)
      → (c.cpu_data (rotated c k)).task_priority ≤ (c.cpu_data t).task_priority
      → BestBelow k t
      → Outcomes (suc k) t
  Outcomes-keep k t under b = inr (record {
    round = b.round;
    in_time = omega (arith, b.in_time);
    candidate = b.candidate;
    eligible = b.eligible;
    greatest = up_to _ k b.greatest (λ met. under);
    first = b.first;
  })

  BestBelow-valid :
      (k t : ℕ) → c.size ≤ 16 → 0 < c.size → BestBelow k t → (t == invalid_cpu_id) ≡ false
  BestBelow-valid k t small some_cpu b =
      ground (arith, small, rotated-lt b.round some_cpu, b.candidate)

  pub dynamic_target-Outcomes :
      (k : ℕ) → c.size ≤ 16 → 0 < c.size → Outcomes k (dynamic_target c s k)
  unfolding dynamic_target
  dynamic_target-Outcomes zero small some_cpu = inl (refl, λ i h. absurd (omega (arith, h)))
  dynamic_target-Outcomes (suc k) small some_cpu =
      let t = dynamic_target c s k in
      let ih : Outcomes k t = dynamic_target-Outcomes k small some_cpu in
      elim (Bool-cases (routed s (rotated c k))) [
        | inr out ↦ rw (dynamic_target-skip k out) (Outcomes-skip k t out ih)
        | inl met ↦ elim ih [
          | inl (e, before) ↦ rw (dynamic_target-first k met e) (Outcomes-first k met before)
          | inr b ↦
              let valid = BestBelow-valid k t small some_cpu b in
              elim (Bool-cases
                (ltb (c.cpu_data t).task_priority (c.cpu_data (rotated c k)).task_priority)) [
                  | inl above ↦
                      rw (dynamic_target-compare k true met valid above)
                        (Outcomes-replace k t met (ground (arith, above)) b)
                  | inr under ↦
                      rw (dynamic_target-compare k false met valid under)
                        (Outcomes-keep k t (ground (arith, under)) b)
                ]
        ]
      ]

  -- Every processor is a candidate.
  rotated-onto :
      (id : ℕ) → c.arbiter < c.size → id < c.size → (i : ℕ) × (i < c.size) × (rotated c i ≡ id)
  unfolding rotated
  rotated-onto id arbiter_lt id_lt = elim (Bool-cases (ltb id c.arbiter)) [
    | inr after ↦
        let there : c.arbiter + (id - c.arbiter) ≡ id = ground (arith, after) in
        (id - c.arbiter, omega (arith, id_lt), rw there (mod-eq_of_lt id_lt))
    | inl before ↦
        let there : c.arbiter + (id + c.size - c.arbiter) ≡ id + c.size =
          ground (arith, arbiter_lt) in
        (
          id + c.size - c.arbiter,
          ground (arith, before, arbiter_lt),
          (rw there (add-mod_right id c.size)) ∙ mod-eq_of_lt id_lt,
        )
  ]

  -- A processor in the destination field that no other one there is above in priority value, and
  -- the first of its value from the arbiter on.
  pub record Elected (t : ℕ) : Type 0 where
    pub target_lt : t < c.size
    pub best : BestBelow c.size t
    pub greatest_of_all :
        (id : ℕ)
        → id < c.size
        → routed s id ≡ true
        → (c.cpu_data id).task_priority ≤ (c.cpu_data t).task_priority

  -- Under the dynamic policy, with an arbiter in range, the interrupt is lost exactly where the
  -- destination field names no processor, and else goes to one in it of the greatest priority value,
  -- the first such from the arbiter on; the arbiter then is the next processor.
  pub choose-Elected :
      0 < c.size
      → c.size ≤ 16
      → c.arbiter < c.size
      → (s.route.policy == irt_policy_fixed) ≡ false
      → (((choose c s).target ≡ invalid_cpu_id)
          × ((id : ℕ) → id < c.size → routed s id ≡ false)
          × ((choose c s).pic ≡ c))
        ⊎ (Elected (choose c s).target
            × ((choose c s).pic ≡ record c { arbiter = ((choose c s).target + 1) % c.size }))
  unfolding choose
  choose-Elected some_cpu small arbiter_lt dynamic =
      let t = dynamic_target c s c.size in
      let spread : (P : ℕ → Type 0)
          → ((i : ℕ) → i < c.size → P (rotated c i))
          → (id : ℕ) → id < c.size
          → P id =
        λ P h id l.
          let (i, i_lt, there) = rotated-onto id arbiter_lt l in subst P there (h i i_lt) in
      elim (dynamic_target-Outcomes c.size small some_cpu) [
        | inl (lost, none_routed) ↦
            rw (dynamic, lost) (inl (refl, spread (λ id. routed s id ≡ false) none_routed, refl))
        | inr b ↦
            rw (dynamic, BestBelow-valid c.size t small some_cpu b)
              (inr (
                record {
                  target_lt = subst (λ j. j < c.size) b.candidate (rotated-lt b.round some_cpu);
                  best = b;
                  greatest_of_all = spread _ b.greatest;
                },
                refl,
              ))
      ]
