-- ===== src/Json/Keys.antt =====
-- `std::map` by its keys: what is set is what is found, and the other keys keep their values.
use uriscv.Prelude.{
  ◌≡◌, refl, sym, ◌∙◌, ap, true, false, [], ◌∷◌, none, some, if◌then◌else◌, Bool-cases, inl, inr,
  ◌⊎◌, arith,
}
use uriscv.Json.{Bytes, JsonNode, Members, no_members, member, key_less, set_member, get_member}

-- The order of keys is strict and total.
key_less-asym : (a b : Bytes) → key_less a b ≡ true → key_less b a ≡ false
unfolding key_less
key_less-asym [] [] h = absurd cc
key_less-asym [] (d ∷ b) h = refl
key_less-asym (c ∷ a) [] h = absurd cc
key_less-asym (c ∷ a) (d ∷ b) h = ground (arith, h, key_less-asym a b)

key_less_trans : (a b c : Bytes) → key_less a b ≡ true → key_less b c ≡ true → key_less a c ≡ true
unfolding key_less
key_less_trans a [] c h g = absurd cc
key_less_trans a (d ∷ b) [] h g = absurd cc
key_less_trans [] (d ∷ b) (e ∷ c) h g = refl
key_less_trans (i ∷ a) (d ∷ b) (e ∷ c) h g = ground (arith, h, g, key_less_trans a b c)

key_less-total : (a b : Bytes) → key_less a b ≡ false → key_less b a ≡ false → a ≡ b
unfolding key_less
key_less-total [] [] h g = refl
key_less-total [] (d ∷ b) h g = absurd cc
key_less-total (c ∷ a) [] h g = absurd cc
key_less-total (c ∷ a) (d ∷ b) h g =
    let same : c ≡ d = ground (arith, h, g) in
    ap (λ x. x ∷ a) same
    ∙ ap (λ x. d ∷ x) (key_less-total a b (ground (arith, h, same)) (ground (arith, g, same)))

pub key_less_irrefl : (a : Bytes) → key_less a a ≡ false
unfolding key_less
key_less_irrefl [] = refl
key_less_irrefl (c ∷ a) = ground (arith, key_less_irrefl a)

-- The keys of an object that a map holds are in order.
abbrev pub AllAfter : Bytes → Members → Type 0
AllAfter k no_members = Unit {0}
AllAfter k (member j v ms) = (key_less k j ≡ true) × AllAfter k ms

abbrev pub IsSorted : Members → Type 0
IsSorted no_members = Unit {0}
IsSorted (member k v ms) = AllAfter k ms × IsSorted ms

AllAfter-trans : (j k : Bytes) (ms : Members) → key_less j k ≡ true → AllAfter k ms → AllAfter j ms
AllAfter-trans j k no_members h g = tt
AllAfter-trans j k (member i v ms) h (g, gs) =
    (key_less_trans j k i h g, AllAfter-trans j k ms h gs)

set_member-AllAfter :
    (j k : Bytes) (v : JsonNode) (ms : Members)
    → key_less j k ≡ true
    → AllAfter j ms
    → AllAfter j (set_member k v ms)
unfolding set_member
set_member-AllAfter j k v no_members h g = (h, tt)
set_member-AllAfter j k v (member i w ms) h (g, gs) = elim (Bool-cases (key_less i k)) [
  | inl before ↦ rw (set_member, before) (g, set_member-AllAfter j k v ms h gs)
  | inr after ↦ elim (Bool-cases (key_less k i)) [
    | inl above ↦ rw (set_member, after, above) (h, (g, gs))
    | inr same ↦ rw (set_member, after, same) (h, gs)
  ]
]

pub set_member-IsSorted :
    (k : Bytes) (v : JsonNode) (ms : Members) → IsSorted ms → IsSorted (set_member k v ms)
unfolding set_member
set_member-IsSorted k v no_members h = (tt, tt)
set_member-IsSorted k v (member i w ms) (first, h) = elim (Bool-cases (key_less i k)) [
  | inl before ↦
      rw (set_member, before)
        (set_member-AllAfter i k v ms before first, set_member-IsSorted k v ms h)
  | inr after ↦ elim (Bool-cases (key_less k i)) [
    | inl above ↦
        rw (set_member, after, above) ((above, AllAfter-trans k i ms above first), (first, h))
    | inr same ↦ rw (set_member, after, same) (rw (sym (key_less-total i k after same)) first, h)
  ]
]

-- A key before all others is not there.
get_member-AllAfter : (k : Bytes) (ms : Members) → AllAfter k ms → get_member k ms ≡ none
unfolding get_member
get_member-AllAfter k no_members h = refl
get_member-AllAfter k (member j w ms) (h, hs) = rw (get_member, key_less-asym k j h, h) refl

pub get_member-set_member :
    (k : Bytes) (v : JsonNode) (ms : Members) → get_member k (set_member k v ms) ≡ some v
unfolding get_member set_member
get_member-set_member k v no_members = rw (key_less_irrefl k) refl
get_member-set_member k v (member i w ms) = elim (Bool-cases (key_less i k)) [
  | inl before ↦ rw (set_member, before, get_member, before) (get_member-set_member k v ms)
  | inr after ↦ elim (Bool-cases (key_less k i)) [
    | inl above ↦ rw (set_member, after, above, get_member, key_less_irrefl k) refl
    | inr same ↦ rw (set_member, after, same, get_member, key_less_irrefl k) refl
  ]
]

pub get_member-set_other :
    (j k : Bytes) (v : JsonNode) (ms : Members)
    → IsSorted ms
    → (key_less j k ≡ true) ⊎ (key_less k j ≡ true)
    → get_member j (set_member k v ms) ≡ get_member j ms
unfolding get_member set_member
get_member-set_other j k v no_members h (inl below) = rw (key_less-asym j k below, below) refl
get_member-set_other j k v no_members h (inr above) = rw above refl
get_member-set_other j k v (member i w ms) (first, h) apart = elim (Bool-cases (key_less i k)) [
  | inl before ↦
      rw (set_member, before, get_member)
        (ap (λ x. if key_less i j then x else if key_less j i then none else some w)
          (get_member-set_other j k v ms h apart))
  | inr after ↦ elim (Bool-cases (key_less k i)) [
    | inl first_now ↦
        rw (set_member, after, first_now, get_member)
          (elim apart [
            | inl below ↦
                let lower = key_less_trans j k i below first_now in
                rw (key_less-asym j k below, below, key_less-asym j i lower, lower) refl
            | inr above ↦ rw above refl
          ])
    | inr same ↦
        rw (set_member, after, same, get_member, key_less-total i k after same)
          (elim apart [
            | inl below ↦ rw (key_less-asym j k below, below) refl
            | inr above ↦ rw above refl
          ])
  ]
]
