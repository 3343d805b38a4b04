-- ===== src/Stop/Order.antt =====
-- Sorted maps of disjoint ranges, and the entry that a probe settles on.
use uriscv.Prelude.{
  ℕ, suc, ◌-◌, ◌≤◌, ◌≡◌, ◌⊎◌, refl, sym, ◌∙◌, true, false, List, [], ◌∷◌, some, ◌==◌, get_elem?,
  Bool-cases, Option-cases, inl, inr, arith,
}
use uriscv.Stop.{AddressRange, Entry, less_than, overlaps, contains, lower_bound, settle}

-- A predicate at every entry of a list.
abbrev pub All {ℓ} : {A : Type ℓ} → (A → Type 0) → List A → Type 0
All P [] = Unit {0}
All P (x ∷ xs) = P x × All P xs

abbrev pub In : {A : Type 0} → A → List A → Type 0
In x [] = ⊥
In x (y ∷ ys) = (y ≡ x) ⊎ In x ys

-- Below another range and apart from it.
pub record Before (r s : AddressRange) : Type 0 where
  pub below : less_than r s ≡ true
  pub apart : overlaps r s ≡ false
  pub filled : r.start ≤ r.last

abbrev pub SortedMap : List Entry → Type 0
SortedMap [] = Unit {0}
SortedMap (e ∷ es) = (e.key.start ≤ e.key.last) × All (λ f. Before e.key f.key) es × SortedMap es

-- The one address, as a range.
abbrev pub point : ℕ → ℕ → AddressRange
point asid addr = record { asid = asid; start = addr; last = addr }

module _ (asid addr : ℕ) where
  -- Only one entry can contain the address.
  abbrev pub Only : Entry → Entry → Type 0
  Only e f = contains f.key asid addr ≡ true → f ≡ e

  above_none :
      (x : AddressRange) (e : Entry) (es : List Entry)
      → less_than x (point asid addr) ≡ false
      → All (λ f. Before x f.key) es
      → All (Only e) es
  unfolding less_than contains
  above_none x e [] h b = tt
  above_none x e (f ∷ es) h (bf, bs) = ((λ c. ground (arith, bf.below)), above_none x e es h bs)

  strictly_above_none :
      (x : AddressRange) (e : Entry) (es : List Entry)
      → less_than (point asid addr) x ≡ true
      → All (λ f. Before x f.key) es
      → All (Only e) es
  unfolding less_than contains
  strictly_above_none x e es h b = above_none x e es (ground arith) b

  abbrev Settles : List Entry → ℕ → Type 0
  Settles xs i = (e : Entry) × (settle (point asid addr) xs i ≡ some e) × In e xs × All (Only e) xs

  -- With two entries below the address, the iterator is that of the map without the first.
  settle-suc :
      (x : Entry) (xs : List Entry) (m : ℕ)
      → settle (point asid addr) (x ∷ xs) (suc (suc m)) ≡ settle (point asid addr) xs (suc m)
  unfolding settle
  settle-suc x xs m =
      let back : suc (suc m) - 1 ≡ suc m = omega arith in
      let back' : suc m - 1 ≡ m = omega arith in
      let far : (suc (suc m) == 0) ≡ false = ground arith in
      let far' : (suc m == 0) ≡ false = ground arith in
      elim (Option-cases (get_elem? xs (suc m))) [
        | inl e ↦ rw (e, settle, back, back')
        | inr (f, e) ↦ rw (e, settle, far, far', back, back')
      ]

  lower_bound-above :
      (x : Entry) (xs : List Entry)
      → less_than x.key (point asid addr) ≡ false
      → lower_bound (point asid addr) (x ∷ xs) ≡ 0
  unfolding lower_bound
  lower_bound-above x xs h = rw h refl

  lower_bound-below :
      (x : Entry) (xs : List Entry)
      → less_than x.key (point asid addr) ≡ true
      → lower_bound (point asid addr) (x ∷ xs) ≡ suc (lower_bound (point asid addr) xs)
  unfolding lower_bound
  lower_bound-below x xs h = rw h refl

  -- An entry below the address whose follower is not above it too is not the one.
  overtaken :
      (x y : Entry)
      → less_than x.key (point asid addr) ≡ true
      → less_than (point asid addr) y.key ≡ false
      → y.key.start ≤ y.key.last
      → Before x.key y.key
      → contains x.key asid addr ≡ false
  unfolding less_than contains overlaps
  overtaken x y below reached filled b = ground (arith, b.below, b.apart, b.filled)

  -- An entry above the address does not contain it.
  ahead : (y : Entry) → less_than (point asid addr) y.key ≡ true → contains y.key asid addr ≡ false
  unfolding less_than contains
  ahead y h = ground arith

  less_than_asymm :
      (y : Entry)
      → less_than y.key (point asid addr) ≡ true
      → less_than (point asid addr) y.key ≡ false
  unfolding less_than
  less_than_asymm y h = ground arith

  never : (y : Entry) (e : Entry) → contains y.key asid addr ≡ false → Only e y
  never y e h c = cc

  first_stays :
      (x : Entry) (xs : List Entry)
      → less_than x.key (point asid addr) ≡ false
      → All (λ f. Before x.key f.key) xs
      → Settles (x ∷ xs) (lower_bound (point asid addr) (x ∷ xs))
  unfolding settle
  first_stays x xs above before =
      let none_below : (0 == 0) ≡ true = refl in
      rw (lower_bound-above x xs above)
        (x, ground arith, inl refl, ((λ c. refl), above_none x.key x xs above before))

  suc-lower_bound-[] : suc (lower_bound (point asid addr) []) ≡ 1
  unfolding lower_bound
  suc-lower_bound-[] = refl

  settle-alone : (x : Entry) → settle (point asid addr) (x ∷ []) 1 ≡ some x
  unfolding settle
  settle-alone x = refl

  only_entry :
      (x : Entry)
      → less_than x.key (point asid addr) ≡ true
      → settle (point asid addr) (x ∷ []) (lower_bound (point asid addr) (x ∷ [])) ≡ some x
  only_entry x below =
      let alone : lower_bound (point asid addr) (x ∷ []) ≡ 1 =
        lower_bound-below x [] below ∙ suc-lower_bound-[] in
      rw alone (settle-alone x)

  second_back :
      (x y : Entry) (ys : List Entry)
      → less_than (point asid addr) y.key ≡ true
      → settle (point asid addr) (x ∷ y ∷ ys) 1 ≡ some x
  unfolding settle
  second_back x y ys over = rw over refl

  steps_back :
      (x y : Entry) (ys : List Entry)
      → less_than x.key (point asid addr) ≡ true
      → less_than y.key (point asid addr) ≡ false
      → less_than (point asid addr) y.key ≡ true
      → settle (point asid addr) (x ∷ y ∷ ys) (lower_bound (point asid addr) (x ∷ y ∷ ys)) ≡ some x
  steps_back x y ys below reached over =
      rw (lower_bound-below x (y ∷ ys) below, lower_bound-above y ys reached)
        (second_back x y ys over)

  stays :
      (x y : Entry) (ys : List Entry)
      → less_than x.key (point asid addr) ≡ true
      → less_than y.key (point asid addr) ≡ false
      → less_than (point asid addr) y.key ≡ false
      → settle (point asid addr) (x ∷ y ∷ ys) (lower_bound (point asid addr) (x ∷ y ∷ ys)) ≡ some y
  unfolding settle
  stays x y ys below reached equal =
      rw (lower_bound-below x (y ∷ ys) below, lower_bound-above y ys reached, settle, equal) refl

  passed :
      (x y : Entry) (ys : List Entry) (e : Entry)
      → less_than x.key (point asid addr) ≡ true
      → less_than y.key (point asid addr) ≡ true
      → settle (point asid addr) (y ∷ ys) (lower_bound (point asid addr) (y ∷ ys)) ≡ some e
      → settle (point asid addr) (x ∷ y ∷ ys) (lower_bound (point asid addr) (x ∷ y ∷ ys)) ≡ some e
  passed x y ys e below further found =
      rw
        (
          lower_bound-below x (y ∷ ys) below,
          lower_bound-below y ys further,
          settle-suc x (y ∷ ys) (lower_bound (point asid addr) ys),
        )
        (rw (sym (lower_bound-below y ys further)) found)

  pub settles_lem :
      (x : Entry) (xs : List Entry)
      → SortedMap (x ∷ xs)
      → Settles (x ∷ xs) (lower_bound (point asid addr) (x ∷ xs))
  unfolding settle
  settles_lem x [] (filled, before, sorted) =
      elim (Bool-cases (less_than x.key (point asid addr))) [
        | inr above ↦ first_stays x [] above before
        | inl below ↦ (x, only_entry x below, inl refl, ((λ c. refl), tt))
      ]
  settles_lem x (y ∷ ys) (filled, (before_y, before), sorted) =
      let (e, found, at, only) = settles_lem y ys sorted in
      let (filled_y, above_y, sorted_ys) = sorted in
      elim (Bool-cases (less_than x.key (point asid addr))) [
        | inr above ↦ first_stays x (y ∷ ys) above (before_y, before)
        | inl below ↦ elim (Bool-cases (less_than y.key (point asid addr))) [
          | inl further ↦ (
            e,
            passed x y ys e below further found,
            inr at,
            (never x e (overtaken x y below (less_than_asymm y further) filled_y before_y), only),
          )
          | inr reached ↦ elim (Bool-cases (less_than (point asid addr) y.key)) [
            | inl over ↦ (
              x,
              steps_back x y ys below reached over,
              inl refl,
              (
                (λ c. refl),
                (never y x (ahead y over), strictly_above_none y.key x ys over above_y),
              ),
            )
            | inr equal ↦ (
              y,
              stays x y ys below reached equal,
              inr (inl refl),
              (
                never x y (overtaken x y below equal filled_y before_y),
                ((λ c. refl), above_none y.key y ys reached above_y),
              ),
            )
          ]
        ]
      ]
