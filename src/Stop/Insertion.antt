-- ===== src/Stop/Insertion.antt =====
-- Insertion into a set: `Add`, and `operator[]` of the map with a key that overlaps none.
use uriscv.Prelude.{
  ℕ, ◌≤◌, ◌≡◌, refl, sym, ◌∙◌, ap, Bool, true, false, List, [], ◌∷◌, ◌++◌, none, some, ◌==◌,
  Bool-cases, inl, inr, arith, bit_and, length, max,
}
use uriscv.Outcome.{runs}
use uriscv.Stop.{
  AddressRange, Stoppoint, StoppointSet, Entry, less_than, overlaps, contains, is_match, deref,
  no_overlap, can_insert, next_id, add, probe, map_set,
}
use uriscv.Stop.Order.{All, In, Before, SortedMap}
use uriscv.Stop.Probing.{
  IsWellFormed, Leads, Listed, All-map, scan, probe-scan, some-injective, deref-first,
}

-- The key is a range, and apart from the one to insert.
abbrev Apart : AddressRange → Entry → Type 0
Apart r e = (overlaps e.key r ≡ false) × (e.key.start ≤ e.key.last)

Before-of_apart :
    (r s : AddressRange)
    → less_than r s ≡ true
    → overlaps r s ≡ false
    → r.start ≤ r.last
    → Before r s
Before-of_apart r s below apart filled = record { below = below; apart = apart; filled = filled }

overlaps_comm : (r s : AddressRange) → overlaps r s ≡ overlaps s r
unfolding overlaps
overlaps_comm r s = ground arith

less_than-total :
    (r s : AddressRange)
    → overlaps s r ≡ false
    → r.start ≤ r.last
    → s.start ≤ s.last
    → less_than s r ≡ false
    → less_than r s ≡ true
unfolding less_than overlaps
less_than-total r s apart filled filled' h = ground arith

less_than_trans :
    (r s t : AddressRange) → less_than r s ≡ true → less_than s t ≡ true → less_than r t ≡ true
unfolding less_than
less_than_trans r s t h k = ground arith

module _ (r : AddressRange) (a : ℕ) (filled : r.start ≤ r.last) where
  abbrev fresh : Entry
  fresh = record { key = r; target = a }

  map_set-above :
      (e : Entry) (es : List Entry)
      → less_than e.key r ≡ false
      → Apart r e
      → map_set r a (e ∷ es) ≡ fresh ∷ e ∷ es
  unfolding map_set
  map_set-above e es h (apart, ok) = rw (h, less_than-total r e.key apart filled ok h) refl

  map_set-below :
      (e : Entry) (es : List Entry)
      → less_than e.key r ≡ true
      → map_set r a (e ∷ es) ≡ e ∷ map_set r a es
  unfolding map_set
  map_set-below e es h = rw h refl

  All-map_set :
      (P : Entry → Type 0) (es : List Entry)
      → All (Apart r) es
      → P fresh
      → All P es
      → All P (map_set r a es)
  unfolding map_set
  All-map_set P [] t p q = (p, tt)
  All-map_set P (e ∷ es) (h, hs) p (q, qs) = elim (Bool-cases (less_than e.key r)) [
    | inl below ↦ rw (map_set-below e es below) (q, All-map_set P es hs p qs)
    | inr above ↦ rw (map_set-above e es above h) (p, (q, qs))
  ]

  In-map_set_old :
      (e : Entry) (es : List Entry) → All (Apart r) es → In e es → In e (map_set r a es)
  In-map_set_old e [] t i = absurd i
  In-map_set_old e (f ∷ es) (h, hs) i = elim (Bool-cases (less_than f.key r)) [
    | inl below ↦
        rw (map_set-below f es below)
          (elim i [ inl same ↦ inl same | inr later ↦ inr (In-map_set_old e es hs later) ])
    | inr above ↦ rw (map_set-above f es above h) (inr i)
  ]

  In-map_set_new : (es : List Entry) → All (Apart r) es → In fresh (map_set r a es)
  unfolding map_set
  In-map_set_new [] t = inl refl
  In-map_set_new (f ∷ es) (h, hs) = elim (Bool-cases (less_than f.key r)) [
    | inl below ↦ rw (map_set-below f es below) (inr (In-map_set_new es hs))
    | inr above ↦ rw (map_set-above f es above h) (inl refl)
  ]

  All-above :
      (e : Entry) (es : List Entry)
      → less_than r e.key ≡ true
      → All (Apart r) es
      → All (λ f. Before e.key f.key) es
      → All (λ f. Before r f.key) es
  All-above e [] h t b = tt
  All-above e (f ∷ es) h (k, ks) (b, bs) = (
    Before-of_apart r f.key (less_than_trans r e.key f.key h b.below) (overlaps_comm r f.key ∙ k.0)
        filled,
    All-above e es h ks bs,
  )

  SortedMap-map_set :
      (es : List Entry) → All (Apart r) es → SortedMap es → SortedMap (map_set r a es)
  unfolding map_set
  SortedMap-map_set [] t s = (filled, tt, tt)
  SortedMap-map_set (e ∷ es) (h, hs) (ok, before, sorted) = elim (Bool-cases (less_than e.key r)) [
    | inl below ↦ rw (map_set-below e es below) (
      ok,
      All-map_set (λ f. Before e.key f.key) es hs (Before-of_apart e.key r below h.0 ok) before,
      SortedMap-map_set es hs sorted,
    )
    | inr above ↦
        let under = less_than-total r e.key h.0 filled ok above in
        rw (map_set-above e es above h) (
          filled,
          (
            Before-of_apart r e.key under (overlaps_comm r e.key ∙ h.0) filled,
            All-above e es under hs before,
          ),
          (ok, before, sorted),
        )
  ]

no_overlap-deref :
    (r : AddressRange) (b : ℕ) (ps : List Stoppoint) (p : Stoppoint)
    → no_overlap r ps ≡ true
    → deref b ps ≡ some p
    → overlaps p.range r ≡ false
unfolding no_overlap deref
no_overlap-deref r b [] p h found = absurd (cc)
no_overlap-deref r b (q ∷ ps) p h found = elim (Bool-cases (overlaps q.range r)) [
  | inl bad ↦ absurd (ground (arith, h, bad))
  | inr apart ↦ elim (Bool-cases (q.addr == b)) [
    | inl here ↦
        ap (λ s. overlaps s.range r) (some-injective (sym found ∙ deref-first b q ps here)) ∙ apart
    | inr further ↦
        no_overlap-deref r b ps p (ground (arith, h, apart)) (ground (arith, found, further))
  ]
]

deref-append :
    (b : ℕ) (ps : List Stoppoint) (new p : Stoppoint)
    → deref b ps ≡ some p
    → deref b (ps ++ (new ∷ [])) ≡ some p
unfolding deref
deref-append b [] new p found = absurd (cc)
deref-append b (q ∷ ps) new p found = elim (Bool-cases (q.addr == b)) [
  | inl here ↦ rw here (ground (arith, found, here))
  | inr further ↦ rw further (deref-append b ps new p (ground (arith, found, further)))
]

deref-append_new :
    (ps : List Stoppoint) (new : Stoppoint)
    → deref new.addr ps ≡ none
    → deref new.addr (ps ++ (new ∷ [])) ≡ some new
unfolding deref
deref-append_new [] new free = ground arith
deref-append_new (q ∷ ps) new free = elim (Bool-cases (q.addr == new.addr)) [
  | inl here ↦ absurd (ground (arith, free, here))
  | inr further ↦ rw further (deref-append_new ps new (ground (arith, free, further)))
]

All-append :
    {A : Type 0} (P : A → Type 0) (xs : List A) (x : A) → All P xs → P x → All P (xs ++ (x ∷ []))
All-append P [] x t p = (p, tt)
All-append P (y ∷ xs) x (q, qs) p = (q, All-append P xs x qs p)

Apart-All :
    (r : AddressRange) (ps : List Stoppoint) (es : List Entry)
    → no_overlap r ps ≡ true
    → All (Leads ps) es
    → SortedMap es
    → All (Apart r) es
Apart-All r ps [] h t s = tt
Apart-All r ps (e ∷ es) h ((p, found, range), ls) (ok, before, sorted) = (
  (ap (λ k. overlaps k r) (sym range) ∙ no_overlap-deref r e.target ps p h found, ok),
  Apart-All r ps es h ls sorted,
)

module _ (s : StoppointSet) (new : Stoppoint) where
  extended : StoppointSet
  extended = record {
    points = s.points ++ (new ∷ []);
    address_map = map_set new.range new.addr s.address_map;
  }

  IsWellFormed-extended :
      IsWellFormed s
      → no_overlap new.range s.points ≡ true
      → deref new.addr s.points ≡ none
      → new.range.start ≤ new.range.last
      → IsWellFormed extended
  unfolding extended
  IsWellFormed-extended w free unused filled =
      let aparts = Apart-All new.range s.points s.address_map free w.leads w.sorted in
      record {
        sorted = SortedMap-map_set new.range new.addr filled s.address_map aparts w.sorted;
        leads =
            All-map_set new.range new.addr filled (Leads (s.points ++ (new ∷ []))) s.address_map
              aparts (new, deref-append_new s.points new unused, refl)
              (All-map (Leads s.points) _ s.address_map
                (λ e l. (l.0, deref-append e.target s.points new l.0 l.1, l.2)) w.leads);
        listed =
            All-append (Listed extended.address_map extended.points) s.points new
              (All-map (Listed s.address_map s.points) _ s.points
                (λ p l. (
                  l.0,
                  In-map_set_old new.range new.addr filled l.0 s.address_map aparts l.1,
                  l.2,
                  l.3,
                  deref-append p.addr s.points new p l.4,
                ))
                w.listed)
              (
                fresh new.range new.addr filled,
                In-map_set_new new.range new.addr filled s.address_map aparts,
                refl,
                refl,
                deref-append_new s.points new unused,
              );
      }

-- The stop point that `Add` makes.
abbrev pub made : ℕ → StoppointSet → AddressRange → ℕ → ℕ → Bool → Stoppoint
made a s r mode id enabled = record {
  addr = a;
  id = max id (next_id s);
  enabled = enabled;
  range = r;
  access_mode = mode;
}

-- Adding a range at an address that is not in use keeps the set well formed, whether the range is
-- taken or refused.
pub add-IsWellFormed :
    (s : StoppointSet) (r : AddressRange) (a mode id : ℕ) (enabled : Bool)
    → IsWellFormed s
    → deref a s.points ≡ none
    → r.start ≤ r.last
    → IsWellFormed (add a s r mode id enabled).0
unfolding add extended can_insert
add-IsWellFormed s r a mode id enabled w unused filled = elim (Bool-cases (no_overlap r s.points)) [
  | inl free ↦ rw free (IsWellFormed-extended s (made a s r mode id enabled) w free unused filled)
  | inr taken ↦ rw taken w
]

no_overlap-contains :
    (r : AddressRange) (asid addr mode : ℕ) (ps : List Stoppoint)
    → no_overlap r ps ≡ true
    → contains r asid addr ≡ true
    → All (λ q. is_match q asid addr mode ≡ false) ps
unfolding no_overlap contains overlaps is_match
no_overlap-contains r asid addr mode [] h c = tt
no_overlap-contains r asid addr mode (q ∷ ps) h c =
    (ground (arith, h, c), no_overlap-contains r asid addr mode ps (ground (arith, h)) c)

scan-append :
    (asid addr mode : ℕ) (ps : List Stoppoint) (new : Stoppoint)
    → All (λ q. is_match q asid addr mode ≡ false) ps
    → is_match new asid addr mode ≡ true
    → scan asid addr mode (ps ++ (new ∷ [])) ≡ some (length ps, new)
unfolding scan
scan-append asid addr mode [] new t h = rw h refl
scan-append asid addr mode (q ∷ ps) new (m, ms) h =
    rw (m, scan-append asid addr mode ps new ms h) refl

-- In a well-formed set, with an address for the new stop point at which none of the set stands, a
-- range that does not end before it starts and overlaps none is added at the end, and a probe of an
-- address in it by an access that the new stop point is for then finds that stop point, enabled.
pub probe-add :
    (s : StoppointSet) (r : AddressRange) (a mode id : ℕ)
    → IsWellFormed s
    → deref a s.points ≡ none
    → r.start ≤ r.last
    → can_insert s r ≡ true
    → (asid addr access : ℕ) → contains r asid addr ≡ true
    → (bit_and mode access == 0) ≡ false
    → ((add a s r mode id true).1 ≡ true)
      × (probe (add a s r mode id true).0 asid addr access
          ≡ runs (some (length s.points, made a s r mode id true)))
unfolding add can_insert is_match extended
probe-add s r a mode id w unused filled free asid addr access inside wanted =
    let kept = IsWellFormed-extended s (made a s r mode id true) w free unused filled in
    let hit : is_match (made a s r mode id true) asid addr access ≡ true =
      rw (inside, wanted) refl in
    let found =
      probe-scan asid addr access (extended s (made a s r mode id true)) kept
      ∙ ap runs (
          scan-append asid addr access s.points (made a s r mode id true)
            (no_overlap-contains r asid addr access s.points free inside) hit) in
    rw free (refl, found)
