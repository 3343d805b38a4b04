-- ===== src/Stop/Probing.antt =====
-- What a probe of a well-formed set answers, against a search of the vector.
use uriscv.Prelude.{
  ℕ, suc, ◌≡◌, refl, sym, ◌∙◌, ap, true, false, List, [], ◌∷◌, Option, none, some, ◌==◌,
  if◌then◌else◌, Bool-cases, inl, inr, arith,
}
use mathlib.Core.Path.{subst}
use uriscv.Outcome.{runs}
use uriscv.Stop.{
  Stoppoint, StoppointSet, Entry, contains, is_match, deref, position, candidate, probe,
}
use uriscv.Stop.Order.{All, In, SortedMap, Only, settles_lem}

-- The entry leads to a stop point of its own range.
abbrev pub Leads : List Stoppoint → Entry → Type 0
Leads ps e = (p : Stoppoint) × (deref e.target ps ≡ some p) × (p.range ≡ e.key)

-- The stop point is the one at its address, and has its entry in the map.
abbrev pub Listed : List Entry → List Stoppoint → Stoppoint → Type 0
Listed es ps p =
    (e : Entry) × In e es × (e.key ≡ p.range) × (e.target ≡ p.addr) × (deref p.addr ps ≡ some p)

pub record IsWellFormed (s : StoppointSet) : Type 0 where
  pub sorted : SortedMap s.address_map
  pub leads : All (Leads s.points) s.address_map
  pub listed : All (Listed s.address_map s.points) s.points

-- The first stop point of the vector that matches, with its index.
unfoldable pub scan : ℕ → ℕ → ℕ → List Stoppoint → Option (ℕ × Stoppoint)
scan asid addr mode [] = none
scan asid addr mode (p ∷ ps) =
    let rest = scan asid addr mode ps in
    if is_match p asid addr mode
    then some (0, p)
    else elim rest [ none ↦ none | some (i, q) ↦ some (suc i, q) ]

pub All-In : {A : Type 0} (P : A → Type 0) (xs : List A) (x : A) → All P xs → In x xs → P x
All-In P [] x p i = absurd i
All-In P (y ∷ ys) x (p, ps) (inl e) = subst P e p
All-In P (y ∷ ys) x (p, ps) (inr i) = All-In P ys x ps i

pub All-map {ℓ} :
    {A : Type ℓ} (P Q : A → Type 0) (xs : List A) → ((x : A) → P x → Q x) → All P xs → All Q xs
All-map P Q [] f t = tt
All-map P Q (x ∷ xs) f (p, ps) = (f x p, All-map P Q xs f ps)

pub deref-addr : (a : ℕ) (ps : List Stoppoint) (p : Stoppoint) → deref a ps ≡ some p → p.addr ≡ a
unfolding deref
deref-addr a [] p h = absurd (cc)
deref-addr a (q ∷ ps) p h = elim (Bool-cases (q.addr == a)) [
  | inl e ↦ ground (arith, h)
  | inr e ↦ deref-addr a ps p (ground (arith, h))
]

pub some-injective : {A : Type 0} {x y : A} → some x ≡ some y → x ≡ y
some-injective e = cc

pub deref-first :
    (a : ℕ) (p : Stoppoint) (ps : List Stoppoint) → p.addr == a ≡ true → deref a (p ∷ ps) ≡ some p
unfolding deref
deref-first a p ps h = rw h refl

module _ (asid addr mode : ℕ) where
  scan-none :
      (ps : List Stoppoint)
      → All (λ q. is_match q asid addr mode ≡ false) ps
      → scan asid addr mode ps ≡ none
  unfolding scan
  scan-none [] t = refl
  scan-none (q ∷ ps) (h, hs) = rw (h, scan-none ps hs) refl

  scan-position :
      (a : ℕ) (ps : List Stoppoint) (p : Stoppoint)
      → deref a ps ≡ some p
      → All (λ q. is_match q asid addr mode ≡ (q.addr == a)) ps
      → scan asid addr mode ps ≡ some (position a ps, p)
  unfolding scan position deref
  scan-position a [] p found t = absurd (cc)
  scan-position a (q ∷ ps) p found (h, hs) = elim (Bool-cases (q.addr == a)) [
    | inl e ↦
        rw (h ∙ e, e) (ap (λ r. some (0, r)) (some-injective (sym (deref-first a q ps e) ∙ found)))
    | inr e ↦ rw (h ∙ e, e, scan-position a ps p (ground (arith, found, e)) hs) refl
  ]

  is_match-contains :
      (p : Stoppoint) → is_match p asid addr mode ≡ true → contains p.range asid addr ≡ true
  unfolding is_match
  is_match-contains p h = ground (arith, h)

  -- A matching stop point stands at the address that the settled entry leads to.
  target_of :
      (es : List Entry) (ps : List Stoppoint) (e : Entry) (q : Stoppoint)
      → All (Only asid addr e) es
      → Listed es ps q
      → is_match q asid addr mode ≡ true
      → q.addr ≡ e.target
  target_of es ps e q only (f, at, key, target, self) hit =
      let inside : contains f.key asid addr ≡ true =
        ap (λ r. contains r asid addr) key ∙ is_match-contains q hit in
      let same : f ≡ e = All-In (Only asid addr e) es f only at inside in
      sym target ∙ ap (λ g. g.target) same

  same_match :
      (ps : List Stoppoint) (a : ℕ) (p q : Stoppoint)
      → deref a ps ≡ some p
      → deref q.addr ps ≡ some q
      → q.addr ≡ a
      → is_match q asid addr mode ≡ is_match p asid addr mode
  same_match ps a p q found self same = cc

  matches-target :
      (es : List Entry) (ps : List Stoppoint) (e : Entry) (p q : Stoppoint)
      → All (Only asid addr e) es
      → deref e.target ps ≡ some p
      → is_match p asid addr mode ≡ true
      → Listed es ps q
      → is_match q asid addr mode ≡ (q.addr == e.target)
  matches-target es ps e p q only found hit listed =
      let (f, at, key, target, self) = listed in
      elim (Bool-cases (q.addr == e.target)) [
        | inl same ↦ same_match ps e.target p q found self (ground (arith, same)) ∙ hit ∙ sym same
        | inr apart ↦ elim (Bool-cases (is_match q asid addr mode)) [
          | inr not_met ↦ not_met ∙ sym apart
          | inl met ↦ absurd (ground (arith, target_of es ps e q only listed met, apart))
        ]
      ]

  misses :
      (es : List Entry) (ps : List Stoppoint) (e : Entry) (p q : Stoppoint)
      → All (Only asid addr e) es
      → deref e.target ps ≡ some p
      → is_match p asid addr mode ≡ false
      → Listed es ps q
      → is_match q asid addr mode ≡ false
  misses es ps e p q only found miss listed = elim (Bool-cases (is_match q asid addr mode)) [
    | inr not_met ↦ not_met
    | inl met ↦
        same_match ps e.target p q found (listed.4) (target_of es ps e q only listed met) ∙ miss
  ]

  probe_empty :
      (es : List Entry)
      → probe (record { points = []; address_map = es }) asid addr mode
        ≡ runs (scan asid addr mode [])
  unfolding probe scan
  probe_empty es = refl

  probe_lists :
      (ps : List Stoppoint) (es : List Entry)
      → IsWellFormed (record { points = ps; address_map = es })
      → probe (record { points = ps; address_map = es }) asid addr mode
        ≡ runs (scan asid addr mode ps)
  unfolding probe candidate
  probe_lists [] es w = probe_empty es
  probe_lists (p ∷ ps) [] w = absurd (w.listed.0.1)
  probe_lists (p ∷ ps) (e ∷ es) w =
      let (f, found, at, only) = settles_lem asid addr e es w.sorted in
      let (q, target, range) = All-In (Leads (p ∷ ps)) (e ∷ es) f w.leads at in
      elim (Bool-cases (is_match q asid addr mode)) [
        | inl hit ↦
            rw (probe, candidate, found, target, hit)
              (ap (λ a. runs (some (position a (p ∷ ps), q)))
                  (deref-addr f.target (p ∷ ps) q target)
                ∙ ap runs (
                    sym (
                      scan-position f.target (p ∷ ps) q target (
                        All-map (Listed (e ∷ es) (p ∷ ps)) _ (p ∷ ps)
                          (λ r. matches-target (e ∷ es) (p ∷ ps) f q r only target hit) w.listed))))
        | inr miss ↦
            rw (probe, candidate, found, target, miss)
              (ap runs (
                sym (
                  scan-none (p ∷ ps) (
                    All-map (Listed (e ∷ es) (p ∷ ps)) _ (p ∷ ps)
                      (λ r. misses (e ∷ es) (p ∷ ps) f q r only target miss) w.listed))))
      ]

  -- In a well-formed set the probe finds what the search of the vector finds.
  pub probe-scan :
      (s : StoppointSet)
      → IsWellFormed s
      → probe s asid addr mode ≡ runs (scan asid addr mode s.points)
  probe-scan s w = probe_lists s.points s.address_map w
