-- ===== src/Stop.antt =====
-- uriscv/stoppoint.cc and its header: breakpoints, suspected and traced ranges. A stop point has an
-- address, by which the map from ranges shares it with the vector. `new` gets its address from the
-- allocator.
pub mod Order
pub mod Probing
pub mod Insertion
mod Tests
use uriscv.Prelude.{
  ℕ, ◌%◌, ◌^◌, zero, suc, ◌+◌, ◌-◌, Bool, true, false, not, ◌&&◌, ◌||◌, List, [], ◌∷◌, ◌++◌, Option,
  none, some, ltb, leb, ◌==◌, if◌then◌else◌, length, get_elem?, max, bit_and,
}
use uriscv.Outcome.{Outcome, runs, exits, undefined, ◌>>=◌}

pub record AddressRange : Type 0 where
  pub asid : ℕ
  pub start : ℕ
  pub last : ℕ

unfoldable pub less_than : AddressRange → AddressRange → Bool
less_than r s = ltb r.asid s.asid || (r.asid == s.asid && ltb r.start s.start)

unfoldable pub overlaps : AddressRange → AddressRange → Bool
overlaps r s = not (not (r.asid == s.asid) || ltb s.last r.start || ltb r.last s.start)

unfoldable pub contains : AddressRange → ℕ → ℕ → Bool
contains r asid addr = asid == r.asid && leb r.start addr && leb addr r.last

pub record Stoppoint : Type 0 where
  pub addr : ℕ
  pub id : ℕ
  pub enabled : Bool
  pub range : AddressRange
  pub access_mode : ℕ

unfoldable pub is_match : Stoppoint → ℕ → ℕ → ℕ → Bool
is_match p asid addr mode =
    p.enabled && contains p.range asid addr && not (bit_and p.access_mode mode == 0)

-- An entry of the map: a key and the stop point that it points at.
pub record Entry : Type 0 where
  pub key : AddressRange
  pub target : ℕ

pub record StoppointSet : Type 0 where
  pub points : List Stoppoint
  pub address_map : List Entry

-- `std::map` as its entries in the order of the keys: `lower_bound` as a position, `find`,
-- `operator[]` followed by an assignment, and `erase`.
unfoldable pub lower_bound : AddressRange → List Entry → ℕ
lower_bound r [] = 0
lower_bound r (e ∷ es) = let rest = lower_bound r es in if less_than e.key r then suc rest else 0

unfoldable pub map_find : AddressRange → List Entry → Option Entry
unfolding lower_bound
map_find r es = elim (get_elem? es (lower_bound r es)) [
  | none ↦ none
  | some e ↦ if less_than r e.key then none else some e
]

unfoldable pub map_set : AddressRange → ℕ → List Entry → List Entry
map_set r a [] = record { key = r; target = a } ∷ []
map_set r a (e ∷ es) =
    let rest = map_set r a es in
    if less_than e.key r
    then e ∷ rest
    else if less_than r e.key
    then record { key = r; target = a } ∷ e ∷ es
    else record { key = e.key; target = a } ∷ es

unfoldable pub erase_at {ℓ} : {A : Type ℓ} → ℕ → List A → List A
erase_at i [] = []
erase_at zero (x ∷ xs) = xs
erase_at (suc i) (x ∷ xs) = x ∷ erase_at i xs

-- The stop point at an address.
unfoldable pub deref : ℕ → List Stoppoint → Option Stoppoint
deref a [] = none
deref a (p ∷ ps) = let rest = deref a ps in if p.addr == a then some p else rest

-- `CanInsert`.
unfoldable pub no_overlap : AddressRange → List Stoppoint → Bool
no_overlap r [] = true
no_overlap r (p ∷ ps) = let rest = no_overlap r ps in if overlaps p.range r then false else rest

unfoldable pub can_insert : StoppointSet → AddressRange → Bool
can_insert s r = no_overlap r s.points

-- The largest number above those in the set; a number is an `unsigned int`.
unfoldable pub next_id_from : ℕ → List Stoppoint → ℕ
next_id_from id [] = id
next_id_from id (p ∷ ps) = next_id_from (max id ((p.id + 1) % 2 ^ 32)) ps

pub next_id : StoppointSet → ℕ
next_id s = next_id_from 0 s.points

-- `Add`, with the address of the new stop point: the set, and whether the range was free.
pub add : ℕ → StoppointSet → AddressRange → ℕ → ℕ → Bool → StoppointSet × Bool
add a s r mode id enabled =
    let p : Stoppoint = record {
      addr = a;
      id = max id (next_id s);
      enabled = enabled;
      range = r;
      access_mode = mode;
    } in
    if can_insert s r
    then (record { points = s.points ++ (p ∷ []); address_map = map_set r a s.address_map }, true)
    else (s, false)

-- `Remove`: an index or a key that is not there fails an assertion.
pub remove : StoppointSet → ℕ → Outcome StoppointSet
remove s index = elim (get_elem? s.points index) [
  | none ↦ exits
  | some p ↦ elim (map_find p.range s.address_map) [
    | none ↦ exits
    | some e ↦ runs (record {
      points = erase_at index s.points;
      address_map = erase_at (lower_bound p.range s.address_map) s.address_map;
    })
  ]
]

pub clear : StoppointSet → StoppointSet
clear s = record { points = []; address_map = [] }

-- `Find`, for a range that starts at the address.
pub find : StoppointSet → ℕ → ℕ → Option Stoppoint
find s asid addr =
    elim (map_find (record { asid = asid; start = addr; last = addr }) s.address_map) [
      | none ↦ none
      | some e ↦ deref e.target s.points
    ]

enable_at : ℕ → Bool → List Stoppoint → List Stoppoint
enable_at i b [] = []
enable_at zero b (p ∷ ps) = record p { enabled = b } ∷ ps
enable_at (suc i) b (p ∷ ps) = p ∷ enable_at i b ps

-- `SetEnabled`, which asserts no more than `index <= Size()`, reads the vector at the index.
pub set_enabled : StoppointSet → ℕ → Bool → Outcome StoppointSet
unfolding enable_at
set_enabled s index setting = elim (get_elem? s.points index) [
  | none ↦ if leb index (length s.points) then undefined else exits
  | some p ↦ runs (record s { points = enable_at index setting s.points })
]

-- The iterator that `Probe` settles on: one back from the end, and from a key above the address
-- unless it is the first.
unfoldable pub settle : AddressRange → List Entry → ℕ → Option Entry
settle r es i = elim (get_elem? es i) [
  | none ↦ get_elem? es (i - 1)
  | some e ↦ if less_than r e.key && not (i == 0) then get_elem? es (i - 1) else some e
]

unfoldable pub candidate : AddressRange → List Entry → Option Entry
unfolding lower_bound settle
candidate r es = settle r es (lower_bound r es)

unfoldable pub position : ℕ → List Stoppoint → ℕ
position a [] = 0
position a (p ∷ ps) = let rest = position a ps in if p.addr == a then 0 else suc rest

-- `Probe`: the stop point and its place in the vector, which the signal of the hit carries. The
-- entry's pointer is followed without a test.
unfoldable pub probe : StoppointSet → ℕ → ℕ → ℕ → Outcome (Option (ℕ × Stoppoint))
unfolding candidate position
probe s asid addr mode = elim s.points [
  | [] ↦ runs none
  | _ ∷ _ ↦ elim (candidate (record { asid = asid; start = addr; last = addr }) s.address_map) [
    | none ↦ undefined
    | some e ↦ elim (deref e.target s.points) [
      | none ↦ undefined
      | some p ↦
          if is_match p asid addr mode then runs (some (position p.addr s.points, p)) else runs none
    ]
  ]
]
