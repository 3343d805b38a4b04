-- ===== src/Json.antt =====
-- base/json.h and base/json.cc: the tree of a configuration file and what prints it. Texts are lists
-- of bytes.
pub mod Types
pub mod Keys
pub mod Parser
use uriscv.Prelude.{
  ℕ, zero, suc, ◌+◌, ◌*◌, ◌/◌, ◌%◌, ◌^◌, Bool, true, false, ◌&&◌, ◌||◌, List, [], ◌∷◌, ◌++◌, Option,
  none, some, ltb, ◌==◌, if◌then◌else◌, replicate,
}

abbrev pub Bytes : Type 0
Bytes = List ℕ

-- An `int`; `negsuc n` is -(n + 1).
pub data ℤ : Type 0 where
  pos : ℕ → ℤ
  negsuc : ℕ → ℤ

-- A `std::map` is its members in the order of the keys, and a `std::vector` its items.
mutual
  pub data JsonNode : Type 0 where
    object : Members → JsonNode
    array : Items → JsonNode
    string : Bytes → JsonNode
    number : ℤ → JsonNode
    bool : Bool → JsonNode
    null : JsonNode

  pub data Members : Type 0 where
    no_members : Members
    member : Bytes → JsonNode → Members → Members

  pub data Items : Type 0 where
    no_items : Items
    item : JsonNode → Items → Items

-- The order of keys.
unfoldable pub key_less : Bytes → Bytes → Bool
key_less a [] = false
key_less [] (d ∷ b) = true
key_less (c ∷ a) (d ∷ b) = let rest = key_less a b in if c == d then rest else ltb c d

-- `JsonObject::Set`: a value that is there under the key is removed first.
unfoldable pub set_member : Bytes → JsonNode → Members → Members
unfolding key_less
set_member k v no_members = member k v no_members
set_member k v (member j w ms) =
    let rest = set_member k v ms in
    if key_less j k
    then member j w rest
    else if key_less k j
    then member k v (member j w ms)
    else member k v ms

-- `JsonObject::Get`; none is a `KeyError`.
unfoldable pub get_member : Bytes → Members → Option JsonNode
unfolding key_less
get_member k no_members = none
get_member k (member j w ms) =
    let rest = get_member k ms in
    if key_less j k then rest else if key_less k j then none else some w

-- `JsonObject::HasMember`.
unfoldable pub has_member : Bytes → Members → Bool
unfolding get_member
has_member k ms = elim (get_member k ms) [ none ↦ false | some v ↦ true ]

-- `JsonObject::Remove`.
unfoldable pub remove_member : Bytes → Members → Members
unfolding key_less
remove_member k no_members = no_members
remove_member k (member j w ms) =
    let rest = remove_member k ms in
    if key_less j k then member j w rest else if key_less k j then member j w ms else ms

-- `JsonArray::Add`, and `Get`, `Set` and `Remove` at an index; none is `std::out_of_range`.
unfoldable pub add_item : JsonNode → Items → Items
add_item v no_items = item v no_items
add_item v (item w is) = item w (add_item v is)

unfoldable pub get_item : ℕ → Items → Option JsonNode
get_item i no_items = none
get_item zero (item v is) = some v
get_item (suc i) (item v is) = get_item i is

unfoldable pub set_item : ℕ → JsonNode → Items → Option Items
set_item i v no_items = none
set_item zero v (item w is) = some (item v is)
set_item (suc i) v (item w is) = elim (set_item i v is) [ none ↦ none | some js ↦ some (item w js) ]

unfoldable pub remove_item : ℕ → Items → Option Items
remove_item i no_items = none
remove_item zero (item w is) = some is
remove_item (suc i) (item w is) = elim (remove_item i is) [
  | none ↦ none
  | some js ↦ some (item w js)
]

-- `JsonArray::Pop`; none is `std::underflow_error`.
unfoldable pub pop_item : Items → Option Items
pop_item no_items = none
pop_item (item w no_items) = some no_items
pop_item (item w (item v is)) = elim (pop_item (item v is)) [
  | none ↦ none
  | some js ↦ some (item w js)
]

-- A number as a stream prints it, with as many digits as the fuel allows.
unfoldable pub digits_of : ℕ → ℕ → Bytes
digits_of zero n = (48 + n % 10) ∷ []
digits_of (suc f) n =
    let rest = digits_of f (n / 10) in
    if ltb n 10 then (48 + n % 10) ∷ [] else rest ++ ((48 + n % 10) ∷ [])

unfoldable pub print_number : ℤ → Bytes
unfolding digits_of
print_number (pos n) = digits_of n n
print_number (negsuc n) = b'-' ∷ digits_of (suc n) (suc n)

abbrev pub spaces : ℕ → Bytes
spaces n = replicate n b' '

-- What stands before a member and before an item.
unfoldable pub member_gap : Bool → ℕ → Bytes
member_gap indent level = if indent then b'\n' ∷ spaces level else b' ' ∷ []

unfoldable pub item_gap : Bool → Bool → ℕ → Bytes
item_gap indent first level =
    if indent then b'\n' ∷ spaces level else if first then [] else b' ' ∷ []

-- What stands before the closing bracket.
unfoldable pub end_gap : Bool → Bool → ℕ → Bytes
end_gap indent empty level = if indent then (if empty then [] else b'\n' ∷ spaces level) else []

abbrev pub deeper : ℕ → ℕ → ℕ
deeper level width = (level + width) % 2 ^ 32

abbrev pub comma_unless : Bool → Bytes
comma_unless first = if first then [] else b',' ∷ []

abbrev pub no_members? : Members → Bool
no_members? no_members = true
no_members? (member k v ms) = false

abbrev pub no_items? : Items → Bool
no_items? no_items = true
no_items? (item v is) = false

-- `Serialize`: what it appends.
unfoldable mutual
  unfolding print_number member_gap item_gap end_gap

  pub serialize : Bool → ℕ → ℕ → JsonNode → Bytes
  serialize indent width level (object ms) =
      b'{'
      ∷ (serialize_members indent width level true ms
          ++ (end_gap indent (no_members? ms) level ++ (b'}' ∷ [])))
  serialize indent width level (array is) =
      b'['
      ∷ (serialize_items indent width level true is
          ++ (end_gap indent (no_items? is) level ++ (b']' ∷ [])))
  serialize indent width level (string s) = b'"' ∷ (s ++ (b'"' ∷ []))
  serialize indent width level (number n) = print_number n
  serialize indent width level (bool true) = b't' ∷ b'r' ∷ b'u' ∷ b'e' ∷ []
  serialize indent width level (bool false) = b'f' ∷ b'a' ∷ b'l' ∷ b's' ∷ b'e' ∷ []
  serialize indent width level null = b'n' ∷ b'u' ∷ b'l' ∷ b'l' ∷ []

  pub serialize_members : Bool → ℕ → ℕ → Bool → Members → Bytes
  serialize_members indent width level first no_members = []
  serialize_members indent width level first (member k v ms) =
      comma_unless first
      ++ (member_gap indent (deeper level width)
          ++ (b'"'
              ∷ (k
                  ++ (b'"'
                      ∷ b':'
                      ∷ b' '
                      ∷ (serialize indent width (deeper level width) v
                          ++ serialize_members indent width level false ms)))))

  pub serialize_items : Bool → ℕ → ℕ → Bool → Items → Bytes
  serialize_items indent width level first no_items = []
  serialize_items indent width level first (item v is) =
      comma_unless first
      ++ (item_gap indent first (deeper level width)
          ++ (serialize indent width (deeper level width) v
              ++ serialize_items indent width level false is))
