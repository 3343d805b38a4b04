-- ===== src/Json/Parser/RoundTrip/Order.antt =====
-- Members that are set in the order of their keys, and items that are added.
use uriscv.Prelude.{◌≡◌, refl, ◌∙◌, ap, true}
use uriscv.Json.{
  Bytes, JsonNode, Members, Items, no_members, member, no_items, item, key_less, set_member,
  add_item,
}
use uriscv.Json.Parser.Scanning.{AllBelow, AllAbove, ArePlain}

-- The loops of the parser, on members and items that are given.
unfoldable pub set_all : Members → Members → Members
set_all acc no_members = acc
set_all acc (member k v ms) = set_all (set_member k v acc) ms

unfoldable pub add_all : Items → Items → Items
add_all acc no_items = acc
add_all acc (item v is) = add_all (add_item v acc) is

join_members : Members → Members → Members
join_members no_members ms = ms
join_members (member k v acc) ms = member k v (join_members acc ms)

join_items : Items → Items → Items
join_items no_items is = is
join_items (item v acc) is = item v (join_items acc is)

abbrev Above : Members → Members → Type 0
Above acc no_members = Unit {0}
Above acc (member k v ms) = AllBelow acc k × Above acc ms

set_member-AllBelow :
    (k : Bytes) (v : JsonNode) (acc : Members)
    → AllBelow acc k
    → set_member k v acc ≡ join_members acc (member k v no_members)
unfolding set_member join_members
set_member-AllBelow k v no_members h = refl
set_member-AllBelow k v (member j w acc) (below, h) =
    rw (set_member, below) (ap (member j w) (set_member-AllBelow k v acc h))

join_members-AllBelow :
    (acc : Members) (k : Bytes) (v : JsonNode) (j : Bytes)
    → AllBelow acc j
    → key_less k j ≡ true
    → AllBelow (join_members acc (member k v no_members)) j
unfolding join_members
join_members-AllBelow no_members k v j h below = (below, tt)
join_members-AllBelow (member i w acc) k v j (first, h) below =
    (first, join_members-AllBelow acc k v j h below)

join_members-Above :
    (acc : Members) (k : Bytes) (v : JsonNode) (ms : Members)
    → Above acc ms
    → AllAbove k ms
    → Above (join_members acc (member k v no_members)) ms
join_members-Above acc k v no_members h above = tt
join_members-Above acc k v (member j w ms) (below, h) (less, above) =
    (join_members-AllBelow acc k v j below less, join_members-Above acc k v ms h above)

join_members_assoc :
    (acc : Members) (k : Bytes) (v : JsonNode) (ms : Members)
    → join_members (join_members acc (member k v no_members)) ms ≡ join_members acc (member k v ms)
unfolding join_members
join_members_assoc no_members k v ms = refl
join_members_assoc (member j w acc) k v ms = ap (member j w) (join_members_assoc acc k v ms)

join_members-no_members : (acc : Members) → acc ≡ join_members acc no_members
unfolding join_members
join_members-no_members no_members = refl
join_members-no_members (member k v acc) = ap (member k v) (join_members-no_members acc)

set_all-join_members :
    (acc ms : Members) → Above acc ms → ArePlain ms → set_all acc ms ≡ join_members acc ms
unfolding set_all ArePlain
set_all-join_members acc no_members above plain = join_members-no_members acc
set_all-join_members acc (member k v ms) (below, above) (unquoted, plain, first, rest) =
    rw (set_all, set_member-AllBelow k v acc below)
      (set_all-join_members (join_members acc (member k v no_members)) ms
          (join_members-Above acc k v ms above first) rest
        ∙ join_members_assoc acc k v ms)

no_members-Above : (ms : Members) → Above no_members ms
no_members-Above no_members = tt
no_members-Above (member k v ms) = (tt, no_members-Above ms)

pub set_all-eq : (ms : Members) → ArePlain ms → set_all no_members ms ≡ ms
unfolding join_members
set_all-eq ms plain = set_all-join_members no_members ms (no_members-Above ms) plain

join_items-add_item :
    (acc : Items) (v : JsonNode) (is : Items)
    → join_items (add_item v acc) is ≡ join_items acc (item v is)
unfolding join_items add_item
join_items-add_item no_items v is = refl
join_items-add_item (item w acc) v is = ap (item w) (join_items-add_item acc v is)

join_items-no_items : (acc : Items) → acc ≡ join_items acc no_items
unfolding join_items
join_items-no_items no_items = refl
join_items-no_items (item v acc) = ap (item v) (join_items-no_items acc)

add_all-join_items : (acc is : Items) → add_all acc is ≡ join_items acc is
unfolding add_all join_items add_item
add_all-join_items acc no_items = join_items-no_items acc
add_all-join_items acc (item v is) =
    add_all-join_items (add_item v acc) is ∙ join_items-add_item acc v is

pub add_all-eq : (is : Items) → add_all no_items is ≡ is
unfolding join_items
add_all-eq is = add_all-join_items no_items is
