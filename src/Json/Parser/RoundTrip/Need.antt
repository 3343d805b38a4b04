-- ===== src/Json/Parser/RoundTrip/Need.antt =====
-- How deep the parser goes for a node, which is less than the node's text is long.
use uriscv.Prelude.{
  ℕ, suc, ◌+◌, ◌*◌, ◌≤◌, ◌≡◌, Bool, true, false, [], ◌∷◌, ◌++◌, if◌then◌else◌, length, arith,
}
use uriscv.Json.{
  Bytes, pos, negsuc, JsonNode, Members, Items, object, array, string, number, bool, null,
  no_members, member, no_items, item, digits_of, print_number, member_gap, item_gap, end_gap,
  no_members?, no_items?, serialize, serialize_members, serialize_items, deeper,
}
use uriscv.Json.Parser.Numbers.{digits_of-cons}

unfoldable mutual
  pub need : JsonNode → ℕ
  need (object ms) = suc (need_members ms)
  need (array is) = suc (need_items is)
  need (string s) = 1
  need (number n) = 1
  need (bool b) = 1
  need null = 1

  pub need_members : Members → ℕ
  need_members no_members = 1
  need_members (member k v ms) = suc (need v + need_members ms)

  pub need_items : Items → ℕ
  need_items no_items = 0
  need_items (item v is) = suc (need v + need_items is)

pub need-positive : (v : JsonNode) → 1 ≤ need v
unfolding need
need-positive (object ms) = omega arith
need-positive (array is) = omega arith
need-positive (string s) = omega arith
need-positive (number n) = omega arith
need-positive (bool b) = omega arith
need-positive null = omega arith

pub need_members-positive : (ms : Members) → 1 ≤ need_members ms
unfolding need_members
need_members-positive no_members = omega arith
need_members-positive (member k v ms) = omega arith

pub length-append : (xs ys : Bytes) → length (xs ++ ys) ≡ length xs + length ys
length-append [] ys = omega arith
length-append (x ∷ xs) ys = omega (arith, length-append xs ys)

digits_of-length : (n : ℕ) → 1 ≤ length (digits_of n n)
digits_of-length n = let (d, ds, e) = digits_of-cons n n in rw e (omega arith)

mutual
  unfolding need serialize print_number

  pub need-serialize : (i : Bool) (w l : ℕ) (v : JsonNode) → need v ≤ 2 * length (serialize i w l v)
  need-serialize i w l (object ms) =
      let ms_text = serialize_members i w l true ms in
      let gap = end_gap i (no_members? ms) l in
      omega (
        arith,
        need-serialize_members i w l true ms,
        length-append ms_text (gap ++ (b'}' ∷ [])),
        length-append gap (b'}' ∷ []),
      )
  need-serialize i w l (array is) =
      let is_text = serialize_items i w l true is in
      let gap = end_gap i (no_items? is) l in
      omega (
        arith,
        need-serialize_items i w l true is,
        length-append is_text (gap ++ (b']' ∷ [])),
        length-append gap (b']' ∷ []),
      )
  need-serialize i w l (string s) = omega arith
  need-serialize i w l (number (pos n)) = omega (arith, digits_of-length n)
  need-serialize i w l (number (negsuc n)) = omega arith
  need-serialize i w l (bool true) = omega arith
  need-serialize i w l (bool false) = omega arith
  need-serialize i w l null = omega arith

  need-serialize_members :
      (i : Bool) (w l : ℕ) (first : Bool) (ms : Members)
      → need_members ms ≤ 2 * length (serialize_members i w l first ms) + 1
  need-serialize_members i w l first no_members = omega arith
  need-serialize_members i w l true (member k v ms) =
      let after = serialize i w (deeper l w) v ++ serialize_members i w l false ms in
      omega (
        arith,
        need-serialize i w (deeper l w) v,
        need-serialize_members i w l false ms,
        length-append (member_gap i (deeper l w)) (b'"' ∷ (k ++ (b'"' ∷ b':' ∷ b' ' ∷ after))),
        length-append k (b'"' ∷ b':' ∷ b' ' ∷ after),
        length-append (serialize i w (deeper l w) v) (serialize_members i w l false ms),
      )
  need-serialize_members i w l false (member k v ms) =
      let after = serialize i w (deeper l w) v ++ serialize_members i w l false ms in
      omega (
        arith,
        need-serialize i w (deeper l w) v,
        need-serialize_members i w l false ms,
        length-append (member_gap i (deeper l w)) (b'"' ∷ (k ++ (b'"' ∷ b':' ∷ b' ' ∷ after))),
        length-append k (b'"' ∷ b':' ∷ b' ' ∷ after),
        length-append (serialize i w (deeper l w) v) (serialize_members i w l false ms),
      )

  need-serialize_items :
      (i : Bool) (w l : ℕ) (first : Bool) (is : Items)
      → need_items is ≤ 2 * length (serialize_items i w l first is) + (if first then 1 else 0)
  need-serialize_items i w l first no_items = omega arith
  need-serialize_items i w l true (item v is) = omega (
    arith,
    need-serialize i w (deeper l w) v,
    need-serialize_items i w l false is,
    length-append (item_gap i true (deeper l w))
        (serialize i w (deeper l w) v ++ serialize_items i w l false is),
    length-append (serialize i w (deeper l w) v) (serialize_items i w l false is),
  )
  need-serialize_items i w l false (item v is) = omega (
    arith,
    need-serialize i w (deeper l w) v,
    need-serialize_items i w l false is,
    length-append (item_gap i false (deeper l w))
        (serialize i w (deeper l w) v ++ serialize_items i w l false is),
    length-append (serialize i w (deeper l w) v) (serialize_items i w l false is),
  )
