-- ===== src/Json/Parser/RoundTrip.antt =====
-- A printed node is read back.
pub mod Order
pub mod Need
pub mod Steps
pub mod Gaps
pub mod Texts
use uriscv.Prelude.{
  ℕ, zero, suc, ◌+◌, ◌*◌, ◌^◌, ◌≤◌, ◌≡◌, refl, sym, ◌∙◌, ap, Bool, true, false, List, [], ◌∷◌, ◌++◌,
  ◌==◌, if◌then◌else◌, length, arith,
}
use mathlib.Core.List.{append-nil, append_assoc}
use mathlib.Core.Path.{subst}
use uriscv.Json.{
  Bytes, ℤ, pos, negsuc, JsonNode, Members, Items, object, array, string, number, bool, null,
  no_members, member, no_items, item, digits_of, member_gap, item_gap, end_gap, no_members?,
  no_items?, serialize, serialize_members, serialize_items, set_member, add_item, deeper,
}
use uriscv.Json.Parser.{
  JsonParser, TokenType, Token, Parse, nothing, object_begin, object_end, array_begin, array_end,
  comma, colon, text, digits, true_word, false_word, null_word, parsed, syntax_error, ◌>>=◌,
  next_token, look, is_digit, is_space, expect_colon, read_int, parse_token, parse_members,
  parse_items, parse_node, parse,
}
use uriscv.Json.Parser.Numbers.{Stops, read_int-digits_of}
use uriscv.Json.Parser.Scanning.{
  at, Blank, Unquoted, IsPlain, ArePlain, EachPlain, first_token, chars_of, tail_of,
  next_token-serialize, next_token-key, next_token-comma, next_token-colon, next_token-object_end,
  next_token-array_end, member_gap-Blank, item_gap-Blank, end_gap-Blank,
}
use uriscv.Json.Parser.RoundTrip.Order.{set_all, add_all, set_all-eq, add_all-eq}
use uriscv.Json.Parser.RoundTrip.Need.{
  need, need_members, need_items, need-positive, need_members-positive, need-serialize,
  length-append,
}
use uriscv.Json.Parser.RoundTrip.Steps.{
  Reads, Reads-bind, after_member, after_item, from, looked, object_lem, member_lem, item_lem,
  first_item, array_lem, no_members_lem, items_lem, next_token-looked, Reads-eq,
  after_member-object_end, after_member-comma, after_item-array_end, after_item-comma,
}
use uriscv.Json.Parser.RoundTrip.Gaps.{
  end_gap-Stops, more_members-Stops, more_items-Stops, member-text, item-text, next_token-member,
  next_token-item,
}
use uriscv.Json.Parser.RoundTrip.Texts.{
  object_close, array_close, member_step, last_member, next_member, object_begins, first_at,
  array_begins, object_ends, array_ends, last_item, after_comma, after_comma_lem, next_item,
}

-- The members and the items that the loops gathered are the node's.
Reads-object :
    (o : Parse Members) (ms : Members) (rest : Bytes)
    → ArePlain ms
    → Reads o (set_all no_members ms) rest
    → Reads (o >>= (λ all q. parsed (object all) q)) (object ms) rest
Reads-object o ms rest plain h =
    Reads-bind o (λ all q. parsed (object all) q) ms (object ms) rest rest
      (subst (λ x. Reads o x rest) (set_all-eq ms plain) h) (λ chars last. (chars, last, refl))

Reads-array :
    (o : Parse Items) (is : Items) (rest : Bytes)
    → Reads o (add_all no_items is) rest
    → Reads (o >>= (λ all q. parsed (array all) q)) (array is) rest
Reads-array o is rest h =
    Reads-bind o (λ all q. parsed (array all) q) is (array is) rest rest
      (subst (λ x. Reads o x rest) (add_all-eq is) h) (λ chars last. (chars, last, refl))

module _ (i : Bool) (w : ℕ) where
  mutual
    unfolding need IsPlain first_token chars_of tail_of parse_token serialize set_all add_all

    node-Reads :
        (n l : ℕ) (v : JsonNode) (rest : Bytes) (seen : TokenType)
        → need v ≤ n
        → IsPlain v
        → Reads
            (parse_token n (first_token v) (at (chars_of v) seen (tail_of i w l v ++ rest)))
            v
            rest
    node-Reads zero l v rest seen h plain = absurd (omega (arith, h, need-positive v))
    node-Reads (suc zero) l (object ms) rest seen h plain =
        absurd (omega (arith, h, need_members-positive ms))
    node-Reads (suc (suc n)) l (object no_members) rest seen h plain =
        ([], seen, object_ends i w n l rest seen)
    node-Reads (suc (suc n)) l (object (member k v ms)) rest seen h plain =
        Reads-eq (object_begins i w (suc n) l k v ms rest seen plain.0) (
          Reads-object _ (member k v ms) rest plain
            (members-Reads (suc n) l k v ms no_members rest seen (omega (arith, h)) plain))
    node-Reads (suc n) l (array no_items) rest seen h plain =
        ([], array_end, array_ends i w n l rest seen)
    node-Reads (suc n) l (array (item v is)) rest seen h plain =
        Reads-eq
          (items_lem n (at [] seen (tail_of i w l (array (item v is)) ++ rest)) v
            (first_at i w l v is rest seen) (array_begins i w l v is rest seen plain.0))
          (Reads-array _ (item v is) rest (
            items-Reads n l v is no_items rest (first_token v) (omega (arith, h)) plain
              (looked (record { type = first_token v; parser = first_at i w l v is rest seen }))
              (next_token-looked (first_token v) (chars_of v) seen _)))
    node-Reads (suc n) l (string s) rest seen h plain = (s, seen, refl)
    node-Reads (suc n) l (number (pos k)) rest seen h plain =
        (digits_of k k, seen, rw (read_int-digits_of k plain) refl)
    node-Reads (suc n) l (number (negsuc k)) rest seen h plain = absurd plain
    node-Reads (suc n) l (bool true) rest seen h plain = ([], seen, refl)
    node-Reads (suc n) l (bool false) rest seen h plain = ([], seen, refl)
    node-Reads (suc n) l null rest seen h plain = ([], seen, refl)

    members-Reads :
        (n l : ℕ) (k : Bytes) (v : JsonNode) (ms acc : Members) (rest : Bytes) (seen : TokenType)
        → need_members (member k v ms) ≤ n
        → ArePlain (member k v ms)
        → Reads
            (parse_members n text acc (
              at k seen (
                b':'
                ∷ b' '
                ∷ (serialize i w (deeper l w) v
                    ++ (serialize_members i w l false ms ++ object_close i false l rest)))))
            (set_all acc (member k v ms))
            rest
    members-Reads zero l k v ms acc rest seen h plain = absurd (omega (arith, h))
    members-Reads (suc n) l k v no_members acc rest seen h (unquoted, plain, above, others) =
        Reads-eq (member_step i w n l k v no_members acc rest seen plain) (
          Reads-bind _ _ v _ _ rest (node-Reads n (deeper l w) v _ seen (omega (arith, h)) plain)
            (λ chars last. last_member i w n l k v acc rest chars last))
    members-Reads (suc n) l k v (member j u ms) acc rest seen h (unquoted, plain, above, others) =
        Reads-eq (member_step i w n l k v (member j u ms) acc rest seen plain) (
          Reads-bind _ _ v _ _ rest (node-Reads n (deeper l w) v _ seen (omega (arith, h)) plain)
            (λ chars last.
              next_member i w n l k v j u ms acc _ rest chars last others.0 (
                members-Reads n l j u ms (set_member k v acc) rest last (omega (arith, h)) others)))

    items-Reads :
        (n l : ℕ) (v : JsonNode) (is acc : Items) (rest : Bytes) (seen : TokenType)
        → need_items (item v is) ≤ n
        → EachPlain (item v is)
        → (p : JsonParser)
        → next_token p ≡ record { type = first_token v; parser = first_at i w l v is rest seen }
        → Reads (parse_items n acc p) (add_all acc (item v is)) rest
    items-Reads zero l v is acc rest seen h plain p e = absurd (omega (arith, h))
    items-Reads (suc n) l v no_items acc rest seen h (plain, others) p e =
        Reads-eq (item_lem n acc p _ e) (
          Reads-bind _ _ v _ _ rest (node-Reads n (deeper l w) v _ seen (omega (arith, h)) plain)
            (λ chars last. last_item i w n l v acc rest chars last))
    items-Reads (suc n) l v (item u is) acc rest seen h (plain, others) p e =
        Reads-eq (item_lem n acc p _ e) (
          Reads-bind _ _ v _ _ rest (node-Reads n (deeper l w) v _ seen (omega (arith, h)) plain)
            (λ chars last. Reads-eq (next_item i w n l v u is acc rest chars last) (
              items-Reads n l u is (add_item v acc) rest last (omega (arith, h)) others
                (at [] last (after_comma i w l u is rest))
                (after_comma_lem i w l u is rest last others.0))))

-- What `Serialize` prints, whatever the indentation, the parser reads back: a tree whose texts and
-- keys hold no quote, whose numbers are not negative and whose keys are in the order of a map is
-- parsed from its text, and what stands after the text is left, unless it begins with a digit.
pub parse-serialize :
    (indent : Bool) (width level : ℕ) (v : JsonNode) (rest : Bytes)
    → IsPlain v
    → Stops rest
    → (chars : Bytes) × (seen : TokenType) × (parse (serialize indent width level v ++ rest)
        ≡ parsed v
            (record { input = rest; token = chars; look_ahead = false; la_token_type = seen }))
unfolding parse parse_node
parse-serialize indent width level v rest plain stops =
    let printed = serialize indent width level v ++ rest in
    Reads-eq
      (ap (λ t. parse_token (suc (2 * length printed)) t.type t.parser)
        (next_token-serialize indent width level [] v rest [] nothing tt plain stops))
      (node-Reads indent width (suc (2 * length printed)) level v rest nothing
        (omega (
          arith,
          need-serialize indent width level v,
          length-append (serialize indent width level v) rest,
        ))
        plain)
