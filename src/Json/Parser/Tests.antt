-- ===== src/Json/Parser/Tests.antt =====
-- A small configuration, printed and read back; a text that is refused; and a tree that is changed.
use uriscv.Prelude.{◌≡◌, refl, true, false, [], ◌∷◌, ◌++◌, none, some, arith, ◌⊎◌}
use uriscv.Json.{
  Bytes, JsonNode, Members, Items, pos, negsuc, object, array, string, number, bool, null,
  no_members, member, no_items, item, serialize, key_less, set_member, get_member, has_member,
  remove_member, add_item, get_item, set_item, remove_item, pop_item,
}
use uriscv.Json.Parser.Scanning.{IsPlain}
use uriscv.Json.Parser.{is_digit, JsonParser, TokenType, parsed, parse, syntax_error}
use uriscv.Json.Parser.Fuel.{parse_lem}
use uriscv.Json.Parser.RoundTrip.{parse-serialize}

abbrev config : JsonNode
config = object (
    member (b'c' ∷ [])
      (array (item (number (pos 17)) (item (bool true) (item (array no_items) no_items))))
      (member (b'd' ∷ []) (object no_members) no_members))

back :
    parse (serialize true 4 0 config)
    ≡ parsed config
        (record { input = []; token = []; look_ahead = false; la_token_type = TokenType.array_end })
unfolding parse serialize
back = refl

-- A number that is negative, and a text with a quote, are printed and not read back.
negative : parse (serialize false 0 0 (number (negsuc 4))) ≡ syntax_error
unfolding parse serialize
negative = refl

quote :
    parse (serialize false 0 0 (array (item (string (b'a' ∷ b'"' ∷ [])) no_items))) ≡ syntax_error
unfolding parse serialize
quote = refl

-- A comma may stand before a closing brace, and not before a closing bracket.
comma_brace :
    parse (b'{' ∷ b'"' ∷ b'a' ∷ b'"' ∷ b':' ∷ b'1' ∷ b',' ∷ b'}' ∷ [])
    ≡ parsed
        (object (member (b'a' ∷ []) (number (pos 1)) no_members))
        (record { input = []; token = []; look_ahead = false; la_token_type = TokenType.nothing })
unfolding parse
comma_brace = refl

comma_bracket : parse (b'[' ∷ b'1' ∷ b',' ∷ b']' ∷ []) ≡ syntax_error
unfolding parse
comma_bracket = refl

abbrev two : Members
two = member (b'a' ∷ []) null (member (b'c' ∷ []) (bool true) no_members)

changed :
    (set_member (b'b' ∷ []) (bool false) two
      ≡ member
          (b'a' ∷ [])
          null
          (member (b'b' ∷ []) (bool false) (member (b'c' ∷ []) (bool true) no_members)))
    × (get_member (b'c' ∷ []) two ≡ some (bool true))
    × (has_member (b'b' ∷ []) two ≡ false)
    × (remove_member (b'a' ∷ []) two ≡ member (b'c' ∷ []) (bool true) no_members)
unfolding set_member get_member has_member remove_member
changed = (refl, refl, refl, refl)

abbrev three : Items
three = item null (item (bool true) (item null no_items))

items_changed :
    (add_item null three ≡ item null (item (bool true) (item null (item null no_items))))
    × (get_item 1 three ≡ some (bool true))
    × (set_item 3 null three ≡ none)
    × (remove_item 1 three ≡ some (item null (item null no_items)))
    × (pop_item three ≡ some (item null (item (bool true) no_items)))
unfolding add_item get_item set_item remove_item pop_item
items_changed = (refl, refl, refl, refl, refl)

-- The results, at a text with an error and at the configuration.
parse_lem_example :
    ((v : JsonNode) × (q : JsonParser) × (parse (b'[' ∷ b'1' ∷ b',' ∷ b']' ∷ []) ≡ parsed v q))
    ⊎ (parse (b'[' ∷ b'1' ∷ b',' ∷ b']' ∷ []) ≡ syntax_error)
parse_lem_example = parse_lem (b'[' ∷ b'1' ∷ b',' ∷ b']' ∷ [])

config-IsPlain : IsPlain config
unfolding IsPlain key_less
config-IsPlain = ((refl, tt), (omega arith, (tt, (tt, tt))), (refl, tt), ((refl, tt), tt, tt, tt))

newline-Stops : is_digit b'\n' ≡ false
unfolding is_digit
newline-Stops = refl

parse-serialize_example :
    (chars : Bytes) × (seen : TokenType) × (parse (serialize true 4 0 config ++ (b'\n' ∷ []))
      ≡ parsed config
          (record { input = b'\n' ∷ []; token = chars; look_ahead = false; la_token_type = seen }))
parse-serialize_example = parse-serialize true 4 0 config (b'\n' ∷ []) config-IsPlain newline-Stops
