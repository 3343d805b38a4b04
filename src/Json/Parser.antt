-- ===== src/Json/Parser.antt =====
-- `JsonParser` of base/json.cc. The recursion is given a bound on its depth.
pub mod Scanning
pub mod Fuel
pub mod Numbers
pub mod RoundTrip
mod Tests
use uriscv.Prelude.{
  ℕ, zero, suc, ◌+◌, ◌-◌, ◌*◌, ◌%◌, ◌^◌, Bool, true, false, not, ◌&&◌, ◌||◌, List, [], ◌∷◌, ◌++◌,
  ltb, leb, ◌==◌, if◌then◌else◌, length, min,
}
use uriscv.Json.{
  Bytes, ℤ, pos, negsuc, JsonNode, Members, Items, object, array, string, number, bool, null,
  no_members, no_items, set_member, add_item,
}

pub data TokenType : Type 0 where
  nothing object_begin object_end array_begin array_end comma colon text digits true_word false_word
        null_word :
      TokenType

-- The input that is left, the characters of the token, and the token that was looked at.
pub record JsonParser : Type 0 where
  pub input : Bytes
  pub token : Bytes
  pub look_ahead : Bool
  pub la_token_type : TokenType

-- `isspace` and `isdigit`.
unfoldable pub is_space : ℕ → Bool
is_space c = c == b' ' || leb 9 c && leb c 13

unfoldable pub is_digit : ℕ → Bool
is_digit c = leb b'0' c && leb c b'9'

unfoldable pub skip_whitespace : Bytes → Bytes
unfolding is_space
skip_whitespace [] = []
skip_whitespace (c ∷ cs) = let rest = skip_whitespace cs in if is_space c then rest else c ∷ cs

-- A token with what it leaves of the input, and its characters.
pub record Scanned : Type 0 where
  pub type : TokenType
  pub left : Bytes
  pub chars : Bytes

-- `ReadString`, after the first quote, with the characters so far.
unfoldable pub read_string : Bytes → Bytes → Scanned
read_string acc [] = record { type = nothing; left = []; chars = acc }
read_string acc (c ∷ cs) =
    let rest = read_string (acc ++ (c ∷ [])) cs in
    if c == b'"' then record { type = text; left = cs; chars = acc } else rest

-- `ReadKeyword`.
unfoldable pub read_keyword : Bytes → TokenType → Bytes → Scanned
read_keyword [] type cs = record { type = type; left = cs; chars = [] }
read_keyword (k ∷ ks) type [] = record { type = nothing; left = []; chars = [] }
read_keyword (k ∷ ks) type (c ∷ cs) =
    let rest = read_keyword ks type cs in
    if c == k then rest else record { type = nothing; left = c ∷ cs; chars = [] }

-- `ReadNumber`.
unfoldable pub read_number : Bytes → Bytes → Scanned
unfolding is_digit
read_number acc [] = record { type = digits; left = []; chars = acc }
read_number acc (c ∷ cs) =
    let rest = read_number (acc ++ (c ∷ [])) cs in
    if is_digit c then rest else record { type = digits; left = c ∷ cs; chars = acc }

-- The switch of `NextToken`, on input with no leading space.
unfoldable pub scan_char : Bytes → Scanned
unfolding read_string read_keyword read_number
scan_char [] = record { type = nothing; left = []; chars = [] }
scan_char (c ∷ cs) =
    let one : TokenType → Scanned = λ t. record { type = t; left = cs; chars = [] } in
    if c == b'{'
    then one object_begin
    else if c == b'}'
    then one object_end
    else if c == b'['
    then one array_begin
    else if c == b']'
    then one array_end
    else if c == b','
    then one comma
    else if c == b':'
    then one colon
    else if c == b'"'
    then read_string [] cs
    else if c == b'f'
    then read_keyword (b'f' ∷ b'a' ∷ b'l' ∷ b's' ∷ b'e' ∷ []) false_word (c ∷ cs)
    else if c == b't'
    then read_keyword (b't' ∷ b'r' ∷ b'u' ∷ b'e' ∷ []) true_word (c ∷ cs)
    else if c == b'n'
    then read_keyword (b'n' ∷ b'u' ∷ b'l' ∷ b'l' ∷ []) null_word (c ∷ cs)
    else if is_digit c
    then read_number [] (c ∷ cs)
    else record { type = nothing; left = c ∷ cs; chars = [] }

pub record Token : Type 0 where
  pub type : TokenType
  pub parser : JsonParser

-- `NextToken` and `LookAhead`.
unfoldable pub next_token : JsonParser → Token
unfolding scan_char skip_whitespace
next_token p =
    if p.look_ahead
    then record { type = p.la_token_type; parser = record p { look_ahead = false } }
    else (let s = scan_char (skip_whitespace p.input) in
        record { type = s.type; parser = record p { input = s.left; token = s.chars } })

unfoldable pub look : JsonParser → Token
unfolding next_token
look p =
    let t = next_token p in
    record { type = t.type; parser = record t.parser { look_ahead = true; la_token_type = t.type } }

-- `strtol` of decimal digits, which stops at the largest `long`, and its value as an `int`.
unfoldable pub decimal : ℕ → Bytes → ℕ
decimal acc [] = acc
decimal acc (c ∷ cs) = decimal (acc * 10 + (c - b'0')) cs

unfoldable pub to_int : ℕ → ℤ
to_int n = let w = n % 2 ^ 32 in if ltb w (2 ^ 31) then pos w else negsuc (2 ^ 32 - 1 - w)

unfoldable pub read_int : Bytes → ℤ
unfolding decimal to_int
read_int cs = to_int (min (decimal 0 cs) (2 ^ 63 - 1))

-- What parsing ends in: a result with the parser, a `SyntaxError`, or the end of the fuel.
pub data Parse (A : Type 0) : Type 0 where
  parsed : A → JsonParser → Parse A
  syntax_error out_of_fuel : Parse A

infixl 5 ◌>>=◌
abbrev pub ◌>>=◌ : {A B : Type 0} → Parse A → (A → JsonParser → Parse B) → Parse B
parsed a p >>= f = f a p
syntax_error >>= f = syntax_error
out_of_fuel >>= f = out_of_fuel

-- `NextTokenChecked(TOKEN_COLON)`.
unfoldable pub expect_colon : {A : Type 0} → JsonParser → (JsonParser → Parse A) → Parse A
unfolding next_token
expect_colon p k = let t = next_token p in elim t.type [ colon ↦ k t.parser | _ ↦ syntax_error ]

-- `ParseNode` for the token that was read, `ParseObject` with its loop, and `ParseArray` with its.
unfoldable mutual
  unfolding next_token look set_member add_item read_int expect_colon

  pub parse_token : ℕ → TokenType → JsonParser → Parse JsonNode
  parse_token zero type p = out_of_fuel
  parse_token (suc n) object_begin p =
      let t = next_token p in
      (parse_members n t.type no_members t.parser >>= (λ ms q. parsed (object ms) q))
  parse_token (suc n) array_begin p =
      let t = look p in
      (elim t.type [
        | array_end ↦ parsed no_items (next_token t.parser).parser
        | _ ↦ parse_items n no_items t.parser
      ]
        >>= (λ is q. parsed (array is) q))
  parse_token (suc n) text p = parsed (string p.token) p
  parse_token (suc n) digits p = parsed (number (read_int p.token)) p
  parse_token (suc n) true_word p = parsed (bool true) p
  parse_token (suc n) false_word p = parsed (bool false) p
  parse_token (suc n) null_word p = parsed null p
  parse_token (suc n) _ p = syntax_error

  pub parse_members : ℕ → TokenType → Members → JsonParser → Parse Members
  parse_members n object_end ms p = parsed ms p
  parse_members zero type ms p = out_of_fuel
  parse_members (suc n) text ms p = expect_colon p (λ q.
      parse_token n (next_token q).type (next_token q).parser >>= (λ v r.
        let t = next_token r in
        elim t.type [
          | object_end ↦ parsed (set_member p.token v ms) t.parser
          | comma ↦
              parse_members n (next_token t.parser).type (set_member p.token v ms)
                (next_token t.parser).parser
          | _ ↦ syntax_error
        ]))
  parse_members (suc n) _ ms p = syntax_error

  pub parse_items : ℕ → Items → JsonParser → Parse Items
  parse_items zero is p = out_of_fuel
  parse_items (suc n) is p = parse_token n (next_token p).type (next_token p).parser >>= (λ v r.
      let t = next_token r in
      elim t.type [
        | array_end ↦ parsed (add_item v is) t.parser
        | comma ↦ parse_items n (add_item v is) t.parser
        | _ ↦ syntax_error
      ])

unfoldable pub parse_node : ℕ → JsonParser → Parse JsonNode
unfolding parse_token next_token
parse_node n p = parse_token n (next_token p).type (next_token p).parser

-- `Parse`: the fuel is above the number of characters.
unfoldable pub parse : Bytes → Parse JsonNode
unfolding parse_node
parse cs =
    parse_node (suc (2 * length cs))
      (record { input = cs; token = []; look_ahead = false; la_token_type = nothing })
