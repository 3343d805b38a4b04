-- ===== src/Json/Parser/RoundTrip/Steps.antt =====
-- What the parser does with each token of a printed node.
use uriscv.Prelude.{ℕ, suc, ◌≡◌, refl, ◌∙◌, ap, true, false}
use uriscv.Json.{
  Bytes, JsonNode, Members, Items, object, array, string, number, bool, null, no_members, no_items,
  set_member, add_item,
}
use uriscv.Json.Parser.{
  JsonParser, TokenType, Token, Parse, object_begin, object_end, array_begin, array_end, comma,
  colon, text, parsed, syntax_error, ◌>>=◌, next_token, look, expect_colon, parse_token,
  parse_members, parse_items,
}
use uriscv.Json.Parser.Scanning.{at, first_token}

-- A result, with what is left of the input.
abbrev pub Reads : {A : Type 0} → Parse A → A → Bytes → Type 0
Reads {A} o a rest = (chars : Bytes) × (seen : TokenType) × (o ≡ parsed a (at chars seen rest))

pub Reads-bind :
    {A B : Type 0} (o : Parse A) (f : A → JsonParser → Parse B) (a : A) (b : B)
    (middle rest : Bytes)
    → Reads o a middle
    → ((chars : Bytes) (seen : TokenType) → Reads (f a (at chars seen middle)) b rest)
    → Reads (o >>= f) b rest
Reads-bind o f a b middle rest (chars, seen, e) h =
    let (after, last, g) = h chars seen in (after, last, rw e g)

-- What the loops do after a member and after an item, with the token that comes.
abbrev after_member_token : ℕ → Bytes → Members → JsonNode → Token → Parse Members
after_member_token n k ms v t = elim t.type [
  | object_end ↦ parsed (set_member k v ms) t.parser
  | comma ↦
      parse_members n (next_token t.parser).type (set_member k v ms) (next_token t.parser).parser
  | _ ↦ syntax_error
]

abbrev pub after_member : ℕ → Bytes → Members → JsonNode → JsonParser → Parse Members
after_member n k ms v r = after_member_token n k ms v (next_token r)

abbrev after_item_token : ℕ → Items → JsonNode → Token → Parse Items
after_item_token n is v t = elim t.type [
  | array_end ↦ parsed (add_item v is) t.parser
  | comma ↦ parse_items n (add_item v is) t.parser
  | _ ↦ syntax_error
]

abbrev pub after_item : ℕ → Items → JsonNode → JsonParser → Parse Items
after_item n is v r = after_item_token n is v (next_token r)

abbrev pub from : ℕ → Token → Parse JsonNode
from n t = parse_token n t.type t.parser

-- The steps of the parser, each with the tokens that it meets.
pub object_lem :
    (n : ℕ) (p : JsonParser) (t : Token)
    → next_token p ≡ t
    → parse_token (suc n) object_begin p
      ≡ (parse_members n t.type no_members t.parser >>= (λ ms q. parsed (object ms) q))
unfolding parse_token
object_lem n p t e = rw e refl

pub no_members_lem :
    (n : ℕ) (p q : JsonParser)
    → next_token p ≡ record { type = object_end; parser = q }
    → parse_token (suc (suc n)) object_begin p ≡ parsed (object no_members) q
unfolding parse_token
no_members_lem n p q e =
    ap (λ t. parse_members (suc n) t.type no_members t.parser >>= (λ ms r. parsed (object ms) r)) e

pub member_lem :
    (n : ℕ) (acc : Members) (p q : JsonParser) (u : Token)
    → next_token p ≡ record { type = colon; parser = q }
    → next_token q ≡ u
    → parse_members (suc n) text acc p ≡ (from n u >>= after_member n p.token acc)
unfolding parse_members expect_colon
member_lem n acc p q u e g =
    ap
      (λ t. elim t.type [
        | colon ↦ from n (next_token t.parser) >>= after_member n p.token acc
        | _ ↦ syntax_error
      ])
      e
    ∙ ap (λ t. from n t >>= after_member n p.token acc) g

pub item_lem :
    (n : ℕ) (acc : Items) (p : JsonParser) (u : Token)
    → next_token p ≡ u
    → parse_items (suc n) acc p ≡ (from n u >>= after_item n acc)
unfolding parse_items
item_lem n acc p u e = rw e refl

-- A node does not begin as an array ends.
pub first_item :
    {A : Type 0} (v : JsonNode) (x y : A) → elim (first_token v) [ array_end ↦ x | _ ↦ y ] ≡ y
unfolding first_token
first_item (object ms) x y = refl
first_item (array is) x y = refl
first_item (string s) x y = refl
first_item (number n) x y = refl
first_item (bool true) x y = refl
first_item (bool false) x y = refl
first_item null x y = refl

abbrev pub looked : Token → JsonParser
looked t = record t.parser { look_ahead = true; la_token_type = t.type }

look_lem :
    (p : JsonParser) (t : Token)
    → next_token p ≡ t
    → look p ≡ record { type = t.type; parser = looked t }
unfolding look
look_lem p t e = rw e refl

pub array_lem :
    (n : ℕ) (p : JsonParser) (t : Token)
    → next_token p ≡ t
    → parse_token (suc n) array_begin p ≡ (
        elim t.type [
          | array_end ↦ parsed no_items (next_token (looked t)).parser
          | _ ↦ parse_items n no_items (looked t)
        ]
        >>= (λ is q. parsed (array is) q))
unfolding parse_token
array_lem n p t e =
    ap
      (λ u.
        (elim u.type [
          | array_end ↦ parsed no_items (next_token u.parser).parser
          | _ ↦ parse_items n no_items u.parser
        ]
          >>= (λ is q. parsed (array is) q)))
      (look_lem p t e)

pub items_lem :
    (n : ℕ) (p : JsonParser) (v : JsonNode) (q : JsonParser)
    → next_token p ≡ record { type = first_token v; parser = q }
    → parse_token (suc n) array_begin p ≡ (
        parse_items n no_items (looked (record { type = first_token v; parser = q }))
        >>= (λ is r. parsed (array is) r))
items_lem n p v q e =
    array_lem n p (record { type = first_token v; parser = q }) e
    ∙ ap (λ o. o >>= (λ is r. parsed (array is) r))
        (first_item v
          (parsed no_items
            (next_token (looked (record { type = first_token v; parser = q }))).parser)
          (parse_items n no_items (looked (record { type = first_token v; parser = q }))))

pub next_token-looked :
    (type : TokenType) (chars : Bytes) (seen : TokenType) (rest : Bytes)
    → (next_token (looked (record { type = type; parser = at chars seen rest }))
        ≡ record { type = type; parser = at chars type rest })
unfolding next_token
next_token-looked type chars seen rest = refl

pub Reads-eq :
    {A : Type 0} {o u : Parse A} {a : A} {rest : Bytes} → o ≡ u → Reads u a rest → Reads o a rest
Reads-eq e (chars, seen, g) = (chars, seen, e ∙ g)

-- The loops at a closing bracket and at a comma.
module _ (n : ℕ) (k : Bytes) (acc : Members) (v : JsonNode) (r q : JsonParser) where
  pub after_member-object_end :
      next_token r ≡ record { type = object_end; parser = q }
      → after_member n k acc v r ≡ parsed (set_member k v acc) q
  after_member-object_end e = ap (after_member_token n k acc v) e

  pub after_member-comma :
      (z : JsonParser)
      → next_token r ≡ record { type = comma; parser = q }
      → next_token q ≡ record { type = text; parser = z }
      → after_member n k acc v r ≡ parse_members n text (set_member k v acc) z
  after_member-comma z e g =
      ap (after_member_token n k acc v) e
      ∙ ap (λ t. parse_members n t.type (set_member k v acc) t.parser) g

module _ (n : ℕ) (acc : Items) (v : JsonNode) (r q : JsonParser) where
  pub after_item-array_end :
      next_token r ≡ record { type = array_end; parser = q }
      → after_item n acc v r ≡ parsed (add_item v acc) q
  after_item-array_end e = ap (after_item_token n acc v) e

  pub after_item-comma :
      next_token r ≡ record { type = comma; parser = q }
      → after_item n acc v r ≡ parse_items n (add_item v acc) q
  after_item-comma e = ap (after_item_token n acc v) e
