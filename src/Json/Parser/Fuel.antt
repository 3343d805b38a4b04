-- ===== src/Json/Parser/Fuel.antt =====
-- The parser's bound on its depth is never met: every token takes a character of the input.
pub mod Tokens
use uriscv.Prelude.{
  ℕ, zero, suc, ◌+◌, ◌*◌, ◌≤◌, ◌<◌, ◌≡◌, ◌≢◌, ◌⊎◌, refl, Bool, true, false, List, [], ◌∷◌, ◌++◌,
  ◌==◌, if◌then◌else◌, length, Bool-cases, inl, inr, arith,
}
use uriscv.Json.{Bytes, JsonNode, Members, Items, no_members, no_items, set_member, add_item}
use uriscv.Json.Parser.{
  JsonParser, Token, TokenType, Scanned, Parse, parsed, syntax_error, out_of_fuel, nothing,
  object_begin, object_end, array_begin, array_end, comma, colon, text, digits, true_word,
  false_word, null_word, ◌>>=◌, is_space, skip_whitespace, read_string, read_keyword, read_number,
  scan_char, next_token, look, expect_colon, parse_token, parse_members, parse_items, parse_node,
  parse, is_digit,
}
use uriscv.Json.Parser.Fuel.Tokens.{left_of, Nexts, next_token-Nexts}

-- What is left after a parse is no more than before it, and the fuel is not out.
abbrev Within : {A : Type 0} → ℕ → Parse A → Type 0
Within k (parsed a p) = left_of p ≤ k
Within k syntax_error = Unit {0}
Within k out_of_fuel = ⊥

Within-bind :
    {A B : Type 0} (k j : ℕ) (o : Parse A) (f : A → JsonParser → Parse B)
    → Within k o
    → ((a : A) (p : JsonParser) → left_of p ≤ k → Within j (f a p))
    → Within j (o >>= f)
Within-bind k j (parsed a p) f h g = g a p h
Within-bind k j syntax_error f h g = tt
Within-bind k j out_of_fuel f h g = h

module _ {A : Type 0} (k : ℕ) where
  colon_switch :
      (ty : TokenType) (o : Parse A)
      → (ty ≡ colon → Within k o)
      → Within k (elim ty [ colon ↦ o | _ ↦ syntax_error ])
  colon_switch colon o h = h refl
  colon_switch nothing o h = tt
  colon_switch _ o h = tt

  object_switch :
      (ty : TokenType) (x y : Parse A)
      → Within k x
      → (ty ≡ comma → Within k y)
      → Within k (elim ty [ object_end ↦ x | comma ↦ y | _ ↦ syntax_error ])
  object_switch object_end x y h g = h
  object_switch comma x y h g = g refl
  object_switch nothing x y h g = tt
  object_switch _ x y h g = tt

  array_switch :
      (ty : TokenType) (x y : Parse A)
      → Within k x
      → (ty ≡ comma → Within k y)
      → Within k (elim ty [ array_end ↦ x | comma ↦ y | _ ↦ syntax_error ])
  array_switch array_end x y h g = h
  array_switch comma x y h g = g refl
  array_switch nothing x y h g = tt
  array_switch _ x y h g = tt

  first_switch :
      (ty : TokenType) (x y : Parse A)
      → (ty ≡ array_end → Within k x)
      → Within k y
      → Within k (elim ty [ array_end ↦ x | _ ↦ y ])
  first_switch array_end x y h g = h refl
  first_switch nothing x y h g = g
  first_switch _ x y h g = g

not_comma : {t : TokenType} → t ≡ nothing → t ≡ comma → ⊥
not_comma z e = cc

strictly :
    (p : JsonParser) (t : Token) → Nexts p t → t.type ≢ nothing → left_of t.parser < left_of p
strictly p t h ne = elim h.taken [ inl e ↦ absurd (ne e) | inr less ↦ less ]

expect_colon-Within :
    {A : Type 0} (k : ℕ) (p : JsonParser) (f : JsonParser → Parse A)
    → ((q : JsonParser) → left_of q < left_of p → Within k (f q))
    → Within k (expect_colon p f)
unfolding expect_colon
expect_colon-Within k p f h =
    let t = next_token p in
    colon_switch k t.type (f t.parser)
      (λ e. h t.parser (strictly p t (next_token-Nexts p) (λ n. cc)))

-- Enough fuel for what follows a token.
Enough : ℕ → TokenType → JsonParser → Type 0
Enough n type p = ((type ≡ nothing) × (0 < n)) ⊎ (2 * left_of p + 2 < n)

next-Enough :
    (n : ℕ) (p : JsonParser)
    → 2 * left_of p < n
    → Enough n (next_token p).type (next_token p).parser
unfolding Enough
next-Enough n p h =
    let t = next_token p in
    let s = next_token-Nexts p in
    elim s.taken [
      | inl none_left ↦ inl (none_left, omega (arith, h))
      | inr less ↦ inr (omega (arith, less, h))
    ]

-- A token that was looked at is still to be read.
look-Nexts :
    (p : JsonParser)
    → (((look p).type ≡ nothing) ⊎ (left_of (look p).parser ≤ left_of p))
      × (length (look p).parser.input ≤ left_of p)
unfolding look next_token
look-Nexts p = elim (next_token-Nexts p).taken [
  | inl none_left ↦ (inl none_left, ground (arith, (next_token-Nexts p).fewer))
  | inr less ↦ (inr (ground (arith, less)), ground (arith, less))
]

parse_items-nothing :
    (n : ℕ) (is : Items) (p : JsonParser)
    → 2 ≤ n
    → (next_token p).type ≡ nothing
    → parse_items n is p ≡ syntax_error
unfolding parse_items
parse_items-nothing zero is p h e = absurd (omega (arith, h))
parse_items-nothing (suc zero) is p h e = absurd (omega (arith, h))
parse_items-nothing (suc (suc n)) is p h e = rw (parse_items, e) refl

mutual
  unfolding parse_token Enough

  token-Within :
      (n : ℕ) (type : TokenType) (p : JsonParser)
      → Enough n type p
      → Within (left_of p) (parse_token n type p)
  token-Within zero type p (inl (e, h)) = absurd (omega (arith, h))
  token-Within zero type p (inr h) = absurd (omega (arith, h))
  token-Within (suc n) object_begin p (inl (e, h)) = absurd (cc)
  token-Within (suc n) object_begin p (inr h) =
      let t = next_token p in
      let s = next_token-Nexts p in
      Within-bind (left_of p) (left_of p) (parse_members n t.type no_members t.parser) _
        (members-Within n t.type no_members t.parser (left_of p) s.fewer
          (omega (arith, s.fewer, h)))
        (λ ms q le. le)
  token-Within (suc n) array_begin p (inl (e, h)) = absurd (cc)
  token-Within (suc n) array_begin p (inr h) =
      let t = look p in
      let (after, short) = look-Nexts p in
      Within-bind (left_of p) (left_of p) _ _
        (first_switch (left_of p) t.type (parsed no_items (next_token t.parser).parser)
          (parse_items n no_items t.parser) (λ e. omega (arith, short))
          (elim after [
            | inl none_left ↦
                rw (parse_items-nothing n no_items t.parser (omega (arith, h)) none_left) tt
            | inr fits ↦ items-Within n no_items t.parser (left_of p) fits (omega (arith, fits, h))
          ]))
        (λ is q le. le)
  token-Within (suc n) text p h = omega arith
  token-Within (suc n) digits p h = omega arith
  token-Within (suc n) true_word p h = omega arith
  token-Within (suc n) false_word p h = omega arith
  token-Within (suc n) null_word p h = omega arith
  token-Within (suc n) nothing p h = tt
  token-Within (suc n) _ p h = tt

  members-Within :
      (n : ℕ) (type : TokenType) (ms : Members) (p : JsonParser) (k : ℕ)
      → left_of p ≤ k
      → 2 * left_of p + 2 ≤ n
      → Within k (parse_members n type ms p)
  members-Within zero type ms p k le h = absurd (omega (arith, h))
  members-Within (suc n) object_end ms p k le h = le
  members-Within (suc n) text ms p k le h = expect_colon-Within k p _ (λ q less.
      let u = next_token q in
      let su = next_token-Nexts q in
      Within-bind (left_of u.parser) k (parse_token n u.type u.parser) _
        (token-Within n u.type u.parser (next-Enough n q (omega (arith, less, h))))
        (λ v r below.
          let t = next_token r in
          let st = next_token-Nexts r in
          object_switch k t.type (parsed (set_member p.token v ms) t.parser) _
            (omega (arith, st.fewer, below, su.fewer, less, le))
            (λ e.
              let sw = next_token-Nexts t.parser in
              members-Within n (next_token t.parser).type (set_member p.token v ms)
                (next_token t.parser).parser k
                (omega (arith, sw.fewer, st.fewer, below, su.fewer, less, le))
                (omega (arith, sw.fewer, st.fewer, below, su.fewer, less, h)))))
  members-Within (suc n) nothing ms p k le h = tt
  members-Within (suc n) _ ms p k le h = tt

  items-Within :
      (n : ℕ) (is : Items) (p : JsonParser) (k : ℕ)
      → left_of p ≤ k
      → 2 * left_of p + 2 ≤ n
      → Within k (parse_items n is p)
  items-Within zero is p k le h = absurd (omega (arith, h))
  items-Within (suc n) is p k le h =
      let u = next_token p in
      let su = next_token-Nexts p in
      Within-bind (left_of u.parser) k (parse_token n u.type u.parser) _
        (token-Within n u.type u.parser (next-Enough n p (omega (arith, h))))
        (λ v r below.
          let t = next_token r in
          let st = next_token-Nexts r in
          array_switch k t.type (parsed (add_item v is) t.parser) _
            (omega (arith, st.fewer, below, su.fewer, le))
            (λ e.
              items-Within n (add_item v is) t.parser k
                (omega (arith, st.fewer, below, su.fewer, le))
                (omega (arith, strictly r t st (λ z. not_comma z e), below, su.fewer, h))))

decided :
    {A : Type 0} (k : ℕ) (o : Parse A)
    → Within k o
    → ((v : A) × (q : JsonParser) × (o ≡ parsed v q)) ⊎ (o ≡ syntax_error)
decided k (parsed v q) h = inl (v, q, refl)
decided k syntax_error h = inr refl
decided k out_of_fuel h = absurd h

-- The parser's answer never depends on the fuel running out: whatever the text, it ends with a node
-- or with a syntax error.
pub parse_lem :
    (cs : Bytes)
    → ((v : JsonNode) × (q : JsonParser) × (parse cs ≡ parsed v q)) ⊎ (parse cs ≡ syntax_error)
unfolding parse parse_node
parse_lem cs =
    let p : JsonParser = record {
      input = cs;
      token = [];
      look_ahead = false;
      la_token_type = nothing;
    } in
    let n : ℕ = suc (2 * length cs) in
    decided _ _
      (token-Within n (next_token p).type (next_token p).parser (next-Enough n p (omega arith)))
