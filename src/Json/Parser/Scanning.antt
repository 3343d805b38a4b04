-- ===== src/Json/Parser/Scanning.antt =====
-- Printed nodes, token by token.
use uriscv.Prelude.{ℕ, zero, suc, ◌^◌, ◌<◌, ◌≡◌, refl, ◌∙◌, Bool, true, false, [], ◌∷◌, ◌++◌, ◌==◌}
use mathlib.Core.List.{append-nil, append_assoc}
use uriscv.Stop.Order.{All}
use uriscv.Json.{
  Bytes, pos, negsuc, JsonNode, Members, Items, object, array, string, number, bool, null,
  no_members, member, no_items, item, digits_of, spaces, end_gap, no_members?, no_items?, serialize,
  serialize_members, serialize_items, member_gap, item_gap, key_less, print_number,
}
use uriscv.Json.Parser.{
  JsonParser, TokenType, object_begin, object_end, array_begin, array_end, comma, colon, text,
  digits, true_word, false_word, null_word, is_space, skip_whitespace, read_string, scan_char,
  next_token,
}
use uriscv.Json.Parser.Numbers.{Stops, digits_of-scanned}

abbrev pub at : Bytes → TokenType → Bytes → JsonParser
at chars seen cs = record { input = cs; token = chars; look_ahead = false; la_token_type = seen }

abbrev pub Unquoted : Bytes → Type 0
Unquoted s = All (λ c. (c == b'"') ≡ false) s

-- Every key of the members is below another one.
abbrev pub AllBelow : Members → Bytes → Type 0
AllBelow no_members k = Unit {0}
AllBelow (member j v ms) k = (key_less j k ≡ true) × AllBelow ms k

abbrev pub AllAbove : Bytes → Members → Type 0
AllAbove k no_members = Unit {0}
AllAbove k (member j v ms) = (key_less k j ≡ true) × AllAbove k ms

-- What is printed so that it can be read: texts with no quote, numbers that are not negative, and
-- the keys of an object in order, as a map has them.
unfoldable mutual
  pub IsPlain : JsonNode → Type 0
  IsPlain (object ms) = ArePlain ms
  IsPlain (array is) = EachPlain is
  IsPlain (string s) = Unquoted s
  IsPlain (number (pos n)) = n < 2 ^ 31
  IsPlain (number (negsuc n)) = ⊥
  IsPlain (bool b) = Unit {0}
  IsPlain null = Unit {0}

  pub ArePlain : Members → Type 0
  ArePlain no_members = Unit {0}
  ArePlain (member k v ms) = Unquoted k × IsPlain v × AllAbove k ms × ArePlain ms

  pub EachPlain : Items → Type 0
  EachPlain no_items = Unit {0}
  EachPlain (item v is) = IsPlain v × EachPlain is

-- The token that a node begins with, its characters, and what is printed after it.
unfoldable pub first_token : JsonNode → TokenType
first_token (object ms) = object_begin
first_token (array is) = array_begin
first_token (string s) = text
first_token (number n) = digits
first_token (bool true) = true_word
first_token (bool false) = false_word
first_token null = null_word

unfoldable pub chars_of : JsonNode → Bytes
chars_of (string s) = s
chars_of (number (pos n)) = digits_of n n
chars_of (number (negsuc n)) = []
chars_of (object ms) = []
chars_of (array is) = []
chars_of (bool b) = []
chars_of null = []

module _ (indent : Bool) (width level : ℕ) where
  unfoldable pub tail_of : JsonNode → Bytes
  tail_of (object ms) =
      serialize_members indent width level true ms
      ++ (end_gap indent (no_members? ms) level ++ (b'}' ∷ []))
  tail_of (array is) =
      serialize_items indent width level true is
      ++ (end_gap indent (no_items? is) level ++ (b']' ∷ []))
  tail_of (string s) = []
  tail_of (number n) = []
  tail_of (bool b) = []
  tail_of null = []

abbrev pub Blank : Bytes → Type 0
Blank cs = All (λ c. is_space c ≡ true) cs

skip-Blank : (gap cs : Bytes) → Blank gap → skip_whitespace (gap ++ cs) ≡ skip_whitespace cs
unfolding skip_whitespace
skip-Blank [] cs h = refl
skip-Blank (c ∷ gap) cs (h, hs) = rw h (skip-Blank gap cs hs)

read_string-Unquoted :
    (acc s rest : Bytes)
    → Unquoted s
    → read_string acc (s ++ (b'"' ∷ rest)) ≡ record { type = text; left = rest; chars = acc ++ s }
unfolding read_string
read_string-Unquoted acc [] rest h = rw (append-nil acc) refl
read_string-Unquoted acc (c ∷ s) rest (h, hs) =
    rw h (read_string-Unquoted (acc ++ (c ∷ [])) s rest hs ∙ rw (append_assoc acc (c ∷ []) s) refl)

-- The first token of a printed node.
serialize-scanned :
    (indent : Bool) (width level : ℕ) (v : JsonNode) (rest : Bytes)
    → IsPlain v
    → Stops rest
    → scan_char (skip_whitespace (serialize indent width level v ++ rest)) ≡ record {
      type = first_token v;
      left = tail_of indent width level v ++ rest;
      chars = chars_of v;
    }
unfolding serialize first_token tail_of chars_of scan_char skip_whitespace is_space IsPlain
    print_number
serialize-scanned i w l (object ms) rest h s = refl
serialize-scanned i w l (array is) rest h s = refl
serialize-scanned i w l (string t) rest h s =
    rw (append_assoc t (b'"' ∷ []) rest) (read_string-Unquoted [] t rest h)
serialize-scanned i w l (number (pos n)) rest h s = digits_of-scanned n rest s
serialize-scanned i w l (number (negsuc n)) rest h s = absurd h
serialize-scanned i w l (bool true) rest h s = refl
serialize-scanned i w l (bool false) rest h s = refl
serialize-scanned i w l null rest h s = refl

pub next_token-serialize :
    (indent : Bool) (width level : ℕ) (gap : Bytes) (v : JsonNode) (rest chars : Bytes)
    (seen : TokenType)
    → Blank gap
    → IsPlain v
    → Stops rest
    → next_token (at chars seen (gap ++ (serialize indent width level v ++ rest))) ≡ record {
      type = first_token v;
      parser = at (chars_of v) seen (tail_of indent width level v ++ rest);
    }
unfolding next_token
next_token-serialize i w l gap v rest chars seen b h s =
    rw
      (next_token, skip-Blank gap (serialize i w l v ++ rest) b, serialize-scanned i w l v rest h s)
      refl

-- A key, and a character that is a token.
pub next_token-key :
    (gap k rest chars : Bytes) (seen : TokenType)
    → Blank gap
    → Unquoted k
    → next_token (at chars seen (gap ++ (b'"' ∷ (k ++ (b'"' ∷ rest)))))
      ≡ record { type = text; parser = at k seen rest }
unfolding next_token skip_whitespace is_space scan_char
next_token-key gap k rest chars seen b h =
    rw
      (next_token, skip-Blank gap (b'"' ∷ (k ++ (b'"' ∷ rest))) b, read_string-Unquoted [] k rest h)
      refl

module _ (gap rest chars : Bytes) (seen : TokenType) (b : Blank gap) where
  pub next_token-comma :
      next_token (at chars seen (gap ++ (b',' ∷ rest)))
      ≡ record { type = comma; parser = at [] seen rest }
  unfolding next_token skip_whitespace is_space scan_char
  next_token-comma = rw (next_token, skip-Blank gap (b',' ∷ rest) b) refl

  pub next_token-colon :
      next_token (at chars seen (gap ++ (b':' ∷ rest)))
      ≡ record { type = colon; parser = at [] seen rest }
  unfolding next_token skip_whitespace is_space scan_char
  next_token-colon = rw (next_token, skip-Blank gap (b':' ∷ rest) b) refl

  pub next_token-object_end :
      next_token (at chars seen (gap ++ (b'}' ∷ rest)))
      ≡ record { type = object_end; parser = at [] seen rest }
  unfolding next_token skip_whitespace is_space scan_char
  next_token-object_end = rw (next_token, skip-Blank gap (b'}' ∷ rest) b) refl

  pub next_token-array_end :
      next_token (at chars seen (gap ++ (b']' ∷ rest)))
      ≡ record { type = array_end; parser = at [] seen rest }
  unfolding next_token skip_whitespace is_space scan_char
  next_token-array_end = rw (next_token, skip-Blank gap (b']' ∷ rest) b) refl

-- The gaps between tokens are blank.
spaces-Blank : (n : ℕ) → Blank (spaces n)
unfolding is_space
spaces-Blank zero = tt
spaces-Blank (suc n) = (refl, spaces-Blank n)

pub member_gap-Blank : (indent : Bool) (level : ℕ) → Blank (member_gap indent level)
unfolding member_gap is_space
member_gap-Blank true level = (refl, spaces-Blank level)
member_gap-Blank false level = (refl, tt)

pub item_gap-Blank : (indent first : Bool) (level : ℕ) → Blank (item_gap indent first level)
unfolding item_gap is_space
item_gap-Blank true first level = (refl, spaces-Blank level)
item_gap-Blank false true level = tt
item_gap-Blank false false level = (refl, tt)

pub end_gap-Blank : (indent empty : Bool) (level : ℕ) → Blank (end_gap indent empty level)
unfolding end_gap is_space
end_gap-Blank true true level = tt
end_gap-Blank true false level = (refl, spaces-Blank level)
end_gap-Blank false empty level = tt
