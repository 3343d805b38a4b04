-- ===== src/Json/Parser/RoundTrip/Gaps.antt =====
-- What is printed around the members and the items.
use uriscv.Prelude.{ℕ, ◌≡◌, refl, ◌∙◌, ap, Bool, true, false, ◌∷◌, ◌++◌}
use mathlib.Core.List.{append_assoc}
use uriscv.Json.{
  Bytes, JsonNode, Members, Items, no_members, member, no_items, item, member_gap, item_gap,
  end_gap, serialize, serialize_members, serialize_items, deeper,
}
use uriscv.Json.Parser.{TokenType, text, next_token, is_digit}
use uriscv.Json.Parser.Numbers.{Stops}
use uriscv.Json.Parser.Scanning.{
  at, Unquoted, IsPlain, first_token, chars_of, tail_of, next_token-serialize, next_token-key,
  member_gap-Blank, item_gap-Blank,
}

-- What follows a node is not a digit.
pub end_gap-Stops :
    (i empty : Bool) (l c : ℕ) (rest : Bytes)
    → Stops (c ∷ rest)
    → Stops (end_gap i empty l ++ (c ∷ rest))
unfolding end_gap is_digit
end_gap-Stops true true l c rest h = h
end_gap-Stops true false l c rest h = refl
end_gap-Stops false empty l c rest h = h

pub more_members-Stops :
    (i : Bool) (w l : ℕ) (ms : Members) (rest : Bytes)
    → Stops rest
    → Stops (serialize_members i w l false ms ++ rest)
unfolding serialize_members is_digit
more_members-Stops i w l no_members rest h = h
more_members-Stops i w l (member k v ms) rest h = refl

pub more_items-Stops :
    (i : Bool) (w l : ℕ) (is : Items) (rest : Bytes)
    → Stops rest
    → Stops (serialize_items i w l false is ++ rest)
unfolding serialize_items is_digit
more_items-Stops i w l no_items rest h = h
more_items-Stops i w l (item v is) rest h = refl

-- The texts, bracketed from the left.
pub member-text :
    (i : Bool) (w l : ℕ) (k : Bytes) (v : JsonNode) (ms : Members) (rest : Bytes)
    → serialize_members i w l true (member k v ms) ++ rest
      ≡ member_gap i (deeper l w)
        ++ (b'"'
            ∷ (k
                ++ (b'"'
                    ∷ b':'
                    ∷ b' '
                    ∷ (serialize i w (deeper l w) v
                        ++ (serialize_members i w l false ms ++ rest)))))
unfolding serialize_members
member-text i w l k v ms rest =
    append_assoc (member_gap i (deeper l w)) _ rest
    ∙ ap (λ x. member_gap i (deeper l w) ++ (b'"' ∷ x))
        (append_assoc k _ rest
          ∙ ap (λ x. k ++ (b'"' ∷ b':' ∷ b' ' ∷ x))
              (append_assoc (serialize i w (deeper l w) v) _ rest))

pub item-text :
    (i first : Bool) (w l : ℕ) (v : JsonNode) (is : Items) (rest : Bytes)
    → (item_gap i first (deeper l w)
          ++ (serialize i w (deeper l w) v ++ serialize_items i w l false is))
        ++ rest
      ≡ item_gap i first (deeper l w)
        ++ (serialize i w (deeper l w) v ++ (serialize_items i w l false is ++ rest))
item-text i first w l v is rest =
    append_assoc (item_gap i first (deeper l w)) _ rest
    ∙ ap (λ x. item_gap i first (deeper l w) ++ x)
        (append_assoc (serialize i w (deeper l w) v) _ rest)

-- The first tokens of members and of items.
pub next_token-member :
    (i : Bool) (w l : ℕ) (k : Bytes) (v : JsonNode) (ms : Members) (rest chars : Bytes)
    (seen : TokenType)
    → Unquoted k
    → next_token (at chars seen (serialize_members i w l true (member k v ms) ++ rest)) ≡ record {
      type = text;
      parser = at k seen (
          b':'
          ∷ b' '
          ∷ (serialize i w (deeper l w) v ++ (serialize_members i w l false ms ++ rest)));
    }
next_token-member i w l k v ms rest chars seen h =
    ap (λ x. next_token (at chars seen x)) (member-text i w l k v ms rest)
    ∙ next_token-key (member_gap i (deeper l w)) k _ chars seen (member_gap-Blank i (deeper l w)) h

pub next_token-item :
    (i first : Bool) (w l : ℕ) (v : JsonNode) (is : Items) (rest chars : Bytes) (seen : TokenType)
    → IsPlain v
    → Stops rest
    → next_token (
        at chars seen (
          (item_gap i first (deeper l w)
            ++ (serialize i w (deeper l w) v ++ serialize_items i w l false is))
          ++ rest))
      ≡ record {
        type = first_token v;
        parser =
            at
              (chars_of v)
              seen
              (tail_of i w (deeper l w) v ++ (serialize_items i w l false is ++ rest));
      }
next_token-item i first w l v is rest chars seen plain stops =
    ap (λ x. next_token (at chars seen x)) (item-text i first w l v is rest)
    ∙ next_token-serialize i w (deeper l w) (item_gap i first (deeper l w)) v _ chars seen
        (item_gap-Blank i first (deeper l w)) plain (more_items-Stops i w l is rest stops)
