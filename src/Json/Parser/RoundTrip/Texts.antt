-- ===== src/Json/Parser/RoundTrip/Texts.antt =====
-- The texts of members and of items, and how the parser starts on them.
use uriscv.Prelude.{ℕ, suc, ◌≡◌, refl, ◌∙◌, ap, Bool, true, false, [], ◌∷◌, ◌++◌}
use mathlib.Core.List.{append_assoc}
use uriscv.Json.{
  Bytes, JsonNode, Members, Items, object, array, no_members, member, no_items, item, item_gap,
  end_gap, serialize, serialize_members, serialize_items, set_member, add_item, deeper,
}
use uriscv.Json.Parser.{
  JsonParser, TokenType, object_begin, array_begin, array_end, text, parsed, ◌>>=◌, next_token,
  is_digit, is_space, parse_token, parse_members, parse_items,
}
use uriscv.Json.Parser.Scanning.{
  at, Unquoted, IsPlain, first_token, chars_of, tail_of, next_token-serialize, next_token-comma,
  next_token-colon, next_token-object_end, next_token-array_end, end_gap-Blank,
}
use uriscv.Json.Parser.RoundTrip.Steps.{
  Reads, after_member, after_item, object_lem, member_lem, array_lem, no_members_lem,
  next_token-looked, Reads-eq, after_member-object_end, after_member-comma, after_item-array_end,
  after_item-comma,
}
use uriscv.Json.Parser.RoundTrip.Gaps.{
  end_gap-Stops, more_members-Stops, next_token-member, next_token-item,
}

-- What closes an object and an array.
abbrev pub object_close : Bool → Bool → ℕ → Bytes → Bytes
object_close i empty l rest = end_gap i empty l ++ (b'}' ∷ rest)

abbrev pub array_close : Bool → Bool → ℕ → Bytes → Bytes
array_close i empty l rest = end_gap i empty l ++ (b']' ∷ rest)

pub close-text :
    (body gap : Bytes) (c : ℕ) (rest : Bytes)
    → (body ++ (gap ++ (c ∷ []))) ++ rest ≡ body ++ (gap ++ (c ∷ rest))
close-text body gap c rest =
    append_assoc body (gap ++ (c ∷ [])) rest ∙ ap (λ x. body ++ x) (append_assoc gap (c ∷ []) rest)

pub space : is_space b' ' ≡ true
unfolding is_space
space = refl

pub closes_object : is_digit b'}' ≡ false
unfolding is_digit
closes_object = refl

pub closes_array : is_digit b']' ≡ false
unfolding is_digit
closes_array = refl

module _ (i : Bool) (w : ℕ) where
  -- A member, up to its value; and what follows the value.
  pub member_step :
      (n l : ℕ) (k : Bytes) (v : JsonNode) (ms acc : Members) (rest : Bytes) (seen : TokenType)
      → IsPlain v
      → (parse_members (suc n) text acc (
            at k seen (
              b':'
              ∷ b' '
              ∷ (serialize i w (deeper l w) v
                  ++ (serialize_members i w l false ms ++ object_close i false l rest))))
          ≡ (parse_token n (first_token v) (
                at (chars_of v) seen (
                  tail_of i w (deeper l w) v
                  ++ (serialize_members i w l false ms ++ object_close i false l rest)))
              >>= after_member n k acc))
  member_step n l k v ms acc rest seen plain =
      let d = deeper l w in
      let after = serialize_members i w l false ms ++ object_close i false l rest in
      member_lem n acc (at k seen (b':' ∷ b' ' ∷ (serialize i w d v ++ after))) _ _
        (next_token-colon [] (b' ' ∷ (serialize i w d v ++ after)) k seen tt)
        (next_token-serialize i w d (b' ' ∷ []) v after [] seen (space, tt) plain
          (more_members-Stops i w l ms _ (end_gap-Stops i false l b'}' rest closes_object)))

  pub last_member :
      (n l : ℕ) (k : Bytes) (v : JsonNode) (acc : Members) (rest chars : Bytes) (seen : TokenType)
      → Reads
          (after_member n k acc v (at chars seen (object_close i false l rest)))
          (set_member k v acc)
          rest
  last_member n l k v acc rest chars seen = (
    [],
    seen,
    after_member-object_end n k acc v _ _
        (next_token-object_end (end_gap i false l) rest chars seen (end_gap-Blank i false l)),
  )

  pub next_member :
      (n l : ℕ) (k : Bytes) (v : JsonNode) (j : Bytes) (u : JsonNode) (ms acc all : Members)
      (rest chars : Bytes) (seen : TokenType)
      → Unquoted j
      → Reads
          (parse_members n text (set_member k v acc) (
            at j seen (
              b':'
              ∷ b' '
              ∷ (serialize i w (deeper l w) u
                  ++ (serialize_members i w l false ms ++ object_close i false l rest)))))
          all
          rest
      → Reads
          (after_member n k acc v (
            at chars seen
              (serialize_members i w l false (member j u ms) ++ object_close i false l rest)))
          all
          rest
  unfolding serialize_members
  next_member n l k v j u ms acc all rest chars seen unquoted = Reads-eq (
      after_member-comma n k acc v _ _ _ (next_token-comma [] _ chars seen tt)
        (next_token-member i w l j u ms (object_close i false l rest) [] seen unquoted))

  pub object_begins :
      (n l : ℕ) (k : Bytes) (v : JsonNode) (ms : Members) (rest : Bytes) (seen : TokenType)
      → Unquoted k
      → parse_token (suc n) object_begin (
          at [] seen (
            (serialize_members i w l true (member k v ms) ++ (end_gap i false l ++ (b'}' ∷ [])))
            ++ rest))
        ≡ (parse_members n text no_members (
              at k seen (
                b':'
                ∷ b' '
                ∷ (serialize i w (deeper l w) v
                    ++ (serialize_members i w l false ms ++ object_close i false l rest))))
            >>= (λ ms q. parsed (object ms) q))
  object_begins n l k v ms rest seen unquoted =
      object_lem n
        (at [] seen (
          (serialize_members i w l true (member k v ms) ++ (end_gap i false l ++ (b'}' ∷ [])))
          ++ rest))
        _
        (ap (λ x. next_token (at [] seen x))
            (close-text (serialize_members i w l true (member k v ms)) (end_gap i false l) b'}'
              rest)
          ∙ next_token-member i w l k v ms (object_close i false l rest) [] seen unquoted)

  abbrev pub first_at : ℕ → JsonNode → Items → Bytes → TokenType → JsonParser
  first_at l v is rest seen =
      at (chars_of v) seen (
        tail_of i w (deeper l w) v
        ++ (serialize_items i w l false is ++ array_close i false l rest))

  pub array_begins :
      (l : ℕ) (v : JsonNode) (is : Items) (rest : Bytes) (seen : TokenType)
      → IsPlain v
      → (next_token (
            at [] seen (
              (serialize_items i w l true (item v is) ++ (end_gap i false l ++ (b']' ∷ [])))
              ++ rest))
          ≡ record { type = first_token v; parser = first_at l v is rest seen })
  unfolding serialize_items
  array_begins l v is rest seen plain =
      ap (λ x. next_token (at [] seen x))
        (close-text (serialize_items i w l true (item v is)) (end_gap i false l) b']' rest)
      ∙ next_token-item i true w l v is (array_close i false l rest) [] seen plain
          (end_gap-Stops i false l b']' rest closes_array)

  pub object_ends :
      (n l : ℕ) (rest : Bytes) (seen : TokenType)
      → parse_token
          (suc (suc n))
          object_begin
          (at [] seen ((end_gap i true l ++ (b'}' ∷ [])) ++ rest))
        ≡ parsed (object no_members) (at [] seen rest)
  object_ends n l rest seen =
      no_members_lem n (at [] seen ((end_gap i true l ++ (b'}' ∷ [])) ++ rest)) (at [] seen rest) (
        ap (λ x. next_token (at [] seen x)) (close-text [] (end_gap i true l) b'}' rest)
        ∙ next_token-object_end (end_gap i true l) rest [] seen (end_gap-Blank i true l))

  pub array_ends :
      (n l : ℕ) (rest : Bytes) (seen : TokenType)
      → parse_token (suc n) array_begin (at [] seen ((end_gap i true l ++ (b']' ∷ [])) ++ rest))
        ≡ parsed (array no_items) (at [] array_end rest)
  array_ends n l rest seen =
      array_lem n (at [] seen ((end_gap i true l ++ (b']' ∷ [])) ++ rest))
        (record { type = array_end; parser = at [] seen rest })
        (ap (λ x. next_token (at [] seen x)) (close-text [] (end_gap i true l) b']' rest)
          ∙ next_token-array_end (end_gap i true l) rest [] seen (end_gap-Blank i true l))
      ∙ ap (λ t. parsed (array no_items) t.parser) (next_token-looked array_end [] seen rest)

  pub last_item :
      (n l : ℕ) (v : JsonNode) (acc : Items) (rest chars : Bytes) (seen : TokenType)
      → Reads
          (after_item n acc v (at chars seen (array_close i false l rest)))
          (add_item v acc)
          rest
  last_item n l v acc rest chars seen = (
    [],
    seen,
    after_item-array_end n acc v _ _
        (next_token-array_end (end_gap i false l) rest chars seen (end_gap-Blank i false l)),
  )

  abbrev pub after_comma : ℕ → JsonNode → Items → Bytes → Bytes
  after_comma l u is rest =
      (item_gap i false (deeper l w)
        ++ (serialize i w (deeper l w) u ++ serialize_items i w l false is))
      ++ array_close i false l rest

  pub after_comma_lem :
      (l : ℕ) (u : JsonNode) (is : Items) (rest : Bytes) (seen : TokenType)
      → IsPlain u
      → next_token (at [] seen (after_comma l u is rest))
        ≡ record { type = first_token u; parser = first_at l u is rest seen }
  after_comma_lem l u is rest seen plain =
      next_token-item i false w l u is (array_close i false l rest) [] seen plain
        (end_gap-Stops i false l b']' rest closes_array)

  pub next_item :
      (n l : ℕ) (v u : JsonNode) (is acc : Items) (rest chars : Bytes) (seen : TokenType)
      → after_item n acc v
          (at chars seen (serialize_items i w l false (item u is) ++ array_close i false l rest))
        ≡ parse_items n (add_item v acc) (at [] seen (after_comma l u is rest))
  unfolding serialize_items
  next_item n l v u is acc rest chars seen =
      after_item-comma n acc v _ _ (next_token-comma [] _ chars seen tt)
