-- ===== src/Json/Parser/Fuel/Tokens.antt =====
-- Every token takes a character of the input.
use uriscv.Prelude.{
  ℕ, ◌+◌, ◌≤◌, ◌<◌, ◌≡◌, ◌⊎◌, refl, Bool, true, false, [], ◌∷◌, ◌++◌, ◌==◌, if◌then◌else◌, length,
  Bool-cases, inl, inr, arith,
}
use uriscv.Json.{Bytes}
use uriscv.Json.Parser.{
  JsonParser, Token, TokenType, Scanned, nothing, object_begin, object_end, array_begin, array_end,
  comma, colon, true_word, false_word, null_word, skip_whitespace, read_string, read_keyword,
  read_number, scan_char, next_token, is_digit,
}

skip_whitespace-le : (cs : Bytes) → length (skip_whitespace cs) ≤ length cs
unfolding skip_whitespace
skip_whitespace-le [] = omega arith
skip_whitespace-le (c ∷ cs) = ground (arith, skip_whitespace-le cs)

read_string-le : (acc cs : Bytes) → length (read_string acc cs).left ≤ length cs
unfolding read_string
read_string-le acc [] = omega arith
read_string-le acc (c ∷ cs) = ground (arith, read_string-le (acc ++ (c ∷ [])) cs)

read_number-le : (acc cs : Bytes) → length (read_number acc cs).left ≤ length cs
unfolding read_number
read_number-le acc [] = omega arith
read_number-le acc (c ∷ cs) = ground (arith, read_number-le (acc ++ (c ∷ [])) cs)

read_keyword-le :
    (ks : Bytes) (type : TokenType) (cs : Bytes) → length (read_keyword ks type cs).left ≤ length cs
unfolding read_keyword
read_keyword-le [] type cs = omega arith
read_keyword-le (k ∷ ks) type [] = omega arith
read_keyword-le (k ∷ ks) type (c ∷ cs) = ground (arith, read_keyword-le ks type cs)

-- A token that is not nothing takes a character.
abbrev Takes : Bytes → Scanned → Type 0
Takes cs s = (length s.left ≤ length cs) × ((s.type ≡ nothing) ⊎ (length s.left < length cs))

takes : (cs : Bytes) (s : Scanned) → length s.left < length cs → Takes cs s
takes cs s h = (omega (arith, h), inr h)

Takes-if :
    (cs : Bytes) (b : Bool) (s t : Scanned)
    → (b ≡ true → Takes cs s)
    → Takes cs t
    → Takes cs (if b then s else t)
Takes-if cs true s t h k = h refl
Takes-if cs false s t h k = k

read_number-Takes :
    (c : ℕ) (cs : Bytes) → is_digit c ≡ true → Takes (c ∷ cs) (read_number [] (c ∷ cs))
unfolding read_number
read_number-Takes c cs h =
    rw (read_number, h)
      (takes (c ∷ cs) (read_number (c ∷ []) cs) (omega (arith, read_number-le (c ∷ []) cs)))

read_keyword-Takes :
    (k : ℕ) (ks : Bytes) (type : TokenType) (c : ℕ) (cs : Bytes)
    → Takes (c ∷ cs) (read_keyword (k ∷ ks) type (c ∷ cs))
unfolding read_keyword
read_keyword-Takes k ks type c cs =
    Takes-if (c ∷ cs) (c == k) (read_keyword ks type cs)
      (record { type = nothing; left = c ∷ cs; chars = [] })
      (λ e. takes (c ∷ cs) (read_keyword ks type cs) (omega (arith, read_keyword-le ks type cs)))
      (omega arith, inl refl)

scan_char-Takes : (cs : Bytes) → Takes cs (scan_char cs)
unfolding scan_char
scan_char-Takes [] = (omega arith, inl refl)
scan_char-Takes (c ∷ cs) =
    let one : (t : TokenType) → Takes (c ∷ cs) (record { type = t; left = cs; chars = [] }) =
      λ t. takes (c ∷ cs) (record { type = t; left = cs; chars = [] }) (omega arith) in
    Takes-if (c ∷ cs) (c == b'{') _ _ (λ e. one object_begin)
      (Takes-if (c ∷ cs) (c == b'}') _ _ (λ e. one object_end)
        (Takes-if (c ∷ cs) (c == b'[') _ _ (λ e. one array_begin)
          (Takes-if (c ∷ cs) (c == b']') _ _ (λ e. one array_end)
            (Takes-if (c ∷ cs) (c == b',') _ _ (λ e. one comma)
              (Takes-if (c ∷ cs) (c == b':') _ _ (λ e. one colon)
                (Takes-if (c ∷ cs) (c == b'"') _ _
                  (λ e. takes (c ∷ cs) (read_string [] cs) (omega (arith, read_string-le [] cs)))
                  (Takes-if (c ∷ cs) (c == b'f') _ _
                    (λ e. read_keyword-Takes b'f' (b'a' ∷ b'l' ∷ b's' ∷ b'e' ∷ []) false_word c cs)
                    (Takes-if (c ∷ cs) (c == b't') _ _
                      (λ e. read_keyword-Takes b't' (b'r' ∷ b'u' ∷ b'e' ∷ []) true_word c cs)
                      (Takes-if (c ∷ cs) (c == b'n') _ _
                        (λ e. read_keyword-Takes b'n' (b'u' ∷ b'l' ∷ b'l' ∷ []) null_word c cs)
                        (Takes-if (c ∷ cs) (is_digit c) _ _ (λ e. read_number-Takes c cs e)
                          (omega arith, inl refl)))))))))))

-- The characters that are left, and the token that was looked at.
abbrev pub left_of : JsonParser → ℕ
left_of p = length p.input + (if p.look_ahead then 1 else 0)

pub record Nexts (p : JsonParser) (t : Token) : Type 0 where
  pub fewer : left_of t.parser ≤ left_of p
  pub taken : (t.type ≡ nothing) ⊎ (left_of t.parser < left_of p)

pub next_token-Nexts : (p : JsonParser) → Nexts p (next_token p)
unfolding next_token
next_token-Nexts p = elim (Bool-cases p.look_ahead) [
  | inl looked ↦ record { fewer = ground (arith, looked); taken = inr (ground (arith, looked)) }
  | inr fresh ↦
      let s = scan_char-Takes (skip_whitespace p.input) in
      let l = skip_whitespace-le p.input in
      elim s.1 [
        | inl none_left ↦ record {
          fewer = ground (arith, fresh, s.0, l);
          taken = inl (ground (arith, fresh, none_left));
        }
        | inr shorter ↦ record {
          fewer = ground (arith, fresh, s.0, l);
          taken = inr (ground (arith, fresh, shorter, l));
        }
      ]
]
