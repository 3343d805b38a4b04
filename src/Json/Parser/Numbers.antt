-- ===== src/Json/Parser/Numbers.antt =====
-- Decimal digits, printed and read.
use uriscv.Prelude.{
  ℕ, zero, suc, ◌+◌, ◌-◌, ◌*◌, ◌/◌, ◌%◌, ◌^◌, ◌≤◌, ◌<◌, ◌≡◌, refl, ◌∙◌, true, false, [], ◌∷◌, ◌++◌,
  ◌==◌, ltb, Bool-cases, inl, inr, arith,
}
use mathlib.Core.List.{append-nil, append_assoc}
use mathlib.Core.Path.{subst}
use uriscv.Stop.Order.{All}
use uriscv.Json.{Bytes, pos, digits_of}
use uriscv.Json.Parser.{
  digits, is_digit, read_number, scan_char, skip_whitespace, is_space, decimal, to_int, read_int,
}

abbrev pub Digits : Bytes → Type 0
Digits cs = All (λ c. is_digit c ≡ true) cs

-- A text that a number does not run on into.
abbrev pub Stops : Bytes → Type 0
Stops [] = Unit {0}
Stops (c ∷ cs) = is_digit c ≡ false

All-snoc : (cs : Bytes) (c : ℕ) → Digits cs → is_digit c ≡ true → Digits (cs ++ (c ∷ []))
All-snoc [] c h k = (k, tt)
All-snoc (d ∷ cs) c (h, hs) k = (h, All-snoc cs c hs k)

digit : (n : ℕ) → is_digit (48 + n % 10) ≡ true
unfolding is_digit
digit n = ground arith

digits_of-Digits : (f n : ℕ) → Digits (digits_of f n)
unfolding digits_of
digits_of-Digits zero n = (digit n, tt)
digits_of-Digits (suc f) n = elim (Bool-cases (ltb n 10)) [
  | inl small ↦ rw (digits_of, small) (digit n, tt)
  | inr large ↦
      rw (digits_of, large)
        (All-snoc (digits_of f (n / 10)) (48 + n % 10) (digits_of-Digits f (n / 10)) (digit n))
]

decimal-append :
    (acc : ℕ) (cs : Bytes) (c : ℕ) → decimal acc (cs ++ (c ∷ [])) ≡ decimal acc cs * 10 + (c - 48)
unfolding decimal
decimal-append acc [] c = refl
decimal-append acc (d ∷ cs) c = decimal-append (acc * 10 + (d - 48)) cs c

decimal-digits_of : (f n : ℕ) → n ≤ f → decimal 0 (digits_of f n) ≡ n
unfolding decimal digits_of
decimal-digits_of zero n h = omega (arith, h)
decimal-digits_of (suc f) n h = elim (Bool-cases (ltb n 10)) [
  | inl small ↦ rw (digits_of, small) (ground (arith, small))
  | inr large ↦
      rw (digits_of, large)
        (decimal-append 0 (digits_of f (n / 10)) (48 + n % 10)
          ∙ omega (arith, decimal-digits_of f (n / 10) (ground (arith, large, h))))
]

-- An `int` that is not negative, printed and read.
pub read_int-digits_of : (n : ℕ) → n < 2 ^ 31 → read_int (digits_of n n) ≡ pos n
unfolding read_int to_int
read_int-digits_of n h = rw (read_int, decimal-digits_of n n (omega arith)) (ground (arith, h))

read_number-Digits :
    (acc ds rest : Bytes)
    → Digits ds
    → Stops rest
    → read_number acc (ds ++ rest) ≡ record { type = digits; left = rest; chars = acc ++ ds }
unfolding read_number
read_number-Digits acc [] [] h s = rw (append-nil acc) refl
read_number-Digits acc [] (c ∷ rest) h s = rw (append-nil acc, s) refl
read_number-Digits acc (d ∷ ds) rest (h, hs) s =
    rw h
      (read_number-Digits (acc ++ (d ∷ [])) ds rest hs s ∙ rw (append_assoc acc (d ∷ []) ds) refl)

apart : (d k : ℕ) → is_digit d ≡ true → is_digit k ≡ false → (d == k) ≡ false
unfolding is_digit
apart d k h g = ground (arith, h, g)

scan_char-is_digit :
    (d : ℕ) (cs : Bytes) → is_digit d ≡ true → scan_char (d ∷ cs) ≡ read_number [] (d ∷ cs)
unfolding scan_char is_digit
scan_char-is_digit d cs h =
    rw
      (
        scan_char,
        apart d b'{' h refl,
        apart d b'}' h refl,
        apart d b'[' h refl,
        apart d b']' h refl,
        apart d b',' h refl,
        apart d b':' h refl,
        apart d b'"' h refl,
        apart d b'f' h refl,
        apart d b't' h refl,
        apart d b'n' h refl,
        h,
      )
      refl

cons_of : (cs : Bytes) (c : ℕ) → (d : ℕ) × (ds : Bytes) × (cs ++ (c ∷ []) ≡ d ∷ ds)
cons_of [] c = (c, [], refl)
cons_of (d ∷ cs) c = (d, cs ++ (c ∷ []), refl)

pub digits_of-cons : (f n : ℕ) → (d : ℕ) × (ds : Bytes) × (digits_of f n ≡ d ∷ ds)
unfolding digits_of
digits_of-cons zero n = (48 + n % 10, [], refl)
digits_of-cons (suc f) n = elim (Bool-cases (ltb n 10)) [
  | inl small ↦ (48 + n % 10, [], rw (digits_of, small) refl)
  | inr large ↦
      let (d, ds, e) = cons_of (digits_of f (n / 10)) (48 + n % 10) in
      (d, ds, rw (digits_of, large) e)
]

-- A printed number is the next token, as long as what follows does not run on.
pub digits_of-scanned :
    (n : ℕ) (rest : Bytes)
    → Stops rest
    → (scan_char (skip_whitespace (digits_of n n ++ rest))
        ≡ record { type = digits; left = rest; chars = digits_of n n })
unfolding skip_whitespace is_space is_digit
digits_of-scanned n rest s =
    let (d, ds, e) = digits_of-cons n n in
    let all : Digits (d ∷ ds) = subst Digits e (digits_of-Digits n n) in
    let dark : is_space d ≡ false = ground (arith, all.0) in
    rw (e, skip_whitespace, dark)
      (scan_char-is_digit d (ds ++ rest) all.0 ∙ read_number-Digits [] (d ∷ ds) rest all s)
