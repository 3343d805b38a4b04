-- ===== src/Processor/Alu/Division.antt =====
-- The signed division and remainder, FUNC3 5 and 6.
use uriscv.Prelude.{
  ℕ, ◌+◌, ◌-◌, ◌*◌, ◌/◌, ◌%◌, ◌^◌, ◌≤◌, ◌<◌, ◌≡◌, ◌≢◌, refl, sym, ◌∙◌, ap, Bool, true, false, ltb,
  if◌then◌else◌, arith, Bool-cases, inl, inr, sub32, u32, max_word,
}
use native.Mathlib.Nat.{div-add-mod, div-add-mod', div-le_self, mod-lt, add-mul, mul-add, mul_assoc}
use uriscv.Processor.Alu.{value, magnitude, negative, sdiv32, srem32, divide, alu}

-- Products of numbers that make 2 ^ 32 together.
sum_left : (n q y : ℕ) → n + q ≡ 2 ^ 32 → n * y + q * y ≡ 2 ^ 32 * y
sum_left n q y h = sym (add-mul n q y) ∙ ap (λ t. t * y) h

sum_right : (q y y' : ℕ) → y + y' ≡ 2 ^ 32 → q * y + q * y' ≡ q * 2 ^ 32
sum_right q y y' h = sym (mul-add q y y') ∙ ap (λ t. q * t) h

-- A factor taken modulo 2 ^ 32 changes nothing modulo 2 ^ 32.
wrapped_factor : (n y r : ℕ) → u32 (n % 2 ^ 32 * y + r) ≡ u32 (n * y + r)
wrapped_factor n y r =
    let split : n * y ≡ 2 ^ 32 * (n / 2 ^ 32 * y) + n % 2 ^ 32 * y =
      ap (λ t. t * y) (sym (div-add-mod n (2 ^ 32)))
      ∙ add-mul (2 ^ 32 * (n / 2 ^ 32)) (n % 2 ^ 32) y
      ∙ ap (λ t. t + n % 2 ^ 32 * y) (mul_assoc (2 ^ 32) (n / 2 ^ 32) y) in
    omega (arith, split)

-- The four combinations of signs, for magnitudes x' = q y' + r.
module _ (q r y' : ℕ) where
  pos_neg :
      (x y : ℕ)
      → y + y' ≡ 2 ^ 32
      → q * y' + r ≡ x
      → x < 2 ^ 32
      → q < 2 ^ 32
      → u32 (sub32 0 q * y + r) ≡ x
  pos_neg x y hy hx bx bq =
      let n = 2 ^ 32 - q in
      wrapped_factor (0 + n) y r
      ∙ omega (arith, sum_left (0 + n) q y (omega arith), sum_right q y y' hy)

  neg_pos :
      (x x' : ℕ)
      → x + x' ≡ 2 ^ 32
      → q * y' + r ≡ x'
      → 0 < x'
      → q < 2 ^ 32
      → r < 2 ^ 32
      → u32 (sub32 0 q * y' + sub32 0 r) ≡ x
  neg_pos x x' h hx bx bq br =
      let n = 2 ^ 32 - q in
      wrapped_factor (0 + n) y' (sub32 0 r) ∙ omega (arith, sum_left (0 + n) q y' (omega arith))

  neg_neg :
      (x x' y : ℕ)
      → x + x' ≡ 2 ^ 32
      → y + y' ≡ 2 ^ 32
      → q * y' + r ≡ x'
      → 0 < x'
      → r < 2 ^ 32
      → u32 (q * y + sub32 0 r) ≡ x
  neg_neg x x' y h hy hx bx br = omega (arith, sum_right q y y' hy)

-- The quotient and the remainder of two signed words, over the words themselves.
pub record Quotient (x y q r : ℕ) : Type 0 where
  pub rebuilt : u32 (q * y + r) ≡ x
  pub smaller : magnitude r < magnitude y
  pub sign : r ≢ 0 → negative r ≡ negative x

-- A magnitude with a sign put on it.
signed : Bool → ℕ → ℕ
signed b r = if b then sub32 0 r else r

magnitude-signed : (b : Bool) (r : ℕ) → r < 2 ^ 31 → magnitude (signed b r) ≡ r
unfolding magnitude signed
magnitude-signed true r h = ground arith
magnitude-signed false r h = ground arith

negative-signed : (b : Bool) (r : ℕ) → r < 2 ^ 31 → signed b r ≢ 0 → negative (signed b r) ≡ b
unfolding negative signed
negative-signed true r h n = ground arith
negative-signed false r h n = ground arith

magnitude-bounds : (y : ℕ) → 0 < y → y < 2 ^ 32 → (0 < magnitude y) × (magnitude y ≤ 2 ^ 31)
unfolding magnitude
magnitude-bounds y h hy = (ground arith, ground arith)

module _ (x y : ℕ) (hx : x < 2 ^ 32) (hy : y < 2 ^ 32) (nonzero : 0 < y) where
  rest-lt : magnitude x % magnitude y < magnitude y
  rest-lt = mod-lt (magnitude x) (magnitude-bounds y nonzero hy).0

  rest_small : magnitude x % magnitude y < 2 ^ 31
  rest_small = omega (arith, rest-lt, magnitude-bounds y nonzero hy)

  srem32-signed : srem32 x y ≡ signed (negative x) (magnitude x % magnitude y)
  unfolding srem32 signed
  srem32-signed = refl

  smaller_lem : magnitude (srem32 x y) < magnitude y
  smaller_lem = rw (srem32-signed, magnitude-signed (negative x) _ rest_small) rest-lt

  sign_lem : srem32 x y ≢ 0 → negative (srem32 x y) ≡ negative x
  sign_lem = rw srem32-signed (negative-signed (negative x) _ rest_small)

  rebuilt_lem : u32 (sdiv32 x y * y + srem32 x y) ≡ x
  unfolding sdiv32 srem32 magnitude negative
  rebuilt_lem = elim (Bool-cases (ltb x (2 ^ 31))) [
    | inl px ↦ elim (Bool-cases (ltb y (2 ^ 31))) [
      | inl py ↦ rw (px, py) (ap u32 (div-add-mod' x y) ∙ omega arith)
      | inr ny ↦
          rw (px, ny)
            (let y' = 2 ^ 32 - y in
              pos_neg (x / y') (x % y') y' x y (ground arith) (div-add-mod' x y') hx
                (omega (arith, div-le_self x y')))
    ]
    | inr nx ↦ elim (Bool-cases (ltb y (2 ^ 31))) [
      | inl py ↦
          rw (nx, py)
            (let x' = 2 ^ 32 - x in
              neg_pos (x' / y) (x' % y) y x x' (ground arith) (div-add-mod' x' y) (omega arith)
                (ground (arith, div-le_self x' y)) (ground (arith, mod-lt x' nonzero)))
      | inr ny ↦
          rw (nx, ny)
            (let x' = 2 ^ 32 - x in
              let y' = 2 ^ 32 - y in
              neg_neg (x' / y') (x' % y') y' x x' y (ground arith) (ground arith)
                (div-add-mod' x' y') (omega arith) (ground (arith, mod-lt x' {m = y'})))
    ]
  ]

-- Signed division, on FUNC3 5 and 6: for a divisor that is not 0, and but for -2 ^ 31 by -1, the two
-- results rebuild the dividend, the remainder is smaller than the divisor and has the sign
-- of the dividend.
pub signed_division_lem :
    (x y : ℕ)
    → x < 2 ^ 32
    → y < 2 ^ 32
    → 0 < y
    → (x ≡ 2 ^ 31 → y ≢ max_word)
    → (q r : ℕ) × (alu 5 1 x y ≡ value q) × (alu 6 1 x y ≡ value r) × Quotient x y q r
unfolding alu divide
signed_division_lem x y hx hy nonzero safe = (
  sdiv32 x y,
  srem32 x y,
  ground arith,
  ground arith,
  record {
    rebuilt = rebuilt_lem x y hx hy nonzero;
    smaller = smaller_lem x y hx hy nonzero;
    sign = sign_lem x y hx hy nonzero;
  },
)
