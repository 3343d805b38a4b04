-- ===== src/Word/Mult/Laws.antt =====
-- The words that `UnsMult` computes, by the halves of its operands.
use mathlib.Core.Path.{ap₂}
use uriscv.Prelude.{
  ℕ, ◌+◌, ◌*◌, ◌/◌, ◌%◌, ◌^◌, ◌≤◌, ◌<◌, bit_and, bit_or, ◌≡◌, ◌∙◌, arith, ◌↔◌, bit_and-high,
  bit_and-low, bit_or-shifted, bit_or_comm,
}
use uriscv.Word.Mult.{uns_mult}

-- The cross products of the halves and what the low product carries into them.
abbrev pub middle : ℕ → ℕ → ℕ
middle m1 m2 =
    m1 / 2 ^ 16 * (m2 % 2 ^ 16) + m1 % 2 ^ 16 * (m2 / 2 ^ 16) + m1 % 2 ^ 16 * (m2 % 2 ^ 16) / 2 ^ 16

high_half : (m : ℕ) → m < 2 ^ 32 → bit_and m 0xffff0000 / 2 ^ 16 ≡ m / 2 ^ 16
high_half m h = omega (arith, bit_and-high 16 16 m (omega arith))

halves_product : (x y : ℕ) → x < 2 ^ 16 → y < 2 ^ 16 → x * y ≤ 65535 * 65535
halves_product x y hx hy = grind arith

expand :
    (a b c d : ℕ)
    → (a * 2 ^ 16 + b) * (c * 2 ^ 16 + d)
      ≡ a * c * 2 ^ 32 + (a * d + b * c + b * d / 2 ^ 16) * 2 ^ 16 + b * d % 2 ^ 16
expand a b c d = omega arith

words_product : (x y : ℕ) → x < 2 ^ 32 → y < 2 ^ 32 → x * y ≤ 0xffffffff * 0xffffffff
words_product x y hx hy = grind arith

-- The whole product from the four partial ones.
product_of_halves :
    (m1 m2 : ℕ)
    → m1 * m2
      ≡ m1 / 2 ^ 16 * (m2 / 2 ^ 16) * 2 ^ 32
        + middle m1 m2 * 2 ^ 16
        + m1 % 2 ^ 16 * (m2 % 2 ^ 16) % 2 ^ 16
product_of_halves m1 m2 =
    let split1 : m1 ≡ m1 / 2 ^ 16 * 2 ^ 16 + m1 % 2 ^ 16 = omega arith in
    let split2 : m2 ≡ m2 / 2 ^ 16 * 2 ^ 16 + m2 % 2 ^ 16 = omega arith in
    ap₂ ◌*◌ split1 split2 ∙ expand (m1 / 2 ^ 16) (m1 % 2 ^ 16) (m2 / 2 ^ 16) (m2 % 2 ^ 16)

-- The arithmetic of the routine on the four partial products.
combine_high :
    (p q r s : ℕ)
    → p ≤ 65535 * 65535
    → (bit_and
            ((bit_and (p % 2 ^ 32 / 2 ^ 16) 0xffff + (q % 2 ^ 32 + r % 2 ^ 32) % 2 ^ 32)
              % 2 ^ 32
              / 2 ^ 16)
            0xffff
          + s % 2 ^ 32)
        % 2 ^ 32
      ≡ ((q + r + p / 2 ^ 16) % 2 ^ 32 / 2 ^ 16 + s) % 2 ^ 32
combine_high p q r s h = rw (bit_and-low 16 _, bit_and-low 16 _) (omega arith)

join_halves : (x z : ℕ) → x < 2 ^ 16 → z < 2 ^ 16 → bit_or x (z * 2 ^ 16 % 2 ^ 32) ≡ x + z * 2 ^ 16
join_halves x z hx hz =
    let fits : z * 2 ^ 16 % 2 ^ 32 ≡ z * 2 ^ 16 = omega arith in
    rw fits (bit_or_comm x (z * 2 ^ 16) ∙ bit_or-shifted 16 z x hx ∙ omega arith)

combine_low :
    (p q r : ℕ)
    → p ≤ 65535 * 65535
    → bit_or (bit_and (p % 2 ^ 32) 0xffff) (
        bit_and
          ((bit_and (p % 2 ^ 32 / 2 ^ 16) 0xffff + (q % 2 ^ 32 + r % 2 ^ 32) % 2 ^ 32) % 2 ^ 32)
          0xffff
        * 2 ^ 16
        % 2 ^ 32)
      ≡ p % 2 ^ 16 + (q + r + p / 2 ^ 16) % 2 ^ 16 * 2 ^ 16
combine_low p q r h =
    rw (bit_and-low 16 _, bit_and-low 16 _, bit_and-low 16 _)
      (join_halves _ _ (omega arith) (omega arith) ∙ omega arith)

uns_mult_halves :
    (m1 m2 : ℕ)
    → m1 < 2 ^ 32
    → m2 < 2 ^ 32
    → uns_mult m1 m2 ≡ record {
      high = (middle m1 m2 % 2 ^ 32 / 2 ^ 16 + m1 / 2 ^ 16 * (m2 / 2 ^ 16)) % 2 ^ 32;
      low = m1 % 2 ^ 16 * (m2 % 2 ^ 16) % 2 ^ 16 + middle m1 m2 % 2 ^ 16 * 2 ^ 16;
    }
unfolding uns_mult
uns_mult_halves m1 m2 h1 h2 =
    let small : m1 % 2 ^ 16 * (m2 % 2 ^ 16) ≤ 65535 * 65535 =
      halves_product (m1 % 2 ^ 16) (m2 % 2 ^ 16) (omega arith) (omega arith) in
    rw (high_half m1 h1, high_half m2 h2, bit_and-low 16 m1, bit_and-low 16 m2)
      (ap₂ (λ h l. record { high = h; low = l })
        (combine_high _ _ _ (m1 / 2 ^ 16 * (m2 / 2 ^ 16)) small) (combine_low _ _ _ small))

middle-lt : (m1 m2 : ℕ) → m1 < 2 ^ 32 → m2 < 2 ^ 32 → middle m1 m2 < 2 ^ 33
middle-lt m1 m2 h1 h2 = omega (
  arith,
  halves_product (m1 / 2 ^ 16) (m2 % 2 ^ 16) (omega arith) (omega arith),
  halves_product (m1 % 2 ^ 16) (m2 / 2 ^ 16) (omega arith) (omega arith),
  halves_product (m1 % 2 ^ 16) (m2 % 2 ^ 16) (omega arith) (omega arith),
)

-- The low word is always that of the product.
pub low-uns_mult : (m1 m2 : ℕ) → m1 < 2 ^ 32 → m2 < 2 ^ 32 → (uns_mult m1 m2).low ≡ m1 * m2 % 2 ^ 32
low-uns_mult m1 m2 h1 h2 = rw (uns_mult_halves m1 m2 h1 h2) (omega (arith, product_of_halves m1 m2))

-- The high word misses 2 ^ 16 where the middle sum leaves 32 bits.
pub high-uns_mult :
    (m1 m2 : ℕ)
    → m1 < 2 ^ 32
    → m2 < 2 ^ 32
    → ((uns_mult m1 m2).high + middle m1 m2 / 2 ^ 32 * 2 ^ 16) % 2 ^ 32 ≡ m1 * m2 / 2 ^ 32
high-uns_mult m1 m2 h1 h2 =
    rw (uns_mult_halves m1 m2 h1 h2)
      (omega (arith, product_of_halves m1 m2, words_product m1 m2 h1 h2, middle-lt m1 m2 h1 h2))

-- `UnsMult` gives the 64-bit product of two words exactly where the sum of the cross products and
-- of the carry out of the low halves fits 32 bits, and elsewhere its high word is wrong.
pub uns_mult_exact_iff :
    (m1 m2 : ℕ)
    → m1 < 2 ^ 32
    → m2 < 2 ^ 32
    → ((uns_mult m1 m2).high * 2 ^ 32 + (uns_mult m1 m2).low ≡ m1 * m2) ↔ (middle m1 m2 < 2 ^ 32)
uns_mult_exact_iff m1 m2 h1 h2 =
    let high = high-uns_mult m1 m2 h1 h2 in
    let low = low-uns_mult m1 m2 h1 h2 in
    let bounds = words_product m1 m2 h1 h2 in
    let sum = middle-lt m1 m2 h1 h2 in
    let fits : (uns_mult m1 m2).high < 2 ^ 32 = rw (uns_mult_halves m1 m2 h1 h2) (omega arith) in
    (λ e. omega arith, λ e. omega arith)
