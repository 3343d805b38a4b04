-- ===== src/Prelude/Bits.antt =====
-- The digits of a number, and what `|`, `&`, `^`, `~` and shifts do to each digit.
use Prim.Native.Nat.{
  ℕ, zero, suc, ◌+◌, ◌-◌, ◌*◌, ◌/◌, ◌%◌, ◌^◌, ◌≤◌, ◌<◌, min, max, differ, digits, bitwise, bit_and,
  bit_or, bit_xor, bit_and-bitwise, bit_or-bitwise, bit_xor-bitwise,
}
use mathlib.Core.Path.{◌≡◌, refl, sym, ap, ◌∙◌}
use native.Mathlib.Nat.{pow-suc, pow-succ', div-div-eq-div-mul}
use native.Mathlib.Omega.{arith}
use uriscv.Prelude.Tests.{◌==◌, if◌then◌else◌}

-- Bit `k` of `a`, as 0 or 1.
abbrev pub bit : ℕ → ℕ → ℕ
bit a zero = a % 2
bit a (suc k) = bit (a / 2) k

pub bit-zero : (k : ℕ) → bit 0 k ≡ 0
bit-zero zero = refl
bit-zero (suc k) = bit-zero k

-- The recursion that the native operations stand for takes fuel; enough is enough.
module _ (z : ℕ → ℕ) (f : ℕ → ℕ → ℕ) where
  enough_fuel : (n k a b : ℕ) → a ≤ n → a ≤ k → digits z f n a b ≡ digits z f k a b
  enough_fuel zero zero zero b p q = refl
  enough_fuel zero (suc k) zero b p q = refl
  enough_fuel (suc n) zero zero b p q = refl
  enough_fuel (suc n) (suc k) zero b p q = refl
  enough_fuel zero k (suc a) b p q = absurd (omega arith)
  enough_fuel (suc n) zero (suc a) b p q = absurd (omega arith)
  enough_fuel (suc n) (suc k) (suc a) b p q =
      rw (enough_fuel n k (suc a / 2) (b / 2) (omega arith) (omega arith))

  lowest_digit :
      (a b : ℕ)
      → bitwise z f (suc a) b ≡ bitwise z f (suc a / 2) (b / 2) * 2 + f (suc a % 2) (b % 2)
  lowest_digit a b =
      omega (arith, enough_fuel a (suc a / 2) (suc a / 2) (b / 2) (omega arith) (omega arith))

pub bit_and_halves : (x y : ℕ) → bit_and x y ≡ bit_and (x / 2) (y / 2) * 2 + min (x % 2) (y % 2)
bit_and_halves zero y = simp bit_and-bitwise (omega arith)
bit_and_halves (suc x) y = simp bit_and-bitwise (lowest_digit (λ t. 0) min x y)

pub bit_or_halves : (x y : ℕ) → bit_or x y ≡ bit_or (x / 2) (y / 2) * 2 + max (x % 2) (y % 2)
bit_or_halves zero y = simp bit_or-bitwise (omega arith)
bit_or_halves (suc x) y = simp bit_or-bitwise (lowest_digit (λ t. t) max x y)

pub bit_xor_halves : (x y : ℕ) → bit_xor x y ≡ bit_xor (x / 2) (y / 2) * 2 + differ (x % 2) (y % 2)
bit_xor_halves zero y = simp bit_xor-bitwise (omega arith)
bit_xor_halves (suc x) y = simp bit_xor-bitwise (lowest_digit (λ t. t) differ x y)

pub differ-le : (x y : ℕ) → x ≤ 1 → y ≤ 1 → differ x y ≤ 1
differ-le zero y hx hy = hy
differ-le (suc zero) zero hx hy = omega arith
differ-le (suc zero) (suc zero) hx hy = omega arith
differ-le (suc zero) (suc (suc y)) hx hy = absurd (omega arith)
differ-le (suc (suc x)) y hx hy = absurd (omega arith)

-- `^` with ones complements.
pub differ-one : (x : ℕ) → x ≤ 1 → differ 1 x ≡ 1 - x
differ-one zero h = refl
differ-one (suc zero) h = refl
differ-one (suc (suc x)) h = absurd (omega arith)

-- Each digit of the result is a function of the same digits of the operands.
pub bit-and : (k a b : ℕ) → bit (bit_and a b) k ≡ min (bit a k) (bit b k)
bit-and zero a b = omega (arith, bit_and_halves a b)
bit-and (suc k) a b =
    let halved : bit_and a b / 2 ≡ bit_and (a / 2) (b / 2) = omega (arith, bit_and_halves a b) in
    rw halved (bit-and k (a / 2) (b / 2))

pub bit-or : (k a b : ℕ) → bit (bit_or a b) k ≡ max (bit a k) (bit b k)
bit-or zero a b = omega (arith, bit_or_halves a b)
bit-or (suc k) a b =
    let halved : bit_or a b / 2 ≡ bit_or (a / 2) (b / 2) = omega (arith, bit_or_halves a b) in
    rw halved (bit-or k (a / 2) (b / 2))

pub bit-xor : (k a b : ℕ) → bit (bit_xor a b) k ≡ differ (bit a k) (bit b k)
bit-xor zero a b = omega (arith, bit_xor_halves a b, differ-le (a % 2) (b % 2))
bit-xor (suc k) a b =
    let halved : bit_xor a b / 2 ≡ bit_xor (a / 2) (b / 2) =
      omega (arith, bit_xor_halves a b, differ-le (a % 2) (b % 2)) in
    rw halved (bit-xor k (a / 2) (b / 2))

pub bit_above : (n k a : ℕ) → a < 2 ^ n → n ≤ k → bit a k ≡ 0
bit_above zero k zero h hk = bit-zero k
bit_above zero k (suc a) h hk = absurd (omega arith)
bit_above (suc n) zero a h hk = absurd (omega arith)
bit_above (suc n) (suc k) a h hk = bit_above n k (a / 2) (omega (arith, pow-suc 2 n)) (omega arith)

pub bit-le : (k a : ℕ) → bit a k ≤ 1
bit-le zero a = omega arith
bit-le (suc k) a = bit-le k (a / 2)

-- Numbers below 2 ^ n are equal when their lowest n digits are.
pub bit_ext : (n a b : ℕ) → a < 2 ^ n → b < 2 ^ n → ((k : ℕ) → k < n → bit a k ≡ bit b k) → a ≡ b
bit_ext zero a b ha hb h = omega arith
bit_ext (suc n) a b ha hb h = omega (
  arith,
  h 0 (omega arith),
  bit_ext n (a / 2) (b / 2) (omega (arith, pow-suc 2 n)) (omega (arith, pow-suc 2 n))
      (λ k hk. h (suc k) (omega arith)),
)

pub bit-one : (k : ℕ) → bit 1 k ≡ (if k == 0 then 1 else 0)
bit-one zero = refl
bit-one (suc k) = ground (arith, bit-zero k)

pub two_pow_half : (k : ℕ) → 2 ^ suc k / 2 ≡ 2 ^ k
two_pow_half k = omega (arith, pow-suc 2 k)

-- A power of two has one digit.
pub bit-two_pow : (j k : ℕ) → bit (2 ^ j) k ≡ (if k == j then 1 else 0)
bit-two_pow zero k = bit-one k
bit-two_pow (suc j) zero = ground (arith, pow-suc 2 j)
bit-two_pow (suc j) (suc k) = rw (two_pow_half j) (ground (arith, bit-two_pow j k))

-- `2 ^ n - 1 - a` complements the lowest n digits.
pub bit-complement : (n k a : ℕ) → k < n → a < 2 ^ n → bit (2 ^ n - 1 - a) k ≡ 1 - bit a k
bit-complement zero k a hk ha = absurd (omega arith)
bit-complement (suc n) zero a hk ha = omega (arith, pow-suc 2 n)
bit-complement (suc n) (suc k) a hk ha =
    let halved : (2 ^ suc n - 1 - a) / 2 ≡ 2 ^ n - 1 - a / 2 = omega (arith, pow-suc 2 n) in
    rw halved (bit-complement n k (a / 2) (omega arith) (omega (arith, pow-suc 2 n)))

-- Digit `k` by division, as `w >> k` gives it.
pub bit-div : (k a : ℕ) → a / 2 ^ k % 2 ≡ bit a k
bit-div zero a = omega arith
bit-div (suc k) a = rw (pow-succ' 2 k, ← div-div-eq-div-mul a 2 (2 ^ k)) (bit-div k (a / 2))

-- A shift to the right moves the digits down.
pub bit-over : (n k a : ℕ) → bit (a / 2 ^ n) k ≡ bit a (n + k)
bit-over zero k a = ground arith
bit-over (suc n) k a =
    let next : suc n + k ≡ suc (n + k) = omega arith in
    rw (pow-succ' 2 n, ← div-div-eq-div-mul a 2 (2 ^ n))
      (ground (arith, bit-over n k (a / 2), next))

bit_and-le_fuel : (n a b : ℕ) → a ≤ n → bit_and a b ≤ a
bit_and-le_fuel n zero b h = simp bit_and-bitwise (omega arith)
bit_and-le_fuel zero (suc a) b h = absurd (omega arith)
bit_and-le_fuel (suc n) (suc a) b h =
    omega (arith, bit_and_halves (suc a) b, bit_and-le_fuel n (suc a / 2) (b / 2) (omega arith))

pub bit_and-le : (a b : ℕ) → bit_and a b ≤ a
bit_and-le a b = bit_and-le_fuel a a b (omega arith)

pub bit_or-lt : (n a b : ℕ) → a < 2 ^ n → b < 2 ^ n → bit_or a b < 2 ^ n
bit_or-lt zero zero zero ha hb = omega arith
bit_or-lt zero zero (suc b) ha hb = absurd (omega arith)
bit_or-lt zero (suc a) b ha hb = absurd (omega arith)
bit_or-lt (suc n) a b ha hb = omega (
  arith,
  bit_or_halves a b,
  pow-suc 2 n,
  bit_or-lt n (a / 2) (b / 2) (omega (arith, pow-suc 2 n)) (omega (arith, pow-suc 2 n)),
)

cleared : (fuel w : ℕ) → w ≤ fuel → bit_and w 0 ≡ 0
cleared fuel zero h = refl
cleared zero (suc w) h = absurd (omega arith)
cleared (suc fuel) (suc w) h =
    omega (arith, bit_and_halves (suc w) 0, cleared fuel (suc w / 2) (omega arith))

pub bit_and-zero : (w : ℕ) → bit_and w 0 ≡ 0
bit_and-zero w = cleared w w (omega arith)

bit_and_comm_fuel : (n a b : ℕ) → a ≤ n → bit_and a b ≡ bit_and b a
bit_and_comm_fuel n zero b h = bit_and-bitwise 0 b ∙ sym (bit_and-zero b)
bit_and_comm_fuel zero (suc a) b h = absurd (omega arith)
bit_and_comm_fuel (suc n) (suc a) b h = omega (
  arith,
  bit_and_halves (suc a) b,
  bit_and_halves b (suc a),
  bit_and_comm_fuel n (suc a / 2) (b / 2) (omega arith),
)

pub bit_and_comm : (a b : ℕ) → bit_and a b ≡ bit_and b a
bit_and_comm a b = bit_and_comm_fuel a a b (omega arith)

bit_or-zero_fuel : (n a : ℕ) → a ≤ n → bit_or a 0 ≡ a
bit_or-zero_fuel n zero h = refl
bit_or-zero_fuel zero (suc a) h = absurd (omega arith)
bit_or-zero_fuel (suc n) (suc a) h =
    omega (arith, bit_or_halves (suc a) 0, bit_or-zero_fuel n (suc a / 2) (omega arith))

pub bit_or-zero : (a : ℕ) → bit_or a 0 ≡ a
bit_or-zero a = bit_or-zero_fuel a a (omega arith)

pub times_two_pow : (q k : ℕ) → q * 2 ^ suc k ≡ 2 * (q * 2 ^ k)
times_two_pow q k = omega (arith, ap (λ (t : ℕ). q * t) (pow-suc 2 k))

-- `(q << k) | r` adds, where `r` has k digits.
pub bit_or-shifted : (k q r : ℕ) → r < 2 ^ k → bit_or (q * 2 ^ k) r ≡ q * 2 ^ k + r
bit_or-shifted zero q zero h = ground (arith, bit_or-zero q)
bit_or-shifted zero q (suc r) h = absurd (omega arith)
bit_or-shifted (suc k) q r h =
    let upper : q * 2 ^ suc k / 2 ≡ q * 2 ^ k = omega (arith, times_two_pow q k) in
    let rest = bit_or-shifted k q (r / 2) (omega (arith, pow-suc 2 k)) in
    bit_or_halves (q * 2 ^ suc k) r ∙ rw (upper, rest) (omega (arith, times_two_pow q k))
