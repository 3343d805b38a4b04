-- ===== src/Prelude/Masks.antt =====
-- Masks and shifts, as remainders, quotients and sums.
use Prim.Native.Nat.{
  ℕ, zero, suc, ◌+◌, ◌-◌, ◌*◌, ◌/◌, ◌%◌, ◌^◌, ◌≤◌, ◌<◌, bit_and, bit_or, bit_and-bitwise,
  bit_or-bitwise,
}
use mathlib.Core.Path.{◌≡◌, sym, ap, ◌∙◌}
use mathlib.Core.Logic.{inl, inr}
use native.Mathlib.Nat.{pow-suc, one-le-pow, mod-eq_of_lt}
use native.Mathlib.Omega.{arith}
use uriscv.Prelude.Tests.{ltb, ltb→lt, if◌then◌else◌, Bool-cases}
use uriscv.Prelude.Bits.{
  bit, bit-zero, bit_and_halves, bit_or_halves, bit-and, bit_above, bit-le, bit-complement,
  bit_and-le, bit_and-zero, bit_and_comm, bit_or-zero, times_two_pow,
}

low_of_sum : (k q r : ℕ) → r < 2 ^ k → bit_and (q * 2 ^ k + r) (2 ^ k - 1) ≡ r
low_of_sum zero q zero h = bit_and-zero _
low_of_sum zero q (suc r) h = absurd (omega arith)
low_of_sum (suc k) q r h =
    let upper : (q * 2 ^ suc k + r) / 2 ≡ q * 2 ^ k + r / 2 = omega (arith, times_two_pow q k) in
    let mask : (2 ^ suc k - 1) / 2 ≡ 2 ^ k - 1 = omega (arith, pow-suc 2 k) in
    let low : (2 ^ suc k - 1) % 2 ≡ 1 = omega (arith, pow-suc 2 k, one-le-pow k 2 (omega arith)) in
    let rest = low_of_sum k q (r / 2) (omega (arith, pow-suc 2 k)) in
    bit_and_halves (q * 2 ^ suc k + r) (2 ^ suc k - 1)
    ∙ rw (upper, mask, rest, low) (omega (arith, times_two_pow q k))

bit_or_comm_fuel : (n a b : ℕ) → a ≤ n → bit_or a b ≡ bit_or b a
bit_or_comm_fuel n zero b h = bit_or-bitwise 0 b ∙ sym (bit_or-zero b)
bit_or_comm_fuel zero (suc a) b h = absurd (omega arith)
bit_or_comm_fuel (suc n) (suc a) b h = omega (
  arith,
  bit_or_halves (suc a) b,
  bit_or_halves b (suc a),
  bit_or_comm_fuel n (suc a / 2) (b / 2) (omega arith),
)

pub bit_or_comm : (a b : ℕ) → bit_or a b ≡ bit_or b a
bit_or_comm a b = bit_or_comm_fuel a a b (omega arith)

-- A mask of the k lowest digits takes the remainder.
pub bit_and-low : (k a : ℕ) → bit_and a (2 ^ k - 1) ≡ a % 2 ^ k
bit_and-low k a = ground (arith, one-le-pow k 2, low_of_sum k (a / 2 ^ k) (a % 2 ^ k))

high_of_sum :
    (k n q r : ℕ) → r < 2 ^ k → bit_and (q * 2 ^ k + r) ((2 ^ n - 1) * 2 ^ k) ≡ q % 2 ^ n * 2 ^ k
high_of_sum zero n q zero hr =
    let left : q * 2 ^ 0 + 0 ≡ q = omega arith in
    let mask : (2 ^ n - 1) * 2 ^ 0 ≡ 2 ^ n - 1 = omega arith in
    rw (left, mask) (bit_and-low n q ∙ omega arith)
high_of_sum zero n q (suc r) hr = absurd (omega arith)
high_of_sum (suc k) n q r hr =
    let upper : (q * 2 ^ suc k + r) / 2 ≡ q * 2 ^ k + r / 2 = omega (arith, times_two_pow q k) in
    let mask : (2 ^ n - 1) * 2 ^ suc k / 2 ≡ (2 ^ n - 1) * 2 ^ k =
      omega (arith, times_two_pow (2 ^ n - 1) k) in
    let low : (2 ^ n - 1) * 2 ^ suc k % 2 ≡ 0 = omega (arith, times_two_pow (2 ^ n - 1) k) in
    let rest = high_of_sum k n q (r / 2) (omega (arith, pow-suc 2 k)) in
    bit_and_halves (q * 2 ^ suc k + r) ((2 ^ n - 1) * 2 ^ suc k)
    ∙ rw (upper, mask, rest, low) (omega (arith, times_two_pow (q % 2 ^ n) k))

-- A mask of n digits above the k lowest takes that field.
pub bit_and-field : (k n a : ℕ) → bit_and a ((2 ^ n - 1) * 2 ^ k) ≡ a / 2 ^ k % 2 ^ n * 2 ^ k
bit_and-field k n a = ground (arith, one-le-pow k 2, high_of_sum k n (a / 2 ^ k) (a % 2 ^ k))

pub bit_and-high :
    (k n a : ℕ) → a / 2 ^ k < 2 ^ n → bit_and a ((2 ^ n - 1) * 2 ^ k) ≡ a / 2 ^ k * 2 ^ k
bit_and-high k n a h = bit_and-field k n a ∙ ap (λ t. t * 2 ^ k) (mod-eq_of_lt h)

-- A shift to the left moves the digits up.
pub bit-shifted : (j k m : ℕ) → bit (m * 2 ^ j) k ≡ (if ltb k j then 0 else bit m (k - j))
bit-shifted zero k m = let same : m * 2 ^ 0 ≡ m = omega arith in rw same (ground arith)
bit-shifted (suc j) zero m = ground (arith, times_two_pow m j)
bit-shifted (suc j) (suc k) m =
    let halved : m * 2 ^ suc j / 2 ≡ m * 2 ^ j = omega (arith, times_two_pow m j) in
    rw halved (ground (arith, bit-shifted j k m))

-- Numbers with no digit in common.
pub bit_and-below : (k x m : ℕ) → x < 2 ^ k → bit_and x (m * 2 ^ k) ≡ 0
bit_and-below zero zero m h = bit_and-bitwise 0 _
bit_and-below zero (suc x) m h = absurd (omega arith)
bit_and-below (suc k) x m h =
    let halved : m * 2 ^ suc k / 2 ≡ m * 2 ^ k = omega (arith, times_two_pow m k) in
    let rest = bit_and-below k (x / 2) m (omega (arith, pow-suc 2 k)) in
    bit_and_halves x (m * 2 ^ suc k) ∙ rw (halved, rest) (omega (arith, times_two_pow m k))

pub bit_and-le_right : (a b : ℕ) → bit_and a b ≤ b
bit_and-le_right a b = rw (bit_and_comm a b) (bit_and-le b a)

-- A mask of the n lowest digits.
pub bit-mask : (n k : ℕ) → bit (2 ^ n - 1) k ≡ (if ltb k n then 1 else 0)
bit-mask n k = elim (Bool-cases (ltb k n)) [
  | inl inside ↦ rw inside (
      ground (
        arith,
        bit-complement n k 0 (ltb→lt k n inside) (one-le-pow n 2 (omega arith)),
        bit-zero k,
      ))
  | inr outside ↦
      rw outside
        (bit_above n k (2 ^ n - 1) (omega (arith, one-le-pow n 2 (omega arith))) (ground arith))
]

-- A remainder keeps the low digits.
pub bit-low : (n k a : ℕ) → bit (a % 2 ^ n) k ≡ (if ltb k n then bit a k else 0)
bit-low n k a =
    ap (λ t. bit t k) (sym (bit_and-low n a))
    ∙ ground (arith, bit-and k a (2 ^ n - 1), bit-mask n k, bit-le k a)
