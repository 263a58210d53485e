-- ===== src/Common/Bits.antt =====
-- Masks and disjoint fields: what `&` with a row of ones and `|` of separate bits compute to.
use Prim.Native.Nat.{
  ℕ, zero, suc, ◌+◌, ◌-◌, ◌*◌, ◌/◌, ◌%◌, ◌^◌, ◌≤◌, ◌<◌, min, max, bit_and, bit_or, digits,
  bit_and-bitwise, bit_or-bitwise,
}
use mathlib.Core.Path.{◌≡◌, refl, ◌∙◌, ap}
use native.Mathlib.Omega.{arith}
use native.Mathlib.Nat.{pow-suc}

-- Enough rounds are as good as more, for any operation on digits.
digits_fuel :
    (z : ℕ → ℕ) (f : ℕ → ℕ → ℕ) (n m a b : ℕ) → a ≤ n → a ≤ m → digits z f n a b ≡ digits z f m a b
digits_fuel z f zero zero a b p q = refl
digits_fuel z f zero (suc m) zero b p q = refl
digits_fuel z f zero (suc m) (suc a) b p q = absurd (omega arith)
digits_fuel z f (suc n) zero zero b p q = refl
digits_fuel z f (suc n) zero (suc a) b p q = absurd (omega arith)
digits_fuel z f (suc n) (suc m) zero b p q = refl
digits_fuel z f (suc n) (suc m) (suc a) b p q =
    ap (λ d. d * 2 + f (suc a % 2) (b % 2))
      (digits_fuel z f n m (suc a / 2) (b / 2) (omega arith) (omega arith))

and_step : (a b : ℕ) → bit_and a b ≡ bit_and (a / 2) (b / 2) * 2 + min (a % 2) (b % 2)
and_step zero b = omega (arith, bit_and-bitwise 0 b, bit_and-bitwise 0 (b / 2))
and_step (suc a) b = omega (
  arith,
  bit_and-bitwise (suc a) b,
  bit_and-bitwise (suc a / 2) (b / 2),
  digits_fuel (λ b. zero) min a (suc a / 2) (suc a / 2) (b / 2) (omega arith) (omega arith),
)

or_step : (a b : ℕ) → bit_or a b ≡ bit_or (a / 2) (b / 2) * 2 + max (a % 2) (b % 2)
or_step zero b = omega (arith, bit_or-bitwise 0 b, bit_or-bitwise 0 (b / 2))
or_step (suc a) b = omega (
  arith,
  bit_or-bitwise (suc a) b,
  bit_or-bitwise (suc a / 2) (b / 2),
  digits_fuel (λ b. b) max a (suc a / 2) (suc a / 2) (b / 2) (omega arith) (omega arith),
)

and_zero_fuel : (n a : ℕ) → a ≤ n → bit_and a 0 ≡ 0
and_zero_fuel n zero h = refl
and_zero_fuel zero (suc a) h = absurd (omega arith)
and_zero_fuel (suc n) (suc a) h =
    omega (arith, and_step (suc a) 0, and_zero_fuel n (suc a / 2) (omega arith))

bit_and_double :
    (p q r : ℕ)
    → r < p * 2
    → bit_and (r / 2 + q * p) (p - 1) ≡ r / 2
    → bit_and (r + q * (p * 2)) (p * 2 - 1) ≡ r
bit_and_double p q r h low =
    let half_a : (r + q * (p * 2)) / 2 ≡ r / 2 + q * p = omega arith in
    let half_m : (p * 2 - 1) / 2 ≡ p - 1 = omega arith in
    rw (and_step (r + q * (p * 2)) (p * 2 - 1), half_a, half_m, low) (omega arith)

-- `&` with k ones keeps the low k bits.
bit_and_low : (k q r : ℕ) → r < 2 ^ k → bit_and (r + q * 2 ^ k) (2 ^ k - 1) ≡ r
bit_and_low zero q r h = omega (arith, and_zero_fuel (r + q * 1) (r + q * 1) (omega arith))
bit_and_low (suc k) q r h = rw (pow-suc 2 k) (
    bit_and_double (2 ^ k) q r (omega (arith, pow-suc 2 k))
      (bit_and_low k q (r / 2) (omega (arith, pow-suc 2 k))))

bit_or_double :
    (p a g : ℕ)
    → a < p * 2
    → bit_or (a / 2) (g * p) ≡ a / 2 + g * p
    → bit_or a (g * (p * 2)) ≡ a + g * (p * 2)
bit_or_double p a g h low =
    let half_g : g * (p * 2) / 2 ≡ g * p = omega arith in
    rw (or_step a (g * (p * 2)), half_g, low) (omega arith)

-- `|` of k low bits and a number shifted past them is their sum.
pub bit_or_disjoint : (k a g : ℕ) → a < 2 ^ k → bit_or a (g * 2 ^ k) ≡ a + g * 2 ^ k
bit_or_disjoint zero zero g h = omega (arith, bit_or-bitwise 0 (g * 1))
bit_or_disjoint zero (suc a) g h = absurd (omega arith)
bit_or_disjoint (suc k) a g h = rw (pow-suc 2 k) (
    bit_or_double (2 ^ k) a g (omega (arith, pow-suc 2 k))
      (bit_or_disjoint k (a / 2) g (omega (arith, pow-suc 2 k))))

pub bit_and_fff : (a : ℕ) → bit_and a 0xfff ≡ a % 0x1000
bit_and_fff a =
    ap (λ x. bit_and x 0xfff) (omega arith) ∙ bit_and_low 12 (a / 0x1000) (a % 0x1000) (omega arith)

pub bit_and_ffff : (a : ℕ) → bit_and a 0xffff ≡ a % 0x10000
bit_and_ffff a =
    ap (λ x. bit_and x 0xffff) (omega arith)
    ∙ bit_and_low 16 (a / 0x10000) (a % 0x10000) (omega arith)
