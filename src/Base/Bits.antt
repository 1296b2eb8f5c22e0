-- ===== src/Base/Bits.antt =====
-- `&` with a mask of low bits and `|` of disjoint fields, as arithmetic.
use Prim.Native.Nat.{
  ℕ, zero, suc, ◌+◌, ◌-◌, ◌*◌, ◌/◌, ◌%◌, ◌^◌, ◌≤◌, ◌<◌, min, max, bit_and, bit_or, digits,
  bit_and-bitwise, bit_or-bitwise, bit_xor, bit_xor-bitwise, differ,
}
use mathlib.Core.Path.{◌≡◌, refl, ap}
use native.Mathlib.Nat.{pow-suc, one-le-pow}
use native.Mathlib.Omega.{arith}

-- The count of digits only has to be large enough.
module _ (z : ℕ → ℕ) (f : ℕ → ℕ → ℕ) where
  digits_enough : (n m a b : ℕ) → a ≤ n → a ≤ m → digits z f n a b ≡ digits z f m a b
  digits_enough zero zero a b p q = refl
  digits_enough zero (suc m) zero b p q = refl
  digits_enough zero (suc m) (suc a) b p q = absurd (omega arith)
  digits_enough (suc n) zero zero b p q = refl
  digits_enough (suc n) zero (suc a) b p q = absurd (omega arith)
  digits_enough (suc n) (suc m) zero b p q = refl
  digits_enough (suc n) (suc m) (suc a) b p q =
      omega (arith, digits_enough n m (suc a / 2) (b / 2) (omega arith) (omega arith))

  digits_halve :
      (a b : ℕ)
      → 0 < a
      → digits z f a a b ≡ digits z f (a / 2) (a / 2) (b / 2) * 2 + f (a % 2) (b % 2)
  digits_halve zero b h = absurd (omega arith)
  digits_halve (suc a) b h =
      omega (arith, digits_enough a (suc a / 2) (suc a / 2) (b / 2) (omega arith) (omega arith))

or_halve : (a b : ℕ) → bit_or a b ≡ bit_or (a / 2) (b / 2) * 2 + max (a % 2) (b % 2)
or_halve zero b = omega (arith, bit_or-bitwise 0 b, bit_or-bitwise 0 (b / 2))
or_halve (suc a) b = omega (
  arith,
  bit_or-bitwise (suc a) b,
  bit_or-bitwise (suc a / 2) (b / 2),
  digits_halve (λ x. x) max (suc a) b (omega arith),
)

and_halve : (a b : ℕ) → bit_and a b ≡ bit_and (a / 2) (b / 2) * 2 + min (a % 2) (b % 2)
and_halve zero b = omega (arith, bit_and-bitwise 0 b, bit_and-bitwise 0 (b / 2))
and_halve (suc a) b = omega (
  arith,
  bit_and-bitwise (suc a) b,
  bit_and-bitwise (suc a / 2) (b / 2),
  digits_halve (λ x. zero) min (suc a) b (omega arith),
)

-- `r | q << k` where `r` has at most `k` bits.
pub bit_or_low_high : (k r q : ℕ) → r < 2 ^ k → bit_or r (q * 2 ^ k) ≡ r + q * 2 ^ k
bit_or_low_high zero zero q h = omega (arith, bit_or-bitwise 0 (q * 2 ^ 0))
bit_or_low_high zero (suc r) q h = absurd (omega arith)
bit_or_low_high (suc k) r q h = omega (
  arith,
  or_halve r (q * 2 ^ suc k),
  ap (λ (t : ℕ). q * t) (pow-suc 2 k),
  pow-suc 2 k,
  ap (λ (t : ℕ). bit_or (r / 2) t) half,
  bit_or_low_high k (r / 2) q (omega (arith, pow-suc 2 k)),
)
  where
    half : q * 2 ^ suc k / 2 ≡ q * 2 ^ k
    half = omega (arith, ap (λ (t : ℕ). q * t) (pow-suc 2 k))

bit_and-zero_fuel : (n a : ℕ) → a ≤ n → bit_and a 0 ≡ 0
bit_and-zero_fuel n zero h = omega (arith, bit_and-bitwise 0 0)
bit_and-zero_fuel zero (suc a) h = absurd (omega arith)
bit_and-zero_fuel (suc n) (suc a) h =
    omega (arith, and_halve (suc a) 0, bit_and-zero_fuel n (suc a / 2) (omega arith))

mod_halve : (m a : ℕ) → 0 < m → a % (2 * m) ≡ (a / 2 % m) * 2 + a % 2
mod_halve m a h = grind arith

-- `a & (2^k - 1)`.
pub bit_and_low : (k a : ℕ) → bit_and a (2 ^ k - 1) ≡ a % 2 ^ k
bit_and_low zero a = omega (arith, bit_and-zero_fuel a a (omega arith))
bit_and_low (suc k) a = omega (
  arith,
  and_halve a (2 ^ suc k - 1),
  pow-suc 2 k,
  one-le-pow k 2,
  ap (λ (t : ℕ). bit_and (a / 2) t) half,
  bit_and_low k (a / 2),
  mod_halve (2 ^ k) a (one-le-pow k 2 (omega arith)),
  ap (λ (t : ℕ). a % t) double,
)
  where
    half : (2 ^ suc k - 1) / 2 ≡ 2 ^ k - 1
    half = omega (arith, pow-suc 2 k)

    double : 2 ^ suc k ≡ 2 * 2 ^ k
    double = omega (arith, pow-suc 2 k)

xor_halve : (a b : ℕ) → bit_xor a b ≡ bit_xor (a / 2) (b / 2) * 2 + differ (a % 2) (b % 2)
xor_halve zero b = omega (arith, bit_xor-bitwise 0 b, bit_xor-bitwise 0 (b / 2))
xor_halve (suc a) b = omega (
  arith,
  bit_xor-bitwise (suc a) b,
  bit_xor-bitwise (suc a / 2) (b / 2),
  digits_halve (λ x. x) differ (suc a) b (omega arith),
)

differ_twice : (x y : ℕ) → x < 2 → y < 2 → (differ x y < 2) × (differ (differ x y) y ≡ x)
differ_twice zero zero h k = (omega arith, refl)
differ_twice zero (suc zero) h k = (omega arith, refl)
differ_twice (suc zero) zero h k = (omega arith, refl)
differ_twice (suc zero) (suc zero) h k = (omega arith, refl)
differ_twice (suc (suc x)) y h k = absurd (omega arith)
differ_twice zero (suc (suc y)) h k = absurd (omega arith)
differ_twice (suc zero) (suc (suc y)) h k = absurd (omega arith)

bit_xor_twice_fuel : (n a b : ℕ) → a ≤ n → b ≤ n → bit_xor (bit_xor a b) b ≡ a
bit_xor_twice_fuel zero zero zero h k = refl
bit_xor_twice_fuel zero zero (suc b) h k = absurd (omega arith)
bit_xor_twice_fuel zero (suc a) b h k = absurd (omega arith)
bit_xor_twice_fuel (suc n) a b h k =
    let bits = differ_twice (a % 2) (b % 2) (omega arith) (omega arith) in
    let high : bit_xor a b / 2 ≡ bit_xor (a / 2) (b / 2) = omega (arith, xor_halve a b, bits.0) in
    let low : bit_xor a b % 2 ≡ differ (a % 2) (b % 2) = omega (arith, xor_halve a b, bits.0) in
    omega (
      arith,
      xor_halve (bit_xor a b) b,
      ap (λ (t : ℕ). bit_xor t (b / 2)) high,
      ap (λ (t : ℕ). differ t (b % 2)) low,
      bits.1,
      bit_xor_twice_fuel n (a / 2) (b / 2) (omega arith) (omega arith),
    )

-- `^` by the same number twice changes nothing.
pub bit_xor_twice : (a b : ℕ) → bit_xor (bit_xor a b) b ≡ a
bit_xor_twice a b = bit_xor_twice_fuel (a + b) a b (omega arith) (omega arith)
