-- ===== src/Prelude/Bits.antt =====
-- Laws of the bit operations at variables, from the recursion on binary digits that they stand for.
use Prim.Native.Nat.{
  ℕ, zero, suc, ◌+◌, ◌*◌, ◌/◌, ◌%◌, ◌^◌, ◌≤◌, ◌<◌, min, max, bit_and, bit_or, digits,
  bit_and-bitwise, bit_or-bitwise,
}
use mathlib.Core.Path.{◌≡◌, refl, ap}
use native.Mathlib.Nat.{pow-suc, div-div-eq-div-mul}
use native.Mathlib.Omega.{arith}

module _ (rest : ℕ → ℕ) (op : ℕ → ℕ → ℕ) where
  -- More fuel than the first number needs changes nothing.
  fuel_irrelevant :
      (a b : ℕ) (fuel more : ℕ)
      → a ≤ fuel
      → a ≤ more
      → digits rest op fuel a b ≡ digits rest op more a b
  fuel_irrelevant zero b zero zero h k = refl
  fuel_irrelevant zero b zero (suc more) h k = refl
  fuel_irrelevant zero b (suc fuel) zero h k = refl
  fuel_irrelevant zero b (suc fuel) (suc more) h k = refl
  fuel_irrelevant (suc a) b zero more h k = absurd (omega arith)
  fuel_irrelevant (suc a) b (suc fuel) zero h k = absurd (omega arith)
  fuel_irrelevant (suc a) b (suc fuel) (suc more) h k =
      ap (λ t. t * 2 + op (suc a % 2) (b % 2))
        (fuel_irrelevant (suc a / 2) (b / 2) fuel more (omega arith) (omega arith))

or_digit : (a b : ℕ) → bit_or a b ≡ bit_or (a / 2) (b / 2) * 2 + max (a % 2) (b % 2)
or_digit zero b = simp bit_or-bitwise (omega arith)
or_digit (suc a) b = simp bit_or-bitwise (
    ap (λ t. t * 2 + max (suc a % 2) (b % 2))
      (fuel_irrelevant (λ y. y) max (suc a / 2) (b / 2) a (suc a / 2) (omega arith) (omega arith)))

and_digit : (a b : ℕ) → bit_and a b ≡ bit_and (a / 2) (b / 2) * 2 + min (a % 2) (b % 2)
and_digit zero b = simp bit_and-bitwise (omega arith)
and_digit (suc a) b = simp bit_and-bitwise (
    ap (λ t. t * 2 + min (suc a % 2) (b % 2))
      (fuel_irrelevant (λ y. 0) min (suc a / 2) (b / 2) a (suc a / 2) (omega arith) (omega arith)))

and_zero_below : (n a : ℕ) → a ≤ n → bit_and a 0 ≡ 0
and_zero_below n zero h = refl
and_zero_below zero (suc a) h = absurd (omega arith)
and_zero_below (suc n) (suc a) h =
    omega (arith, and_digit (suc a) 0, and_zero_below n (suc a / 2) (omega arith))

or_zero_below : (n a : ℕ) → a ≤ n → bit_or a 0 ≡ a
or_zero_below n zero h = refl
or_zero_below zero (suc a) h = absurd (omega arith)
or_zero_below (suc n) (suc a) h =
    omega (arith, or_digit (suc a) 0, or_zero_below n (suc a / 2) (omega arith))

half_pow : (k : ℕ) → 2 ^ suc k / 2 ≡ 2 ^ k
half_pow k = omega (arith, pow-suc 2 k)

double_pow : (k : ℕ) → 2 * 2 ^ k ≡ 2 ^ suc k
double_pow k = omega (arith, pow-suc 2 k)

-- A mask of one bit reads that bit.
pub bit_and-pow : (k a : ℕ) → bit_and a (2 ^ k) ≡ a / 2 ^ k % 2 * 2 ^ k
bit_and-pow zero a = omega (arith, and_digit a 1, and_zero_below (a / 2) (a / 2) (omega arith))
bit_and-pow (suc k) a =
    rw
      (and_digit a (2 ^ suc k), half_pow k, bit_and-pow k (a / 2), div-div-eq-div-mul, double_pow k)
      (omega (arith, ap (λ t. a / 2 ^ suc k % 2 * t) (pow-suc 2 k), pow-suc 2 k))

-- A field shifted above a smaller one: `|` is `+`.
pub bit_or-fields : (k q r : ℕ) → r < 2 ^ k → bit_or (q * 2 ^ k) r ≡ q * 2 ^ k + r
bit_or-fields zero q r h =
    let empty : r ≡ 0 = omega arith in
    rw empty (omega (arith, or_zero_below (q * 1) (q * 1) (omega arith)))
bit_or-fields (suc k) q r h =
    let shifted : q * 2 ^ suc k ≡ q * 2 ^ k * 2 = omega (arith, ap (λ t. q * t) (pow-suc 2 k)) in
    let whole : q * 2 ^ suc k / 2 ≡ q * 2 ^ k = omega arith in
    rw (or_digit (q * 2 ^ suc k) r, whole, bit_or-fields k q (r / 2) (omega (arith, pow-suc 2 k)))
      (omega arith)
