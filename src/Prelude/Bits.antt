-- ===== src/Prelude/Bits.antt =====
-- `|` of C on numbers whose bits do not meet: a low part and a multiple of a power of two.
use Prim.Native.Nat.{
  ℕ, zero, suc, ◌+◌, ◌*◌, ◌/◌, ◌^◌, ◌≤◌, ◌<◌, max, min, ◌-◌, digits, bit_or, bit_or-bitwise,
  bit_and, bit_and-bitwise,
}
use mathlib.Core.Path.{◌≡◌, ap, ◌∙◌, refl, sym, subst}
use native.Mathlib.Nat.{pow-suc}
use native.Mathlib.Omega.{arith}

-- `bit_or` goes through the binary digits of `low` with fuel; here with any fuel that reaches its end.
or_fuel_above :
    (k fuel low high : ℕ)
    → low ≤ fuel
    → low < 2 ^ k
    → digits (λ y. y) max fuel low (high * 2 ^ k) ≡ low + high * 2 ^ k
or_fuel_above k zero zero high enough h = omega arith
or_fuel_above k zero (suc low) high enough h = absurd (omega arith)
or_fuel_above k (suc fuel) zero high enough h = omega arith
or_fuel_above zero (suc fuel) (suc low) high enough h = absurd (omega arith)
or_fuel_above (suc k) (suc fuel) (suc low) high enough h = ground (
  arith,
  or_fuel_above k fuel (suc low / 2) high (omega arith) (omega (arith, pow-suc 2 k)),
  doubled,
)
  where
    doubled : high * 2 ^ suc k ≡ 2 * (high * 2 ^ k)
    doubled = omega (arith, ap (λ (t : ℕ). high * t) (pow-suc 2 k))

-- `low | (high << k)` is the sum, if `low` has no more than `k` bits.
pub bit_or_above : (k low high : ℕ) → low < 2 ^ k → bit_or low (high * 2 ^ k) ≡ low + high * 2 ^ k
bit_or_above k low high h =
    bit_or-bitwise low (high * 2 ^ k) ∙ or_fuel_above k low low high (omega arith) h

-- `value & (mask << k)` is 0, if `value` has no more than `k` bits.
and_fuel_below :
    (k fuel value mask : ℕ)
    → value ≤ fuel
    → value < 2 ^ k
    → digits (λ y. zero) min fuel value (mask * 2 ^ k) ≡ 0
and_fuel_below k zero zero mask enough h = refl
and_fuel_below k zero (suc value) mask enough h = absurd (omega arith)
and_fuel_below k (suc fuel) zero mask enough h = refl
and_fuel_below zero (suc fuel) (suc value) mask enough h = absurd (omega arith)
and_fuel_below (suc k) (suc fuel) (suc value) mask enough h = ground (
  arith,
  and_fuel_below k fuel (suc value / 2) mask (omega arith) (omega (arith, pow-suc 2 k)),
  doubled,
)
  where
    doubled : mask * 2 ^ suc k ≡ 2 * (mask * 2 ^ k)
    doubled = omega (arith, ap (λ (t : ℕ). mask * t) (pow-suc 2 k))

pub bit_and_below : (k value mask : ℕ) → value < 2 ^ k → bit_and value (mask * 2 ^ k) ≡ 0
bit_and_below k value mask h =
    bit_and-bitwise value (mask * 2 ^ k) ∙ and_fuel_below k value value mask (omega arith) h

-- It is not 0 if `value` has a bit above those, and the mask is all ones as far as `value` reaches.
and_fuel_ones :
    (j fuel value : ℕ)
    → value ≤ fuel
    → 1 ≤ value
    → value < 2 ^ j
    → 1 ≤ digits (λ y. zero) min fuel value (2 ^ j - 1)
and_fuel_ones j zero value enough low h = absurd (omega arith)
and_fuel_ones j (suc fuel) zero enough low h = absurd (omega arith)
and_fuel_ones zero (suc fuel) (suc value) enough low h = absurd (omega arith)
and_fuel_ones (suc j) (suc fuel) (suc zero) enough low h = omega (arith, pow-suc 2 j)
and_fuel_ones (suc j) (suc fuel) (suc (suc value)) enough low h = omega (
  arith,
  and_fuel_ones j fuel (suc (suc value) / 2) (omega arith) (omega arith)
      (omega (arith, pow-suc 2 j)),
  ap (λ b. digits (λ y. zero) min fuel (suc (suc value) / 2) b) halved,
)
  where
    halved : (2 ^ suc j - 1) / 2 ≡ 2 ^ j - 1
    halved = omega (arith, pow-suc 2 j)

pow_two : (k : ℕ) → 2 ^ suc k ≡ 2 * 2 ^ k
pow_two k = omega (arith, pow-suc 2 k)

pub one-le_pow : (k : ℕ) → 1 ≤ 2 ^ k
one-le_pow zero = omega arith
one-le_pow (suc k) = omega (arith, pow-suc 2 k, one-le_pow k)

and_fuel_above :
    (k j fuel value : ℕ)
    → value ≤ fuel
    → 2 ^ k ≤ value
    → value < 2 ^ (k + j)
    → 1 ≤ digits (λ y. zero) min fuel value ((2 ^ j - 1) * 2 ^ k)
and_fuel_above zero j fuel value enough low h =
    subst (λ b. 1 ≤ digits (λ y. zero) min fuel value b) (omega arith)
      (and_fuel_ones j fuel value enough (omega arith) (subst (λ n. value < 2 ^ n) add_zero h))
  where
    add_zero : 0 + j ≡ j
    add_zero = omega arith
and_fuel_above (suc k) j zero value enough low h = absurd (omega (arith, pow-suc 2 k, one-le_pow k))
and_fuel_above (suc k) j (suc fuel) zero enough low h =
    absurd (omega (arith, pow-suc 2 k, one-le_pow k))
and_fuel_above (suc k) j (suc fuel) (suc value) enough low h = omega (
  arith,
  and_fuel_above k j fuel (suc value / 2) (omega arith) (omega (arith, pow-suc 2 k))
      (omega (arith, next)),
  ap (λ b. digits (λ y. zero) min fuel (suc value / 2) b) halved,
)
  where
    next : 2 ^ (suc k + j) ≡ 2 * 2 ^ (k + j)
    next = ap (λ n. 2 ^ n) carried ∙ pow_two (k + j)
      where
        carried : suc k + j ≡ suc (k + j)
        carried = omega arith

    halved : (2 ^ j - 1) * 2 ^ suc k / 2 ≡ (2 ^ j - 1) * 2 ^ k
    halved = omega (arith, ap (λ (t : ℕ). (2 ^ j - 1) * t) (pow-suc 2 k))

pub bit_and_above :
    (k j value : ℕ) → 2 ^ k ≤ value → value < 2 ^ (k + j) → 1 ≤ bit_and value ((2 ^ j - 1) * 2 ^ k)
bit_and_above k j value low h =
    subst (λ b. 1 ≤ b) (sym (bit_and-bitwise value ((2 ^ j - 1) * 2 ^ k)))
      (and_fuel_above k j value value (omega arith) low h)
