-- ===== src/Prelude/Bits.antt =====
-- `|` of disjoint bit fields and `&` with a mask of low bits, as arithmetic.
use Prim.Native.Nat.{
  ℕ, zero, suc, ◌+◌, ◌-◌, ◌*◌, ◌/◌, ◌%◌, ◌^◌, ◌≤◌, ◌<◌, min, max, bit_and, bit_or, digits,
  bit_and-bitwise, bit_or-bitwise,
}
use mathlib.Core.Path.{◌≡◌, refl, ap}
use native.Mathlib.Nat.{pow-suc, one-le-pow, le_refl, div-add-mod, div-div-eq-div-mul, mul_comm}
use native.Mathlib.Omega.{arith}

-- The fuel of the digit recursion does not matter once it reaches the first operand.
enough_digits :
    (rest : ℕ → ℕ) (digit : ℕ → ℕ → ℕ) (n m a b : ℕ)
    → a ≤ n
    → a ≤ m
    → digits rest digit n a b ≡ digits rest digit m a b
enough_digits rest digit zero zero a b p q = refl
enough_digits rest digit zero (suc m) zero b p q = refl
enough_digits rest digit zero (suc m) (suc a) b p q = absurd (omega arith)
enough_digits rest digit (suc n) zero zero b p q = refl
enough_digits rest digit (suc n) zero (suc a) b p q = absurd (omega arith)
enough_digits rest digit (suc n) (suc m) zero b p q = refl
enough_digits rest digit (suc n) (suc m) (suc a) b p q =
    rw (enough_digits rest digit n m (suc a / 2) (b / 2) (omega arith) (omega arith))

or_halves : (a b : ℕ) → bit_or a b ≡ bit_or (a / 2) (b / 2) * 2 + max (a % 2) (b % 2)
or_halves zero b = simp bit_or-bitwise (omega arith)
or_halves (suc a) b = simp bit_or-bitwise (
    omega (
      arith,
      enough_digits (λ y. y) max a (suc a / 2) (suc a / 2) (b / 2) (omega arith) (le_refl _),
    ))

and_halves : (a b : ℕ) → bit_and a b ≡ bit_and (a / 2) (b / 2) * 2 + min (a % 2) (b % 2)
and_halves zero b = simp bit_and-bitwise (omega arith)
and_halves (suc a) b = simp bit_and-bitwise (
    omega (
      arith,
      enough_digits (λ y. 0) min a (suc a / 2) (suc a / 2) (b / 2) (omega arith) (le_refl _),
    ))

or_zero_fuel : (n a : ℕ) → a ≤ n → bit_or a 0 ≡ a
or_zero_fuel n zero h = refl
or_zero_fuel zero (suc a) h = absurd (omega arith)
or_zero_fuel (suc n) (suc a) h =
    omega (arith, or_halves (suc a) 0, or_zero_fuel n (suc a / 2) (omega arith))

and_zero_fuel : (n a : ℕ) → a ≤ n → bit_and a 0 ≡ 0
and_zero_fuel n zero h = refl
and_zero_fuel zero (suc a) h = absurd (omega arith)
and_zero_fuel (suc n) (suc a) h =
    omega (arith, and_halves (suc a) 0, and_zero_fuel n (suc a / 2) (omega arith))

-- `(q << k) | r` for an `r` of `k` bits.
pub bit_or_shifted : (k q r : ℕ) → r < 2 ^ k → bit_or (q * 2 ^ k) r ≡ q * 2 ^ k + r
bit_or_shifted zero q zero h = omega (arith, or_zero_fuel (q * 1) (q * 1) (le_refl _))
bit_or_shifted zero q (suc r) h = absurd (omega arith)
bit_or_shifted (suc k) q r h = omega (
  arith,
  or_halves (q * 2 ^ suc k) r,
  ap (λ (t : ℕ). q * t) (pow-suc 2 k),
  pow-suc 2 k,
  ap (λ (t : ℕ). bit_or t (r / 2)) doubled,
  bit_or_shifted k q (r / 2) (omega (arith, pow-suc 2 k)),
)
  where
    doubled : q * 2 ^ suc k / 2 ≡ q * 2 ^ k
    doubled = omega (arith, ap (λ (t : ℕ). q * t) (pow-suc 2 k))

-- Taking the lowest bit off a remainder by a doubled modulus.
mod_double : (m a : ℕ) → a % (m * 2) ≡ a / 2 % m * 2 + a % 2
mod_double m a = omega (
  arith,
  div-add-mod a (m * 2),
  div-add-mod (a / 2) m,
  ap (λ (t : ℕ). t * m) (div-div-eq-div-mul a 2 m),
  ap (λ (t : ℕ). a / t * m) (mul_comm 2 m),
)

-- `a & (2^k - 1)`.
pub bit_and_mask : (k a : ℕ) → bit_and a (2 ^ k - 1) ≡ a % 2 ^ k
bit_and_mask zero a = omega (arith, and_zero_fuel a a (le_refl _))
bit_and_mask (suc k) a =
    rw (pow-suc 2 k, and_halves a (2 ^ k * 2 - 1), mod_double (2 ^ k) a)
      (omega (
        arith,
        ap (λ (t : ℕ). bit_and (a / 2) t) half_mask,
        bit_and_mask k (a / 2),
        one-le-pow k 2,
      ))
  where
    half_mask : (2 ^ k * 2 - 1) / 2 ≡ 2 ^ k - 1
    half_mask = omega (arith, one-le-pow k 2)
