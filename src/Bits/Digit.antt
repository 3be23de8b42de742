-- ===== src/Bits/Digit.antt =====
-- The native `bit_and` and `bit_or` by their lowest binary digit: the library defines them by a
-- recursion on digits with fuel, and here the fuel goes.
use Prim.Native.Nat.{min, max, digits, bit_and-bitwise, bit_or-bitwise}
use rt.Prelude.{ℕ, zero, suc, ◌+◌, ◌*◌, ◌/◌, ◌%◌, ◌≤◌, bit_and, bit_or, ◌≡◌, refl, arith}

module _ (z : ℕ → ℕ) (f : ℕ → ℕ → ℕ) where
  -- Any two amounts of fuel that cover the number give the same digits.
  enough_fuel : (m n a b : ℕ) → a ≤ m → a ≤ n → digits z f m a b ≡ digits z f n a b
  enough_fuel zero zero zero b h k = refl
  enough_fuel zero (suc n) zero b h k = refl
  enough_fuel (suc m) zero zero b h k = refl
  enough_fuel (suc m) (suc n) zero b h k = refl
  enough_fuel zero n (suc a) b h k = absurd (omega arith)
  enough_fuel (suc m) zero (suc a) b h k = absurd (omega arith)
  enough_fuel (suc m) (suc n) (suc a) b h k =
      rw (enough_fuel m n (suc a / 2) (b / 2) (omega arith) (omega arith))

pub bit_and_digit : (a b : ℕ) → bit_and a b ≡ bit_and (a / 2) (b / 2) * 2 + min (a % 2) (b % 2)
bit_and_digit zero b = omega (arith, bit_and-bitwise 0 b, bit_and-bitwise 0 (b / 2))
bit_and_digit (suc a) b = omega (
  arith,
  bit_and-bitwise (suc a) b,
  bit_and-bitwise (suc a / 2) (b / 2),
  enough_fuel (λ _. 0) min a (suc a / 2) (suc a / 2) (b / 2) (omega arith) (omega arith),
)

pub bit_or_digit : (a b : ℕ) → bit_or a b ≡ bit_or (a / 2) (b / 2) * 2 + max (a % 2) (b % 2)
bit_or_digit zero b = omega (arith, bit_or-bitwise 0 b, bit_or-bitwise 0 (b / 2))
bit_or_digit (suc a) b = omega (
  arith,
  bit_or-bitwise (suc a) b,
  bit_or-bitwise (suc a / 2) (b / 2),
  enough_fuel (λ y. y) max a (suc a / 2) (suc a / 2) (b / 2) (omega arith) (omega arith),
)
