-- ===== src/Bits.antt =====
-- `&` and `|` on machine words as arithmetic. Every mask of the kernel is a single bit, a run of
-- low bits or a run of high bits, and every `|` joins disjoint fields.
mod Digit
use Digit.{bit_and_digit}
pub use Digit.{bit_or_digit}
use native.Mathlib.Nat.{pow-suc, div-div-eq-div-mul}
use rt.Prelude.{
  ℕ, zero, suc, ◌+◌, ◌*◌, ◌/◌, ◌%◌, ◌^◌, ◌≤◌, ◌<◌, ◌-◌, bit_and, bit_or, ◌≡◌, refl, sym, ap, ◌∙◌,
  arith,
}

-- Fuel bounds the number of digits left.
and_zero_fuel : (n a : ℕ) → a ≤ n → bit_and a 0 ≡ 0
and_zero_fuel n zero h = refl
and_zero_fuel zero (suc a) h = absurd (omega arith)
and_zero_fuel (suc n) (suc a) h =
    omega (arith, bit_and_digit (suc a) 0, and_zero_fuel n (suc a / 2) (omega arith))

or_zero_fuel : (n a : ℕ) → a ≤ n → bit_or a 0 ≡ a
or_zero_fuel n zero h = refl
or_zero_fuel zero (suc a) h = absurd (omega arith)
or_zero_fuel (suc n) (suc a) h =
    omega (arith, bit_or_digit (suc a) 0, or_zero_fuel n (suc a / 2) (omega arith))

pub bit_and-zero : (a : ℕ) → bit_and a 0 ≡ 0
bit_and-zero a = and_zero_fuel a a (omega arith)

pub bit_or-zero : (a : ℕ) → bit_or a 0 ≡ a
bit_or-zero a = or_zero_fuel a a (omega arith)

-- Doubling a mask and taking one more digit of the word.
bit_and-double : (a b : ℕ) → bit_and a (2 * b) ≡ 2 * bit_and (a / 2) b
bit_and-double a b = ground (arith, bit_and_digit a (2 * b))

bit_and-double_suc : (a b : ℕ) → bit_and a (2 * b + 1) ≡ 2 * bit_and (a / 2) b + a % 2
bit_and-double_suc a b = ground (arith, bit_and_digit a (2 * b + 1))

bit_or-double : (a b : ℕ) → bit_or (2 * a) b ≡ 2 * bit_or a (b / 2) + b % 2
bit_or-double a b = ground (arith, bit_or_digit (2 * a) b)

twice_pow : (q k : ℕ) → q * 2 ^ suc k ≡ 2 * (q * 2 ^ k)
twice_pow q k = omega (arith, ap (λ (t : ℕ). q * t) (pow-suc 2 k))

pow_pos : (k : ℕ) → 1 ≤ 2 ^ k
pow_pos zero = omega arith
pow_pos (suc k) = omega (arith, pow_pos k, pow-suc 2 k)

-- The low `k` bits of a word whose upper part is `q`.
pub low_bits_of_fields : (k q r : ℕ) → r < 2 ^ k → bit_and (q * 2 ^ k + r) (2 ^ k - 1) ≡ r
low_bits_of_fields zero q r h = omega (arith, bit_and-zero (q * 2 ^ 0 + r))
low_bits_of_fields (suc k) q r h = ground (
  arith,
  pow_pos k,
  pow-suc 2 k,
  twice_pow q k,
  bit_and_digit (q * 2 ^ suc k + r) (2 ^ suc k - 1),
  low_bits_of_fields k q (r / 2) (omega (arith, pow-suc 2 k)),
)

-- `x & (2^k - 1)` is a remainder.
pub bit_and-low : (k a : ℕ) → bit_and a (2 ^ k - 1) ≡ a % 2 ^ k
bit_and-low k a = ground (arith, pow_pos k, low_bits_of_fields k (a / 2 ^ k) (a % 2 ^ k))

-- `(q << k) | r` is a sum when `r` fits below the shift.
pub bit_or_fields : (k q r : ℕ) → r < 2 ^ k → bit_or (q * 2 ^ k) r ≡ q * 2 ^ k + r
bit_or_fields zero q r h = ground (arith, bit_or-zero (q * 2 ^ 0))
bit_or_fields (suc k) q r h = ground (
  arith,
  twice_pow q k,
  bit_or-double (q * 2 ^ k) r,
  bit_or_fields k q (r / 2) (omega (arith, pow-suc 2 k)),
)

pub bit_and-one : (a : ℕ) → bit_and a 1 ≡ a % 2
bit_and-one a = omega (arith, bit_and_digit a 1, bit_and-zero (a / 2))

pub bit_or-one : (a : ℕ) → bit_or a 1 ≡ a / 2 * 2 + 1
bit_or-one a = ground (arith, bit_or_digit a 1, bit_or-zero (a / 2))

-- Masks that end in `k` zeros look at the word from bit `k` on.
pub bit_and-shifted : (k a b : ℕ) → bit_and a (b * 2 ^ k) ≡ bit_and (a / 2 ^ k) b * 2 ^ k
bit_and-shifted zero a b = ground arith
bit_and-shifted (suc k) a b = ground (
  arith,
  twice_pow b k,
  twice_pow (bit_and (a / 2 ^ suc k) b) k,
  bit_and-double a (b * 2 ^ k),
  bit_and-shifted k (a / 2) b,
  div-div-eq-div-mul a 2 (2 ^ k),
  pow-suc 2 k,
)

-- Two multiples of a power of two are joined above it.
pub bit_or-shifted : (k a b : ℕ) → bit_or (a * 2 ^ k) (b * 2 ^ k) ≡ bit_or a b * 2 ^ k
bit_or-shifted zero a b = ground arith
bit_or-shifted (suc k) a b = ground (
  arith,
  twice_pow a k,
  twice_pow b k,
  twice_pow (bit_or a b) k,
  bit_or-double (a * 2 ^ k) (b * 2 ^ suc k),
  bit_or-shifted k a b,
)

zero_or_fuel : (n a : ℕ) → a ≤ n → bit_or 0 a ≡ a
zero_or_fuel n zero h = refl
zero_or_fuel zero (suc a) h = absurd (omega arith)
zero_or_fuel (suc n) (suc a) h =
    omega (arith, bit_or_digit 0 (suc a), zero_or_fuel n (suc a / 2) (omega arith))

or_comm_fuel : (n a b : ℕ) → a ≤ n → bit_or a b ≡ bit_or b a
or_comm_fuel n zero b h = zero_or_fuel b b (omega arith) ∙ sym (bit_or-zero b)
or_comm_fuel zero (suc a) b h = absurd (omega arith)
or_comm_fuel (suc n) (suc a) b h = omega (
  arith,
  bit_or_digit (suc a) b,
  bit_or_digit b (suc a),
  or_comm_fuel n (suc a / 2) (b / 2) (omega arith),
)

bit_or_comm : (a b : ℕ) → bit_or a b ≡ bit_or b a
bit_or_comm a b = or_comm_fuel a a b (omega arith)

-- `r | (q << k)` is a sum as well.
pub bit_or_above : (k q r : ℕ) → r < 2 ^ k → bit_or r (q * 2 ^ k) ≡ q * 2 ^ k + r
bit_or_above k q r h = bit_or_comm r (q * 2 ^ k) ∙ bit_or_fields k q r h
