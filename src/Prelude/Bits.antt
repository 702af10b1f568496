-- ===== src/Prelude/Bits.antt =====
-- `bit_or` at variables: a shifted number joined with a byte.
use Prim.Native.Nat.{
  ℕ, zero, suc, ◌+◌, ◌*◌, ◌/◌, ◌%◌, ◌≤◌, ◌<◌, max, bit_or, digits, bit_or-bitwise,
}
use mathlib.Core.Path.{◌≡◌, refl}
use native.Mathlib.Omega.{arith}

abbrev or_digits : ℕ → ℕ → ℕ → ℕ
or_digits n a b = digits (λ b. b) max n a b

or_digits_fuel : (n m a b : ℕ) → a ≤ n → a ≤ m → or_digits n a b ≡ or_digits m a b
or_digits_fuel zero zero a b p q = refl
or_digits_fuel zero (suc m) zero b p q = refl
or_digits_fuel zero (suc m) (suc a) b p q = absurd (omega arith)
or_digits_fuel (suc n) zero zero b p q = refl
or_digits_fuel (suc n) zero (suc a) b p q = absurd (omega arith)
or_digits_fuel (suc n) (suc m) zero b p q = refl
or_digits_fuel (suc n) (suc m) (suc a) b p q =
    omega (arith, or_digits_fuel n m (suc a / 2) (b / 2) (omega arith) (omega arith))

zero-bit_or : (b : ℕ) → bit_or 0 b ≡ b
zero-bit_or b = bit_or-bitwise 0 b

-- The law for the lowest digit.
bit_or_step : (a b : ℕ) → bit_or a b ≡ bit_or (a / 2) (b / 2) * 2 + max (a % 2) (b % 2)
bit_or_step zero b = omega (arith, zero-bit_or b, zero-bit_or (b / 2))
bit_or_step (suc a) b = omega (
  arith,
  bit_or-bitwise (suc a) b,
  bit_or-bitwise (suc a / 2) (b / 2),
  or_digits_fuel a (suc a / 2) (suc a / 2) (b / 2) (omega arith) (omega arith),
)

-- With nothing below the `k`-th digit, adding one more digit pair keeps the sum.
bit_or_even : (a b : ℕ) → bit_or a (b / 2) ≡ a + b / 2 → bit_or (a * 2) b ≡ a * 2 + b
bit_or_even a b h =
    let e : a * 2 / 2 ≡ a = omega arith in
    let s : bit_or (a * 2) b ≡ bit_or (a * 2 / 2) (b / 2) * 2 + max (a * 2 % 2) (b % 2) =
      bit_or_step (a * 2) b in
    let t : bit_or (a * 2) b ≡ bit_or a (b / 2) * 2 + max (a * 2 % 2) (b % 2) = rw e at s in
    omega arith

bit_or_zero_fuel : (n a : ℕ) → a ≤ n → bit_or a 0 ≡ a
bit_or_zero_fuel n zero h = refl
bit_or_zero_fuel zero (suc a) h = absurd (omega arith)
bit_or_zero_fuel (suc n) (suc a) h =
    omega (arith, bit_or_step (suc a) 0, bit_or_zero_fuel n (suc a / 2) (omega arith))

double : ℕ → ℕ → ℕ
double zero a = a
double (suc k) a = double k a * 2

low : ℕ → ℕ
low zero = 1
low (suc k) = low k * 2

bit_or-double : (k a b : ℕ) → b < low k → bit_or (double k a) b ≡ double k a + b
unfolding double low
bit_or-double zero a zero h = omega (arith, bit_or_zero_fuel a a (omega arith))
bit_or-double zero a (suc b) h = absurd (omega arith)
bit_or-double (suc k) a b h = bit_or_even (double k a) b (bit_or-double k a (b / 2) (omega arith))

pub bit_or_byte : (a b : ℕ) → b < 256 → bit_or (a * 256) b ≡ a * 256 + b
unfolding double low
bit_or_byte a b h = let e : double 8 a ≡ a * 256 = omega arith in rw (← e) (bit_or-double 8 a b h)
