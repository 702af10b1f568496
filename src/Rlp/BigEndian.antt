-- ===== src/Rlp/BigEndian.antt =====
-- Numbers as big-endian bytes, without leading zeros: the specification of the loops that write
-- and read them.
use blog_solutions.Prelude.{
  ℕ, zero, suc, ◌+◌, ◌*◌, ◌/◌, ◌%◌, ◌^◌, ◌≤◌, ◌<◌, ◌≡◌, refl, ap, ◌⊎◌, inl, inr, [], ◌∷◌, ◌++◌,
  ◌==◌, if◌then◌else◌, length, length-append, All, All-append, arith,
}
use blog_solutions.Rlp.Item.{Bytes, IsByte}
use native.Mathlib.Nat.{pow-suc, le-mul_of_pos_right, one-le-pow, mul-le-mul_right}

-- The digits of `n` to the base 256, highest first, for `n` below 256 ^ k.
unfoldable pub big_endian : ℕ → ℕ → Bytes
big_endian zero n = []
big_endian (suc k) n = if n == 0 then [] else (big_endian k (n / 256) ++ ((n % 256) ∷ []))

-- The number that the bytes stand for, `n` being what stands in front of them.
unfoldable pub from_bytes : ℕ → Bytes → ℕ
from_bytes n [] = n
from_bytes n (b ∷ bs) = from_bytes (n * 256 + b) bs

pub big_endian_zero : (k : ℕ) → big_endian k 0 ≡ []
unfolding big_endian
big_endian_zero zero = refl
big_endian_zero (suc k) = refl

pub big_endian-suc :
    (k n : ℕ) → 0 < n → big_endian (suc k) n ≡ big_endian k (n / 256) ++ ((n % 256) ∷ [])
unfolding big_endian
big_endian-suc k n h = ground arith

pub from_bytes-append :
    (n : ℕ) (xs ys : Bytes) → from_bytes n (xs ++ ys) ≡ from_bytes (from_bytes n xs) ys
unfolding from_bytes
from_bytes-append n [] ys = refl
from_bytes-append n (x ∷ xs) ys = from_bytes-append (n * 256 + x) xs ys

pow_256 : (k : ℕ) → 256 ^ suc k ≡ 256 * 256 ^ k
pow_256 k = rw (pow-suc 256 k) (omega arith)

-- Split on whether `n` is 0.
zero_or_pos : (n : ℕ) → (n ≡ 0) ⊎ (0 < n)
zero_or_pos zero = inl refl
zero_or_pos (suc n) = inr (omega arith)

-- Reading the digits gives the number.
pub from_bytes-big_endian : (k n : ℕ) → n < 256 ^ k → from_bytes 0 (big_endian k n) ≡ n
unfolding from_bytes
from_bytes-big_endian zero n h = unfold big_endian in omega arith
from_bytes-big_endian (suc k) n h = elim (zero_or_pos n) [
  | inl e ↦ rw (e, big_endian_zero (suc k))
  | inr p ↦
      rw
        (
          big_endian-suc k n p,
          from_bytes-append 0 (big_endian k (n / 256)) ((n % 256) ∷ []),
          from_bytes-big_endian k (n / 256) (omega (arith, pow_256 k)),
        )
        (omega arith)
]

pub big_endian-IsByte : (k n : ℕ) → All IsByte (big_endian k n)
big_endian-IsByte zero n = unfold big_endian in tt
big_endian-IsByte (suc k) n = elim (zero_or_pos n) [
  | inl e ↦ rw (e, big_endian_zero (suc k)) tt
  | inr p ↦
      rw (big_endian-suc k n p)
        (All-append IsByte _ _ (big_endian-IsByte k (n / 256)) (omega arith))
]

pub length-big_endian : (k n : ℕ) → length (big_endian k n) ≤ k
length-big_endian zero n = unfold big_endian in omega arith
length-big_endian (suc k) n = elim (zero_or_pos n) [
  | inl e ↦ rw (e, big_endian_zero (suc k)) (omega arith)
  | inr p ↦
      rw (big_endian-suc k n p, length-append (big_endian k (n / 256)) ((n % 256) ∷ []))
        (omega (arith, length-big_endian k (n / 256)))
]

-- Numbers that are not 0 have a byte at least.
pub big_endian_pos : (k n : ℕ) → 0 < n → 0 < length (big_endian (suc k) n)
big_endian_pos k n p =
    rw (big_endian-suc k n p, length-append (big_endian k (n / 256)) ((n % 256) ∷ [])) (omega arith)

pub from_bytes_below :
    (bound k n : ℕ) (bs : Bytes)
    → All IsByte bs
    → length bs ≤ k
    → suc n * 256 ^ k ≤ bound
    → from_bytes n bs < bound
unfolding from_bytes
from_bytes_below bound zero n [] h l b = omega arith
from_bytes_below bound (suc k) n [] h l b =
    omega (arith, le-mul_of_pos_right (suc n) (one-le-pow (suc k) 256 (omega arith)))
from_bytes_below bound zero n (x ∷ bs) h l b = elim l [ ]
from_bytes_below bound (suc k) n (x ∷ bs) h l b =
    from_bytes_below bound k (n * 256 + x) bs h.1 (omega arith)
      (omega (arith, widen, ap (λ (t : ℕ). suc n * t) (pow_256 k)))
  where
    widen : suc (n * 256 + x) * 256 ^ k ≤ suc n * 256 * 256 ^ k
    widen = mul-le-mul_right (256 ^ k) (omega (arith, h.0))

-- Eight bytes at most stand for a number of 64 bits.
pub from_bytes-lt : (bs : Bytes) → All IsByte bs → length bs ≤ 8 → from_bytes 0 bs < 2 ^ 64
from_bytes-lt bs h l = from_bytes_below (2 ^ 64) 8 0 bs h l (omega arith)

-- A number with its highest digit in place `k` has `k + 1` digits.
pub length-big_endian_full :
    (k n : ℕ) → 256 ^ k ≤ n → n < 256 ^ suc k → length (big_endian (suc k) n) ≡ suc k
length-big_endian_full zero n a b =
    rw (big_endian-suc zero n (omega arith)) (unfold big_endian in refl)
length-big_endian_full (suc k) n a b =
    let p : 0 < n = omega (arith, one-le-pow (suc k) 256 (omega arith)) in
    rw (big_endian-suc (suc k) n p, length-append (big_endian (suc k) (n / 256)) ((n % 256) ∷ []))
      (omega (
        arith,
        length-big_endian_full k (n / 256) (omega (arith, pow_256 k))
            (omega (arith, pow_256 (suc k))),
      ))
