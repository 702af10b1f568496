-- ===== src/Slices.antt =====
-- Go's slice expressions, with the bounds check of the run-time system.
use blog_solutions.Prelude.{
  ℕ, ◌+◌, ◌-◌, ◌≤◌, ◌≡◌, ◌&&◌, ◌++◌, leb, false, if◌then◌else◌, length, take, drop, take-append,
  drop-append, length-take, length-drop, List, arith, Outcome, ok, panic, slice_bounds, le→leb,
}

-- `data[lo:hi]`. The bounds are patterns: a negative one is above every length.
unfoldable pub slice {ℓ} : {E : Type 0} {A : Type ℓ} → List A → ℕ → ℕ → Outcome E (List A)
slice xs lo hi =
    if leb lo hi && leb hi (length xs) then ok (take (hi - lo) (drop lo xs)) else panic slice_bounds

-- `data[lo:]`
unfoldable pub slice_from {ℓ} : {E : Type 0} {A : Type ℓ} → List A → ℕ → Outcome E (List A)
slice_from xs lo = if leb lo (length xs) then ok (drop lo xs) else panic slice_bounds

module _ {ℓ} {E : Type 0} {A : Type ℓ} where
  -- Within the bounds both give what the expression says.
  pub slice_within :
      (xs : List A) (lo hi : ℕ)
      → lo ≤ hi
      → hi ≤ length xs
      → slice {E = E} xs lo hi ≡ ok (take (hi - lo) (drop lo xs))
  unfolding slice
  slice_within xs lo hi p q = rw (le→leb lo hi p, le→leb hi (length xs) q)

  pub slice_from_within :
      (xs : List A) (lo : ℕ) → lo ≤ length xs → slice_from {E = E} xs lo ≡ ok (drop lo xs)
  unfolding slice_from
  slice_from_within xs lo p = rw (le→leb lo (length xs) p)

-- The `n` elements behind the first `k`.
abbrev pub part {ℓ} : {A : Type ℓ} → List A → ℕ → ℕ → List A
part xs k n = take n (drop k xs)

pub length-part {ℓ} :
    {A : Type ℓ} (xs : List A) (k n : ℕ) → k + n ≤ length xs → length (part xs k n) ≡ n
length-part xs k n h = omega (arith, length-take n (drop k xs), length-drop k xs)

pub slice-part {ℓ} :
    {E : Type 0} {A : Type ℓ} (xs : List A) (k n : ℕ)
    → k + n ≤ length xs
    → slice {E = E} xs k (k + n) ≡ ok (part xs k n)
slice-part xs k n h =
    let e : k + n - k ≡ n = omega arith in rw (slice_within xs k (k + n) (omega arith) h, e)

pub part-append {ℓ} :
    {A : Type ℓ} (front mid back : List A) (k n : ℕ)
    → k ≡ length front
    → n ≡ length mid
    → part (front ++ (mid ++ back)) k n ≡ mid
part-append front mid back k n p q =
    rw (p, q, drop-append front (mid ++ back)) (take-append mid back)

pub slice_from-eq-ok {ℓ} :
    {E : Type 0} {A : Type ℓ} (xs : List A) (lo : ℕ) (ys : List A)
    → slice_from {E = E} xs lo ≡ ok ys
    → ys ≡ drop lo xs
unfolding slice_from
slice_from-eq-ok xs lo ys e = ground arith

pub slice_outside {ℓ} :
    {E : Type 0} {A : Type ℓ} (xs : List A) (lo hi : ℕ)
    → (leb lo hi && leb hi (length xs)) ≡ false
    → slice {E = E} xs lo hi ≡ panic slice_bounds
unfolding slice
slice_outside xs lo hi e = rw e
