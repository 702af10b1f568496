-- ===== src/Prelude/Results.antt =====
-- What a Go call comes to: a value, a returned error, a panic, or, in a loop on fuel, none of
-- these.
use mathlib.Core.Path.{◌≡◌, refl}

-- The panics of the programs: those of the run-time system and those that the source raises.
pub data Panic : Type 0 where
  slice_bounds index_range : Panic
  unsupported_type not_integer_kind input_too_long negative_integer uint256_overflow nil_pointer
        no_project_root :
      Panic

pub data Outcome {ℓ} (E : Type 0) (A : Type ℓ) : Type ℓ where
  ok : A → Outcome E A
  err : E → Outcome E A
  panic : Panic → Outcome E A
  out_of_fuel : Outcome E A

-- The rest of a function runs on the value of a call that has one.
infixl 5 ◌>>=◌
abbrev pub ◌>>=◌ {ℓ κ} :
    {E : Type 0} {A : Type ℓ} {B : Type κ} → Outcome E A → (A → Outcome E B) → Outcome E B
out_of_fuel >>= rest = out_of_fuel
panic p >>= rest = panic p
err e >>= rest = err e
ok value >>= rest = rest value

-- The call returns, with a value or an error.
abbrev pub Returns {ℓ} : {E : Type 0} {A : Type ℓ} → Outcome E A → Type 0
Returns (ok a) = Unit
Returns (err e) = Unit
Returns (panic p) = ⊥
Returns out_of_fuel = ⊥

module _ {ℓ κ} {E : Type 0} {A : Type ℓ} {B : Type κ} where
  -- A success has gone through both of its steps.
  pub both_ok :
      (first : Outcome E A) (rest : A → Outcome E B) {b : B}
      → (first >>= rest) ≡ ok b
      → (a : A) × (first ≡ ok a) × (rest a ≡ ok b)
  both_ok out_of_fuel rest e = cc
  both_ok (panic p) rest e = cc
  both_ok (err x) rest e = cc
  both_ok (ok value) rest e = (value, refl, e)

  -- A bind returns if its first step does, and its second on every value.
  pub Returns-bind :
      (m : Outcome E A) (f : A → Outcome E B)
      → Returns m
      → ((a : A) → Returns (f a))
      → Returns (m >>= f)
  Returns-bind (ok a) f h k = k a
  Returns-bind (err e) f h k = tt
  Returns-bind (panic p) f h k = h
  Returns-bind out_of_fuel f h k = h

  pub Returns-map : (m : Outcome E A) (f : A → B) → Returns m → Returns (m >>= λ a. ok (f a))
  Returns-map m f h = Returns-bind m (λ a. ok (f a)) h (λ a. tt)
