-- ===== src/Prelude/Words.antt =====
-- Go's `int` on a 64-bit machine, kept as its pattern of 64 bits.
use Prim.Native.Nat.{ℕ, ◌+◌, ◌%◌, ◌^◌}
use mathlib.Core.Bool.{Bool}
use blog_solutions.Prelude.Tests.{ltb}

-- The number of patterns.
abbrev pub word : ℕ
word = 2 ^ 64

-- The patterns from here on stand for negative values.
abbrev pub sign_bit : ℕ
sign_bit = 2 ^ 63

abbrev pub add_int : ℕ → ℕ → ℕ
add_int a b = (a + b) % word

-- `a < b`
abbrev pub lt_int : ℕ → ℕ → Bool
lt_int a b = ltb ((a + sign_bit) % word) ((b + sign_bit) % word)
