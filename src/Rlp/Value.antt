-- ===== src/Rlp/Value.antt =====
-- What `RlpEncode` is given in its `any`, as `reflect` shows it.
use blog_solutions.Prelude.{ℕ, ◌<◌, ℤ, pos, negsuc}
use blog_solutions.Rlp.Item.{Bytes}

-- The kinds of `reflect` that the encoders name, and all the others.
pub data Kind : Type 0 where
  int int8 int16 int32 int64 : Kind
  uint uint8 uint16 uint32 uint64 : Kind
  other_kind : Kind

-- `number k z` is a value of kind `k` whose `Int()` or `Uint()` is `z`. `unsupported` is a value
-- that is neither a string, nor a slice, nor of an integer kind.
mutual
  pub data Value : Type 0 where
    string : Bytes → Value
    byte_slice : Bytes → Value
    slice_of : Values → Value
    number : Kind → ℤ → Value
    unsupported : Value

  pub data Values : Type 0 where
    no_values : Values
    value : Value → Values → Values

-- Every number in the value is below the bound. A Go value holds numbers of 64 bits at most.
unfoldable mutual
  pub IsBelow : ℕ → Value → Type 0
  IsBelow bound (string text) = Unit
  IsBelow bound (byte_slice b) = Unit
  IsBelow bound (slice_of vs) = AreBelow bound vs
  IsBelow bound (number kind (pos n)) = n < bound
  IsBelow bound (number kind (negsuc n)) = Unit
  IsBelow bound unsupported = Unit

  pub AreBelow : ℕ → Values → Type 0
  AreBelow bound no_values = Unit
  AreBelow bound (value v vs) = IsBelow bound v × AreBelow bound vs
