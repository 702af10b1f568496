-- ===== src/Rlp/Original/Encode.antt =====
-- evm/what-is-recursive-length-prefix-rlp/rlp/encode/encode.go
pub mod Agrees
pub mod Overflow
use blog_solutions.Prelude.{
  zero, ◌-◌, [], ◌∷◌, ◌++◌, length, ltb, if◌then◌else◌, ok, panic, unsupported_type,
  not_integer_kind, negative_integer, ◌>>=◌, ℤ, pos, negsuc, word, sign_bit,
}
use blog_solutions.Rlp.Item.{Bytes}
use blog_solutions.Rlp.Value.{
  Kind, uint, uint8, uint16, uint32, uint64, other_kind, Value, Values, string, byte_slice,
  slice_of, number, unsupported, no_values, value,
}
use blog_solutions.Rlp.Header.{Encoded, to_binary, encode_length, encode_bytes, is_integer_kind}

-- `int(u)` for a `uint64`: the same 64 bits.
unfoldable pub int_of_uint : ℤ → ℤ
int_of_uint (pos n) = if ltb n sign_bit then pos n else negsuc (word - n - 1)
int_of_uint (negsuc n) = negsuc n

unfoldable pub to_int : Kind → ℤ → Encoded ℤ
to_int uint z = ok (int_of_uint z)
to_int uint8 z = ok (int_of_uint z)
to_int uint16 z = ok (int_of_uint z)
to_int uint32 z = ok (int_of_uint z)
to_int uint64 z = ok (int_of_uint z)
to_int other_kind z = panic not_integer_kind
to_int _ z = ok z

unfoldable pub encode_integer : ℤ → Encoded Bytes
encode_integer (pos n) = encode_bytes (to_binary (pos n))
encode_integer (negsuc n) = panic negative_integer

-- `if n == 0 { return []byte{0x80} }; return encodeInteger(n)`
unfoldable pub encode_number : ℤ → Encoded Bytes
encode_number (pos zero) = ok (0x80 ∷ [])
encode_number z = encode_integer z

unfoldable mutual
  pub rlp_encode : Value → Encoded Bytes
  rlp_encode (string text) = encode_bytes text
  rlp_encode (byte_slice v) = encode_bytes v
  rlp_encode (slice_of vs) = do
    output ← encode_elements vs
    head ← encode_length (length output) 0xc0
    ok (head ++ output)
  rlp_encode (number kind z) =
      if is_integer_kind kind
      then (do n ← to_int kind z; encode_number n)
      else panic unsupported_type
  rlp_encode unsupported = panic unsupported_type

  -- The loop over the elements of a slice.
  pub encode_elements : Values → Encoded Bytes
  encode_elements no_values = ok []
  encode_elements (value item rest) = do
    front ← rlp_encode item
    back ← encode_elements rest
    ok (front ++ back)
