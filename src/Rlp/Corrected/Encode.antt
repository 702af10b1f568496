-- ===== src/Rlp/Corrected/Encode.antt =====
-- evm/what-is-recursive-length-prefix-rlp/corrected/encode/encode.go
pub mod Refines
pub mod Sound
pub mod Rejects
use blog_solutions.Prelude.{
  ℕ, zero, suc, ◌/◌, ◌%◌, [], ◌∷◌, ◌++◌, length, if◌then◌else◌, ok, panic, unsupported_type,
  not_integer_kind, index_range, negative_integer, ◌>>=◌, ℤ, pos, negsuc,
}
use blog_solutions.Rlp.Item.{Bytes}
use blog_solutions.Rlp.Value.{
  Kind, other_kind, Value, Values, string, byte_slice, slice_of, number, unsupported, no_values,
  value,
}
use blog_solutions.Rlp.Header.{Encoded, encode_length, encode_bytes, is_integer_kind}

-- `toUint64`: a negative value is rejected.
unfoldable pub to_uint64 : Kind → ℤ → Encoded ℕ
to_uint64 other_kind z = panic not_integer_kind
to_uint64 k (pos n) = ok n
to_uint64 k (negsuc n) = panic negative_integer

-- `unsignedBinary`: the buffer is filled from its end, `buf` being what is written of it and
-- `room` the index `i`.
unfoldable pub fill : ℕ → ℕ → Bytes → Encoded Bytes
fill room zero buf = ok buf
fill zero (suc n) buf = panic index_range
fill (suc room) (suc n) buf = fill room (suc n / 256) ((suc n % 256) ∷ buf)

unfoldable pub unsigned_binary : ℕ → Encoded Bytes
unsigned_binary n = fill 8 n []

unfoldable pub encode_integer : ℕ → Encoded Bytes
encode_integer n = do buf ← unsigned_binary n; encode_bytes buf

-- `if n == 0 { return []byte{0x80} }; return encodeInteger(n)`
unfoldable pub encode_number : ℕ → Encoded Bytes
encode_number zero = ok (0x80 ∷ [])
encode_number n = encode_integer n

unfoldable mutual
  pub rlp_encode : Value → Encoded Bytes
  rlp_encode (string text) = encode_bytes text
  rlp_encode (byte_slice v) = encode_bytes v
  rlp_encode (slice_of vs) = do
    output ← encode_elements vs
    head ← encode_length (length output) 0xc0
    ok (head ++ output)
  rlp_encode (number kind z) =
      if is_integer_kind kind
      then (do n ← to_uint64 kind z; encode_number n)
      else panic unsupported_type
  rlp_encode unsupported = panic unsupported_type

  -- The loop over the elements of a slice.
  pub encode_elements : Values → Encoded Bytes
  encode_elements no_values = ok []
  encode_elements (value item rest) = do
    front ← rlp_encode item
    back ← encode_elements rest
    ok (front ++ back)
