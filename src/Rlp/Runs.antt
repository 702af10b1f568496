-- ===== src/Rlp/Runs.antt =====
-- Vectors of the RLP tests, and the theorems at concrete inputs.
use blog_solutions.Prelude.{
  ltb, if◌then◌else◌, ◌≤◌, ◌^◌, ◌≡◌, ◌↔◌, refl, inl, [], ◌∷◌, ◌++◌, arith, ok, err, panic, Returns,
  none, some, pos, negsuc, slice_bounds, negative_integer, lt_wf, dec_lt, Panic, replicate,
}
use blog_solutions.Rlp.Item.{
  Bytes, Item, bytes, list, nil, DecodeError, declared_length_exceeds, trailing_bytes,
}
use blog_solutions.Rlp.Value.{
  byte_slice, Value, string, slice_of, number, no_values, value, uint64, int, IsBelow,
}
use blog_solutions.Slices.{slice}
use blog_solutions.Rlp.Header.{
  write_bytes, to_binary, encode_length, encode_bytes, is_single_byte, is_integer_kind,
}
use blog_solutions.Rlp.BigEndian.{big_endian, from_bytes}
use blog_solutions.Rlp.Spec.{rlp, meaning}
use blog_solutions.Rlp.Corrected.Encode as Encode
use blog_solutions.Rlp.Corrected.Encode.Rejects.{rlp_encode-Panics}
use blog_solutions.Rlp.Corrected.Decode as Decode
use blog_solutions.Rlp.Corrected.Decode.Total.{rlp_decode-Returns}
use blog_solutions.Rlp.Original.Encode as OriginalEncode
use blog_solutions.Rlp.Original.Encode.Agrees.{rlp_encode-Corrected}
use blog_solutions.Rlp.Original.Encode.Overflow.{rlp_encode_large}
use blog_solutions.Rlp.Original.Decode as OriginalDecode
use blog_solutions.Rlp.Comparison.{Verdict, rlp_decode-Verdict}
use blog_solutions.Rlp.Panics.{rlp_decode_panics}
use blog_solutions.Rlp.Numbers.{unsigned_binary-to_binary, decode_length-to_binary}
use blog_solutions.Rlp.RoundTrip.{
  rlp_encode_iff, rlp_decode-rlp_encode, rlp_encode-injective, rlp_decode_truncated,
  original_round_trip,
}

-- ["dog", 1024, []]
abbrev sample : Value
sample = slice_of (
    value (string (0x64 ∷ 0x6f ∷ 0x67 ∷ []))
      (value (number int (pos 1024)) (value (slice_of no_values) no_values)))

abbrev sample_bytes : Bytes
sample_bytes = 0xc8 ∷ 0x83 ∷ 0x64 ∷ 0x6f ∷ 0x67 ∷ 0x82 ∷ 0x04 ∷ 0x00 ∷ 0xc0 ∷ []

sample_encoded : Encode.rlp_encode sample ≡ ok sample_bytes
unfolding Encode.rlp_encode encode_bytes encode_length is_single_byte is_integer_kind
    Encode.to_uint64 Encode.encode_number Encode.encode_integer Encode.unsigned_binary Encode.fill
sample_encoded = refl

sample_encoded_original : OriginalEncode.rlp_encode sample ≡ ok sample_bytes
unfolding OriginalEncode.rlp_encode encode_bytes encode_length is_single_byte is_integer_kind
    OriginalEncode.to_int OriginalEncode.encode_number OriginalEncode.encode_integer to_binary
    write_bytes lt_wf dec_lt
sample_encoded_original = refl

sample-IsBelow : IsBelow (2 ^ 64) sample
unfolding IsBelow
sample-IsBelow = (tt, (omega arith, (tt, tt)))

-- The same with the bytes of the number in its place.
abbrev sample_of_bytes : Value
sample_of_bytes = slice_of (
    value (string (0x64 ∷ 0x6f ∷ 0x67 ∷ []))
      (value (byte_slice (0x04 ∷ 0x00 ∷ [])) (value (slice_of no_values) no_values)))

sample_of_bytes_encoded : Encode.rlp_encode sample_of_bytes ≡ ok sample_bytes
unfolding Encode.rlp_encode encode_bytes encode_length is_single_byte
sample_of_bytes_encoded = refl

sample_of_bytes-IsBelow : IsBelow (2 ^ 64) sample_of_bytes
unfolding IsBelow
sample_of_bytes-IsBelow = (tt, (tt, (tt, tt)))

-- The empty string is one byte, and the empty list another.
empty_decoded : Decode.rlp_decode (0xc0 ∷ []) ≡ ok (list nil)
unfolding Decode.rlp_decode Decode.decode_item Decode.short_list Decode.decode_list slice
empty_decoded = refl

-- A long string of 56 bytes.
long_decoded : Decode.rlp_decode (0xb8 ∷ 56 ∷ replicate 56 1) ≡ ok (bytes (replicate 56 1))
unfolding Decode.rlp_decode Decode.decode_item Decode.long_string Decode.decode_length
    Decode.shift_in slice
long_decoded = refl

trailing_rejected : Decode.rlp_decode (0x80 ∷ 0x80 ∷ []) ≡ err trailing_bytes
unfolding Decode.rlp_decode Decode.decode_item Decode.short_string slice
trailing_rejected = refl

-- The decoders accept a form that the encoders never write.
padded_accepted : Decode.rlp_decode (0x81 ∷ 0x05 ∷ []) ≡ ok (bytes (0x05 ∷ []))
unfolding Decode.rlp_decode Decode.decode_item Decode.short_string slice
padded_accepted = refl

abbrev eight_ff : Bytes
eight_ff = 0xff ∷ 0xff ∷ 0xff ∷ 0xff ∷ 0xff ∷ 0xff ∷ 0xff ∷ 0xff ∷ []

abbrev negative : Value
negative = slice_of (value (number int (negsuc 0)) no_values)

negative-meaning : meaning negative ≡ none
unfolding meaning is_integer_kind
negative-meaning = refl

rlp_encode_iff_example :
    (Encode.rlp_encode sample ≡ ok sample_bytes)
    ↔ ((x : Item) × (meaning sample ≡ some x) × (sample_bytes ≡ rlp x))
rlp_encode_iff_example = rlp_encode_iff sample sample_bytes sample-IsBelow (omega arith)

rlp_decode-rlp_encode_example :
    (x : Item) × (meaning sample ≡ some x) × (Decode.rlp_decode sample_bytes ≡ ok x)
rlp_decode-rlp_encode_example =
    rlp_decode-rlp_encode sample sample_bytes sample-IsBelow (omega arith) sample_encoded

rlp_encode-injective_example : meaning sample ≡ meaning sample_of_bytes
rlp_encode-injective_example =
    rlp_encode-injective sample sample_of_bytes sample_bytes sample-IsBelow sample_of_bytes-IsBelow
      (omega arith) sample_encoded sample_of_bytes_encoded

rlp_decode_truncated_example :
    (e : DecodeError) × (Decode.rlp_decode (0xc8 ∷ 0x83 ∷ 0x64 ∷ []) ≡ err e)
rlp_decode_truncated_example =
    rlp_decode_truncated sample (0xc8 ∷ 0x83 ∷ 0x64 ∷ []) (0x67 ∷ 0x82 ∷ 0x04 ∷ 0x00 ∷ 0xc0 ∷ [])
      0x6f sample-IsBelow (omega arith) sample_encoded

original_round_trip_example :
    (x : Item) × (meaning sample ≡ some x) × (OriginalDecode.rlp_decode sample_bytes ≡ ok x)
original_round_trip_example =
    original_round_trip sample sample_bytes sample-IsBelow (omega arith) (omega arith)
      sample_encoded_original

rlp_encode-Panics_example : (p : Panic) × (Encode.rlp_encode negative ≡ panic p)
rlp_encode-Panics_example = rlp_encode-Panics negative negative-meaning

rlp_decode-Returns_example : Returns (Decode.rlp_decode (0xbf ∷ eight_ff))
rlp_decode-Returns_example = rlp_decode-Returns (0xbf ∷ eight_ff)

rlp_decode-Verdict_example :
    Verdict (Decode.rlp_decode (0xbf ∷ eight_ff)) (OriginalDecode.rlp_decode (0xbf ∷ eight_ff))
rlp_decode-Verdict_example = rlp_decode-Verdict (0xbf ∷ eight_ff) (omega arith) (omega arith)

eight_ff_huge : 2 ^ 63 ≤ from_bytes 0 eight_ff
unfolding from_bytes
eight_ff_huge = omega arith

rlp_decode_panics_example :
    (OriginalDecode.rlp_decode (0xbf ∷ (eight_ff ++ [])) ≡ panic slice_bounds)
    × (Decode.rlp_decode (0xbf ∷ (eight_ff ++ [])) ≡ err declared_length_exceeds)
rlp_decode_panics_example =
    rlp_decode_panics 0xbf eight_ff [] refl (omega arith) (omega (arith, eight_ff_huge))
      (omega arith) (inl refl)

rlp_encode_large_example :
    (OriginalEncode.rlp_encode (number uint64 (pos (2 ^ 63))) ≡ panic negative_integer)
    × (Encode.rlp_encode (number uint64 (pos (2 ^ 63))) ≡ ok (0x88 ∷ big_endian 8 (2 ^ 63)))
rlp_encode_large_example = rlp_encode_large uint64 (2 ^ 63) tt (omega arith) (omega arith)

rlp_encode-Corrected_example : Encode.rlp_encode sample ≡ ok sample_bytes
rlp_encode-Corrected_example =
    rlp_encode-Corrected sample sample_bytes sample-IsBelow sample_encoded_original

unsigned_binary-to_binary_example :
    Encode.unsigned_binary (2 ^ 63) ≡ ok (big_endian 8 (2 ^ 63))
    × (to_binary (OriginalEncode.int_of_uint (pos (2 ^ 63)))
        ≡ (if ltb (2 ^ 63) (2 ^ 63) then big_endian 8 (2 ^ 63) else []))
unsigned_binary-to_binary_example = unsigned_binary-to_binary (2 ^ 63) (omega arith)

decode_length-to_binary_example :
    (OriginalDecode.decode_length (to_binary (pos 1024)) ≡ 1024)
    × (Decode.decode_length (to_binary (pos 1024)) 2000 ≡ ok 1024)
decode_length-to_binary_example = decode_length-to_binary 1024 2000 (omega arith)
