-- ===== src/Rlp/Numbers.antt =====
-- The loops that write numbers and the loops that read lengths, against one another.
use blog_solutions.Prelude.{
  refl, inr, inl, Bool-cases, arith, ℕ, pos, ◌<◌, ◌^◌, ◌≡◌, ◌∙◌, ok, err, ltb, if◌then◌else◌,
  append-nil, [],
}
use blog_solutions.Rlp.Item.{declared_length_exceeds}
use blog_solutions.Rlp.Header.{to_binary}
use blog_solutions.Rlp.Original.Encode.{int_of_uint}
use blog_solutions.Rlp.Header.Laws.{to_binary-big_endian}
use blog_solutions.Rlp.BigEndian.{big_endian, from_bytes, from_bytes-big_endian, big_endian-IsByte}
use blog_solutions.Rlp.Corrected.Encode.{unsigned_binary}
use blog_solutions.Rlp.Corrected.Encode.Refines.{fill-big_endian}
use blog_solutions.Rlp.Corrected.Decode as Corrected
use blog_solutions.Rlp.Corrected.Decode.{Decoded}
use blog_solutions.Rlp.Corrected.Decode.Reads.{shift_in-from_bytes}
use blog_solutions.Rlp.Original.Decode as Original
use blog_solutions.Rlp.Matches.{Original-shift_in}

int_bytes :
    (n : ℕ)
    → n < 2 ^ 64
    → to_binary (int_of_uint (pos n)) ≡ (if ltb n (2 ^ 63) then big_endian 8 n else [])
unfolding int_of_uint to_binary
int_bytes n h = elim (Bool-cases (ltb n (2 ^ 63))) [
  | inl e ↦ rw e (to_binary-big_endian n h)
  | inr e ↦ rw e refl
]

-- On every number of 64 bits `unsignedBinary` returns, and writes the number's digits to the base
-- 256, the highest first and without leading zeros. `toBinary` of the number converted to an `int`
-- writes the same digits below 2 ^ 63, and from there on, where the `int` is negative, it writes
-- nothing.
pub unsigned_binary-to_binary :
    (n : ℕ)
    → n < 2 ^ 64
    → (unsigned_binary n ≡ ok (big_endian 8 n))
      × (to_binary (int_of_uint (pos n)) ≡ (if ltb n (2 ^ 63) then big_endian 8 n else []))
unfolding unsigned_binary
unsigned_binary-to_binary n h = (fill-big_endian 8 n [] h ∙ rw append-nil, int_bytes n h)

-- `decodeLength` of the bytes that `toBinary` writes for a number that is no negative `int`: the
-- original reads the number, and the corrected one reads it where it is available and reports it
-- where it is not.
pub decode_length-to_binary :
    (n available : ℕ)
    → n < 2 ^ 63
    → (Original.decode_length (to_binary (pos n)) ≡ n)
      × (Corrected.decode_length (to_binary (pos n)) available
          ≡ (if ltb available n then err declared_length_exceeds else ok n))
unfolding Original.decode_length Corrected.decode_length
decode_length-to_binary n available k =
    let h : n < 2 ^ 64 = omega arith in
    let bs = big_endian 8 n in
    let e : from_bytes 0 bs ≡ n = from_bytes-big_endian 8 n h in
    let b = big_endian-IsByte 8 n in
    rw (to_binary-big_endian n h)
      (Original-shift_in 0 bs b (rw e h) ∙ e, rw (shift_in-from_bytes 0 bs b (rw e h) ∙ e))
