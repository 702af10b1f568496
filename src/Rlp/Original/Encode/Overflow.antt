-- ===== src/Rlp/Original/Encode/Overflow.antt =====
-- Unsigned numbers that a signed 64-bit integer does not hold.
use blog_solutions.Prelude.{
  ℕ, ◌<◌, ◌≤◌, ◌^◌, ◌≡◌, refl, [], ◌∷◌, length, arith, ok, panic, negative_integer, pos, true,
}
use blog_solutions.Rlp.Item.{Bytes}
use blog_solutions.Rlp.Value.{Kind, uint, uint8, uint16, uint32, uint64, number, other_kind}
use blog_solutions.Rlp.Header.{is_integer_kind}
use blog_solutions.Rlp.BigEndian.{big_endian, length-big_endian_full}
use blog_solutions.Rlp.Spec.{header, rlp_bytes}
use blog_solutions.Rlp.Corrected.Encode as Corrected
use blog_solutions.Rlp.Corrected.Encode.Refines.{encode_kind-rlp_bytes}
use blog_solutions.Rlp.Original.Encode as Original
use blog_solutions.Rlp.Original.Encode.Agrees.{IsUnsigned, encode_uint_large}

IsUnsigned-integer : (k : Kind) → IsUnsigned k → is_integer_kind k ≡ true
unfolding is_integer_kind
IsUnsigned-integer other_kind h = absurd h
IsUnsigned-integer _ h = refl

rlp_bytes_eight : (b : Bytes) → length b ≡ 8 → rlp_bytes b ≡ 0x88 ∷ b
unfolding rlp_bytes header
rlp_bytes_eight [] h = absurd (omega arith)
rlp_bytes_eight (x ∷ []) h = absurd (omega arith)
rlp_bytes_eight (x ∷ y ∷ bs) h = rw h

original :
    (k : Kind) (n : ℕ)
    → IsUnsigned k
    → 2 ^ 63 ≤ n
    → Original.rlp_encode (number k (pos n)) ≡ panic negative_integer
unfolding Original.rlp_encode Original.to_int is_integer_kind
original uint n h a = encode_uint_large n a
original uint8 n h a = encode_uint_large n a
original uint16 n h a = encode_uint_large n a
original uint32 n h a = encode_uint_large n a
original uint64 n h a = encode_uint_large n a
original _ n h a = absurd h

corrected :
    (k : Kind) (n : ℕ)
    → IsUnsigned k
    → 2 ^ 63 ≤ n
    → n < 2 ^ 64
    → Corrected.rlp_encode (number k (pos n)) ≡ ok (0x88 ∷ big_endian 8 n)
unfolding Corrected.rlp_encode
corrected k n h a b =
    rw
      (
        IsUnsigned-integer k h,
        ← (rlp_bytes_eight (big_endian 8 n) (length-big_endian_full 7 n (omega arith) b)),
      )
      (encode_kind-rlp_bytes k n (IsUnsigned-integer k h) b)

-- On an unsigned number from 2 ^ 63 to 2 ^ 64 - 1 the original `RlpEncode` panics as on a negative
-- one, and the corrected one writes 0x88 and the eight bytes of the number.
pub rlp_encode_large :
    (k : Kind) (n : ℕ)
    → IsUnsigned k
    → 2 ^ 63 ≤ n
    → n < 2 ^ 64
    → (Original.rlp_encode (number k (pos n)) ≡ panic negative_integer)
      × (Corrected.rlp_encode (number k (pos n)) ≡ ok (0x88 ∷ big_endian 8 n))
rlp_encode_large k n h a b = (original k n h a, corrected k n h a b)
