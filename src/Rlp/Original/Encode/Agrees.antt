-- ===== src/Rlp/Original/Encode/Agrees.antt =====
-- The original encoder against the corrected one.
use blog_solutions.Prelude.{
  ℕ, zero, suc, ◌<◌, ◌≤◌, ◌^◌, ◌≡◌, refl, inl, inr, ltb, ge→ltb, ltb→lt, ltb→le, ℤ, true, false,
  if◌then◌else◌, [], arith, ok, panic, ◌>>=◌, both_ok, negative_integer, unsupported_type, pos,
  negsuc, sign_bit, Bool, Bool-cases,
}
use blog_solutions.Rlp.Item.{Bytes}
use blog_solutions.Rlp.Value.{
  Kind, uint, uint8, uint16, uint32, uint64, Value, Values, string, byte_slice, slice_of, number,
  unsupported, no_values, value, IsBelow, AreBelow, other_kind,
}
use blog_solutions.Rlp.Header.{Encoded, is_integer_kind}
use blog_solutions.Rlp.Header.Laws.{to_binary-big_endian}
use blog_solutions.Rlp.Corrected.Encode as Corrected
use blog_solutions.Rlp.Corrected.Encode.Refines.{fill-big_endian}
use blog_solutions.Rlp.Original.Encode as Original
use mathlib.Core.List.{append-nil}

-- A number from 1 on is written alike.
encode_number_pos :
    (n : ℕ) → n < 2 ^ 64 → Original.encode_number (pos n) ≡ Corrected.encode_number n
unfolding Original.encode_number Corrected.encode_number
encode_number_pos zero h = refl
encode_number_pos (suc n) h =
    unfold Original.encode_integer Corrected.encode_integer Corrected.unsigned_binary in
    rw (fill-big_endian 8 (suc n) [] h, append-nil, to_binary-big_endian (suc n) h)

-- A kind of unsigned integers.
abbrev pub IsUnsigned : Kind → Type 0
IsUnsigned uint = Unit
IsUnsigned uint8 = Unit
IsUnsigned uint16 = Unit
IsUnsigned uint32 = Unit
IsUnsigned uint64 = Unit
IsUnsigned _ = ⊥

int_of_uint_small : (n : ℕ) → n < sign_bit → Original.int_of_uint (pos n) ≡ pos n
unfolding Original.int_of_uint
int_of_uint_small n h = ground arith

pub encode_uint_large :
    (n : ℕ)
    → sign_bit ≤ n
    → Original.encode_number (Original.int_of_uint (pos n)) ≡ panic negative_integer
unfolding Original.int_of_uint Original.encode_number Original.encode_integer
encode_uint_large n h = rw (ge→ltb n sign_bit h)

encode_unsigned :
    (n : ℕ) (b : Bytes)
    → n < 2 ^ 64
    → Original.encode_number (Original.int_of_uint (pos n)) ≡ ok b
    → Corrected.encode_number n ≡ ok b
encode_unsigned n b h e = elim (Bool-cases (ltb n sign_bit)) [
  | inl t ↦ cc (encode_number_pos n h, int_of_uint_small n (ltb→lt _ _ t))
  | inr t ↦ cc (encode_uint_large n (ltb→le _ _ t))
]

encode_negsuc : (n : ℕ) → Original.encode_number (negsuc n) ≡ panic negative_integer
unfolding Original.encode_number Original.encode_integer
encode_negsuc n = refl

-- The cases of a number of an integer kind: both encoders take the kind first.
encode_kind :
    (k : Kind) (z : ℤ) (b : Bytes)
    → IsBelow (2 ^ 64) (number k z)
    → (do m ← Original.to_int k z; Original.encode_number m) ≡ ok b
    → (do m ← Corrected.to_uint64 k z; Corrected.encode_number m) ≡ ok b
unfolding IsBelow Original.to_int Corrected.to_uint64
encode_kind other_kind z b h e = cc
encode_kind uint (pos n) b h e = encode_unsigned n b h e
encode_kind uint8 (pos n) b h e = encode_unsigned n b h e
encode_kind uint16 (pos n) b h e = encode_unsigned n b h e
encode_kind uint32 (pos n) b h e = encode_unsigned n b h e
encode_kind uint64 (pos n) b h e = encode_unsigned n b h e
encode_kind _ (pos n) b h e = cc (encode_number_pos n h)
encode_kind uint (negsuc n) b h e = unfold Original.int_of_uint in cc (encode_negsuc n)
encode_kind uint8 (negsuc n) b h e = unfold Original.int_of_uint in cc (encode_negsuc n)
encode_kind uint16 (negsuc n) b h e = unfold Original.int_of_uint in cc (encode_negsuc n)
encode_kind uint32 (negsuc n) b h e = unfold Original.int_of_uint in cc (encode_negsuc n)
encode_kind uint64 (negsuc n) b h e = unfold Original.int_of_uint in cc (encode_negsuc n)
encode_kind _ (negsuc n) b h e = cc (encode_negsuc n)

encode_if :
    (t : Bool) (m n : Encoded Bytes) (b : Bytes)
    → (m ≡ ok b → n ≡ ok b)
    → (if t then m else panic unsupported_type) ≡ ok b
    → (if t then n else panic unsupported_type) ≡ ok b
encode_if true m n b h e = h e
encode_if false m n b h e = cc

mutual
  unfolding Original.rlp_encode Corrected.rlp_encode IsBelow

  rlp_encode_agrees :
      (v : Value) (b : Bytes)
      → IsBelow (2 ^ 64) v
      → Original.rlp_encode v ≡ ok b
      → Corrected.rlp_encode v ≡ ok b
  rlp_encode_agrees (string text) b h e = e
  rlp_encode_agrees (byte_slice text) b h e = e
  rlp_encode_agrees (slice_of vs) b h e =
      let (out, p, q) = both_ok (Original.encode_elements vs) _ e in
      rw (encode_elements_agrees vs out h p) q
  rlp_encode_agrees (number k z) b h e = encode_if (is_integer_kind k) _ _ b (encode_kind k z b h) e
  rlp_encode_agrees unsupported b h e = cc

  encode_elements_agrees :
      (vs : Values) (b : Bytes)
      → AreBelow (2 ^ 64) vs
      → Original.encode_elements vs ≡ ok b
      → Corrected.encode_elements vs ≡ ok b
  encode_elements_agrees no_values b h e = e
  encode_elements_agrees (value v vs) b h e =
      let (front, p, q) = both_ok (Original.rlp_encode v) _ e in
      let (back, r, s) = both_ok (Original.encode_elements vs) _ q in
      rw (rlp_encode_agrees v front h.0 p, encode_elements_agrees vs back h.1 r) s

-- Whatever the original `RlpEncode` returns for a value whose numbers have 64 bits, the corrected
-- one returns too.
pub rlp_encode-Corrected :
    (v : Value) (b : Bytes)
    → IsBelow (2 ^ 64) v
    → Original.rlp_encode v ≡ ok b
    → Corrected.rlp_encode v ≡ ok b
rlp_encode-Corrected = rlp_encode_agrees
