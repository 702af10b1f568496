-- ===== src/Rlp/Corrected/Decode/RoundTrip.antt =====
-- The corrected decoder reads back what the specification writes.
use blog_solutions.Prelude.{
  ℕ, zero, suc, ◌+◌, ◌^◌, ◌<◌, ◌≤◌, ◌≡◌, refl, ap, [], ◌∷◌, ◌++◌, length, length-append,
  append_assoc, append-nil, drop, ltb, arith, ok, Bool-cases, inl, inr, ltb→lt, word, drop-append,
}
use blog_solutions.Rlp.Item.{Bytes, Item, Items, bytes, list, nil, cons, DecodeError}
use blog_solutions.Slices.{slice_within, slice_from_within}
use blog_solutions.Rlp.BigEndian.{big_endian, length-big_endian, big_endian_pos}
use blog_solutions.Rlp.Spec.{
  header, rlp_bytes, rlp, rlp_items, length-rlp_pos, length-rlp_bytes, length-rlp_list,
}
use blog_solutions.Rlp.Corrected.Decode.{Decoded, decode_item, decode_list, rlp_decode}
use blog_solutions.Rlp.Corrected.Decode.Reads.{
  short_string_reads, short_list_reads, long_string_reads, long_list_reads,
}

header_string_reads :
    (dl : Bytes → Decoded Items) (b rest : Bytes)
    → length b < word
    → decode_item dl (header (length b) 0x80 ++ (b ++ rest))
      ≡ ok (bytes b, length (header (length b) 0x80) + length b)
unfolding header decode_item
header_string_reads dl b rest h = elim (Bool-cases (ltb (length b) 56)) [
  | inl e ↦ rw e (ground (arith, short_string_reads (length b + 0x80) b rest refl))
  | inr e ↦ rw e (
      ground (
        arith,
        big_endian_pos 7 (length b),
        length-big_endian 8 (length b),
        long_string_reads (length (big_endian 8 (length b)) + 0x80 + 55) b rest,
      ))
]

header_list_reads :
    (dl : Bytes → Decoded Items) (b rest : Bytes) (xs : Items)
    → length b < word
    → dl b ≡ ok xs
    → decode_item dl (header (length b) 0xc0 ++ (b ++ rest))
      ≡ ok (list xs, length (header (length b) 0xc0) + length b)
unfolding header decode_item
header_list_reads dl b rest xs h d = elim (Bool-cases (ltb (length b) 56)) [
  | inl e ↦ rw e (ground (arith, short_list_reads dl (length b + 0xc0) b rest xs refl d))
  | inr e ↦ rw e (
      ground (
        arith,
        big_endian_pos 7 (length b),
        length-big_endian 8 (length b),
        long_list_reads dl (length (big_endian 8 (length b)) + 0xc0 + 55) b rest xs,
      ))
]

single_byte_reads :
    (dl : Bytes → Decoded Items) (b : ℕ) (rest : Bytes)
    → b < 0x80
    → decode_item dl (b ∷ rest) ≡ ok (bytes (b ∷ []), 1)
unfolding decode_item
single_byte_reads dl b rest h = ground (arith, slice_within {E = DecodeError} (b ∷ rest) 0 1)

rlp_bytes_reads :
    (dl : Bytes → Decoded Items) (b rest : Bytes)
    → length b < word
    → decode_item dl (rlp_bytes b ++ rest) ≡ ok (bytes b, length (rlp_bytes b))
unfolding rlp_bytes
rlp_bytes_reads dl [] rest h =
    rw (append-nil, header_string_reads dl [] rest h)
      (ap (λ (n : ℕ). ok (bytes [], n)) (omega arith))
rlp_bytes_reads dl (b ∷ []) rest h = elim (Bool-cases (ltb b 0x80)) [
  | inl e ↦ rw e (single_byte_reads dl b rest (ltb→lt _ _ e))
  | inr e ↦ rw (
    e,
    append_assoc (header 1 0x80) (b ∷ []) rest,
    header_string_reads dl (b ∷ []) rest h,
    length-append (header 1 0x80) (b ∷ []),
  )
]
rlp_bytes_reads dl (b ∷ c ∷ bs) rest h =
    let s : Bytes = b ∷ c ∷ bs in
    rw (
      append_assoc (header (length s) 0x80) s rest,
      header_string_reads dl s rest h,
      length-append (header (length s) 0x80) s,
    )

decode_list_step :
    (fuel : ℕ) (input : Bytes) (x : Item) (c : ℕ) (xs : Items)
    → decode_item (decode_list fuel) input ≡ ok (x, c)
    → c ≤ length input
    → decode_list fuel (drop c input) ≡ ok xs
    → decode_list (suc fuel) input ≡ ok (cons x xs)
unfolding decode_list
decode_list_step fuel [] x c xs e h d = unfold decode_item in cc
decode_list_step fuel (b ∷ bs) x c xs e h d = rw (e, slice_from_within (b ∷ bs) c h, d)

decode_list_nil : (fuel : ℕ) → decode_list (suc fuel) [] ≡ ok nil
unfolding decode_list
decode_list_nil fuel = refl

mutual
  unfolding rlp

  decode_item-rlp :
      (x : Item) (fuel : ℕ) (rest : Bytes)
      → length (rlp x) ≤ fuel
      → length (rlp x) < word
      → decode_item (decode_list fuel) (rlp x ++ rest) ≡ ok (x, length (rlp x))
  decode_item-rlp (bytes b) fuel rest hf h =
      rlp_bytes_reads (decode_list fuel) b rest (omega (arith, length-rlp_bytes b))
  decode_item-rlp (list xs) fuel rest hf h = rw (
    append_assoc (header (length (rlp_items xs)) 0xc0) (rlp_items xs) rest,
    header_list_reads (decode_list fuel) (rlp_items xs) rest xs (omega (arith, length-rlp_list xs))
        (decode_list-rlp_items xs fuel (omega (arith, length-rlp_list xs))
          (omega (arith, length-rlp_list xs))),
    length-append (header (length (rlp_items xs)) 0xc0) (rlp_items xs),
  )

  decode_list-rlp_items :
      (xs : Items) (fuel : ℕ)
      → length (rlp_items xs) < fuel
      → length (rlp_items xs) < word
      → decode_list fuel (rlp_items xs) ≡ ok xs
  decode_list-rlp_items xs zero hf h = elim hf [ ]
  decode_list-rlp_items nil (suc fuel) hf h = decode_list_nil fuel
  decode_list-rlp_items (cons x xs) (suc fuel) hf h =
      let l : length (rlp x ++ rlp_items xs) ≡ length (rlp x) + length (rlp_items xs) =
        length-append (rlp x) (rlp_items xs) in
      decode_list_step fuel (rlp x ++ rlp_items xs) x (length (rlp x)) xs
        (decode_item-rlp x fuel (rlp_items xs) (omega (arith, length-rlp_pos x)) (omega arith))
        (omega arith)
        (rw (drop-append (rlp x) (rlp_items xs))
          (decode_list-rlp_items xs fuel (omega (arith, length-rlp_pos x)) (omega arith)))

pub decode_item-rlp_whole :
    (x : Item)
    → length (rlp x) < word
    → decode_item (decode_list (length (rlp x))) (rlp x) ≡ ok (x, length (rlp x))
decode_item-rlp_whole x h = rw append-nil at (decode_item-rlp x (length (rlp x)) [] (omega arith) h)

-- The decoder reads back every serialised item, and nothing is left behind it.
pub rlp_decode-rlp : (x : Item) → length (rlp x) < 2 ^ 64 → rlp_decode (rlp x) ≡ ok x
unfolding rlp_decode
rlp_decode-rlp x h = rw (decode_item-rlp_whole x h) (ground arith)
