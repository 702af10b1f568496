-- ===== src/Rlp/Corrected/Encode/Refines.antt =====
-- The corrected encoder against the specification.
use blog_solutions.Prelude.{
  ℕ, zero, suc, ◌/◌, ◌%◌, ◌<◌, ◌^◌, ◌≡◌, refl, subst, ◌∙◌, ℤ, append-nil, true, [], ◌∷◌, ◌++◌,
  length, length-append, arith, ok, ◌>>=◌, some, pos, negsuc, append_assoc,
}
use blog_solutions.Rlp.Item.{Bytes, Item, Items, list, nil, cons}
use blog_solutions.Rlp.Value.{
  Kind, Value, Values, string, byte_slice, slice_of, number, unsupported, no_values, value, IsBelow,
  AreBelow, other_kind,
}
use blog_solutions.Rlp.Header.{Encoded, encode_length, is_integer_kind}
use blog_solutions.Rlp.Header.Laws.{encode_length-header, encode_bytes-rlp_bytes}
use blog_solutions.Rlp.BigEndian.{big_endian, length-big_endian, big_endian-suc}
use blog_solutions.Rlp.Spec.{
  rlp, rlp_items, rlp_bytes, header, meaning, meanings, length-rlp_bytes, length-rlp_list,
  list_item-eq-some, cons_item-eq-some,
}
use blog_solutions.Rlp.Corrected.Encode.{
  fill, unsigned_binary, encode_integer, encode_number, to_uint64, rlp_encode, encode_elements,
}
use native.Mathlib.Nat.{pow-suc}
use mathlib.Core.Option.{some-injective}

pub fill-big_endian :
    (k n : ℕ) (buf : Bytes) → n < 256 ^ k → fill k n buf ≡ ok (big_endian k n ++ buf)
unfolding fill
fill-big_endian zero zero buf h = unfold big_endian in refl
fill-big_endian zero (suc n) buf h = absurd (omega arith)
fill-big_endian (suc k) zero buf h = unfold big_endian in refl
fill-big_endian (suc k) (suc n) buf h =
    fill-big_endian k (suc n / 256) ((suc n % 256) ∷ buf) (omega (arith, pow-suc 256 k))
    ∙ rw (big_endian-suc k (suc n) (omega arith), append_assoc)

encode_number-rlp_bytes : (n : ℕ) → n < 2 ^ 64 → encode_number n ≡ ok (rlp_bytes (big_endian 8 n))
unfolding encode_number
encode_number-rlp_bytes zero h = unfold rlp_bytes big_endian header in refl
encode_number-rlp_bytes (suc n) h =
    unfold encode_integer unsigned_binary in
    rw (fill-big_endian 8 (suc n) [] h, append-nil)
      (encode_bytes-rlp_bytes (big_endian 8 (suc n)) (omega (arith, length-big_endian 8 (suc n))))

pub encode_kind-rlp_bytes :
    (k : Kind) (n : ℕ)
    → is_integer_kind k ≡ true
    → n < 2 ^ 64
    → (do m ← to_uint64 k (pos n); encode_number m) ≡ ok (rlp_bytes (big_endian 8 n))
unfolding to_uint64 is_integer_kind
encode_kind-rlp_bytes other_kind n e h = cc
encode_kind-rlp_bytes _ n e h = encode_number-rlp_bytes n h

-- The end of the case of a slice, once its elements are encoded.
encode_slice-rlp :
    (m : Encoded Bytes) (xs : Items)
    → m ≡ ok (rlp_items xs)
    → length (rlp_items xs) < 2 ^ 64
    → (do output ← m; head ← encode_length (length output) 0xc0; ok (head ++ output))
      ≡ ok (rlp (list xs))
unfolding rlp
encode_slice-rlp m xs e h =
    rw (e, encode_length-header (length (rlp_items xs)) 0xc0 h (omega arith))

encode_elements-append :
    (m n : Encoded Bytes) (xs ys : Bytes)
    → m ≡ ok xs
    → n ≡ ok ys
    → (do front ← m; back ← n; ok (front ++ back)) ≡ ok (xs ++ ys)
encode_elements-append m n xs ys p q = rw (p, q)

rlp_encode-number :
    (k : Kind) (z : ℤ) (x : Item)
    → meaning (number k z) ≡ some x
    → IsBelow (2 ^ 64) (number k z)
    → rlp_encode (number k z) ≡ ok (rlp x)
unfolding rlp_encode meaning rlp IsBelow
rlp_encode-number k (pos n) x e b = ground (arith, encode_kind-rlp_bytes k n)
rlp_encode-number k (negsuc n) x e b = ground arith

payload_small :
    (xs : Items) (x : Item) → list xs ≡ x → length (rlp x) < 2 ^ 64 → length (rlp_items xs) < 2 ^ 64
payload_small xs x q h =
    let h' : length (rlp (list xs)) < 2 ^ 64 = rw (← q) at h in omega (arith, length-rlp_list xs)

parts_small :
    (y : Item) (ys xs : Items)
    → cons y ys ≡ xs
    → length (rlp_items xs) < 2 ^ 64
    → (length (rlp y) < 2 ^ 64) × (length (rlp_items ys) < 2 ^ 64)
parts_small y ys xs r h =
    let h' : length (rlp_items (cons y ys)) < 2 ^ 64 = rw (← r) at h in
    unfold rlp in omega (arith, length-append (rlp y) (rlp_items ys))

mutual
  unfolding rlp_encode meaning rlp IsBelow

  rlp_encode_lem :
      (v : Value) (x : Item)
      → meaning v ≡ some x
      → IsBelow (2 ^ 64) v
      → length (rlp x) < 2 ^ 64
      → rlp_encode v ≡ ok (rlp x)
  rlp_encode_lem (string text) x e b h =
      ground (arith, encode_bytes-rlp_bytes text, length-rlp_bytes text)
  rlp_encode_lem (byte_slice text) x e b h =
      ground (arith, encode_bytes-rlp_bytes text, length-rlp_bytes text)
  rlp_encode_lem (slice_of vs) x e b h =
      let (xs, p, q) = list_item-eq-some (meanings vs) x e in
      let small : length (rlp_items xs) < 2 ^ 64 = payload_small xs x q h in
      subst (λ y. rlp_encode (slice_of vs) ≡ ok (rlp y)) q
        (encode_slice-rlp (encode_elements vs) xs (encode_elements_lem vs xs p b small) small)
  rlp_encode_lem (number k z) x e b h = rlp_encode-number k z x e b
  rlp_encode_lem unsupported x e b h = cc

  encode_elements_lem :
      (vs : Values) (xs : Items)
      → meanings vs ≡ some xs
      → AreBelow (2 ^ 64) vs
      → length (rlp_items xs) < 2 ^ 64
      → encode_elements vs ≡ ok (rlp_items xs)
  encode_elements_lem no_values xs e b h =
      subst (λ zs. encode_elements no_values ≡ ok (rlp_items zs)) (some-injective nil xs e) refl
  encode_elements_lem (value v vs) xs e b h =
      let (y, ys, p, q, r) = cons_item-eq-some (meaning v) (meanings vs) xs e in
      let (front, back) = parts_small y ys xs r h in
      subst (λ zs. encode_elements (value v vs) ≡ ok (rlp_items zs)) r
        (encode_elements-append (rlp_encode v) (encode_elements vs) (rlp y) (rlp_items ys)
          (rlp_encode_lem v y p b.0 front) (encode_elements_lem vs ys q b.1 back))

-- A value that denotes an item is encoded as the serialisation of that item.
pub rlp_encode-rlp :
    (v : Value) (x : Item)
    → meaning v ≡ some x
    → IsBelow (2 ^ 64) v
    → length (rlp x) < 2 ^ 64
    → rlp_encode v ≡ ok (rlp x)
rlp_encode-rlp = rlp_encode_lem
