-- ===== src/Rlp/Corrected/Encode/Sound.antt =====
-- What the corrected encoder writes is the serialisation of what its argument denotes.
use blog_solutions.Prelude.{
  ℕ, ◌<◌, ◌≤◌, ◌^◌, ◌≡◌, refl, sym, ap, ℤ, true, Bool-cases, inl, inr, [], ◌++◌, length,
  length-append, arith, ok, panic, ◌>>=◌, both_ok, Panic, not_integer_kind, negative_integer, Bool,
  false, if◌then◌else◌, some, Option, pos, negsuc,
}
use blog_solutions.Rlp.Item.{Bytes, Item, Items, bytes, list, nil, cons}
use blog_solutions.Rlp.Value.{
  Kind, Value, Values, string, byte_slice, slice_of, number, unsupported, no_values, value, IsBelow,
  AreBelow, other_kind,
}
use blog_solutions.Rlp.Header.{
  Encoded, encode_length, encode_bytes, is_integer_kind, is_single_byte,
}
use blog_solutions.Rlp.Header.Laws.{encode_length-header, encode_bytes-rlp_bytes}
use blog_solutions.Rlp.BigEndian.{big_endian}
use blog_solutions.Rlp.Spec.{rlp, rlp_items, rlp_bytes, header, meaning, meanings}
use blog_solutions.Rlp.Corrected.Encode.{to_uint64, rlp_encode, encode_elements}
use blog_solutions.Rlp.Corrected.Encode.Refines.{encode_kind-rlp_bytes}

-- `Denotes o f b`: the value denotes an item, and `f` of it is `b`.
abbrev Denotes : Option Item → Bytes → Type 0
Denotes o b = (x : Item) × (o ≡ some x) × (b ≡ rlp x)

ok-injective : (a b : Bytes) → ◌≡◌ {A = Encoded Bytes} (ok a) (ok b) → a ≡ b
ok-injective a b e = cc

payload_long :
    (single : Bool) (m : Encoded Bytes) (text b : Bytes)
    → (if single then ok text else (do head ← m; ok (head ++ text))) ≡ ok b
    → length text ≤ length b
payload_long true m text b e = omega (arith, ap length (ok-injective text b e))
payload_long false m text b e =
    let (head, p, q) = both_ok m _ e in
    omega (arith, length-append head text, ap length (ok-injective (head ++ text) b q))

encode_bytes-long : (text b : Bytes) → encode_bytes text ≡ ok b → length text ≤ length b
unfolding encode_bytes
encode_bytes-long text b e =
    payload_long (is_single_byte text) (encode_length (length text) 0x80) text b e

-- The header and the output of a slice.
slice_sound :
    (out b : Bytes)
    → (do head ← encode_length (length out) 0xc0; ok (head ++ out)) ≡ ok b
    → length b < 2 ^ 64
    → (length out < 2 ^ 64) × (b ≡ header (length out) 0xc0 ++ out)
slice_sound out b e l =
    let (head, p, q) = both_ok (encode_length (length out) 0xc0) _ e in
    let r : head ++ out ≡ b = ok-injective (head ++ out) b q in
    let s : length out < 2 ^ 64 = omega (arith, length-append head out, ap length r) in
    (s, cc (encode_length-header (length out) 0xc0 s (omega arith)))

slice_rlp :
    (out b : Bytes) (xs : Items)
    → out ≡ rlp_items xs
    → b ≡ header (length out) 0xc0 ++ out
    → b ≡ rlp (list xs)
unfolding rlp
slice_rlp out b xs e f = rw (f, e)

parts_short :
    (front back b : Bytes)
    → front ++ back ≡ b
    → length b < 2 ^ 64
    → (length front < 2 ^ 64) × (length back < 2 ^ 64)
parts_short front back b e l = omega (arith, length-append front back, ap length e)

encode_bytes_sound :
    (text b : Bytes) → encode_bytes text ≡ ok b → length b < 2 ^ 64 → b ≡ rlp_bytes text
encode_bytes_sound text b e h =
    let small : length text < 2 ^ 64 = omega (arith, encode_bytes-long text b e) in
    cc (encode_bytes-rlp_bytes text small)

pub to_uint64-negsuc : (k : Kind) (n : ℕ) → (p : Panic) × (to_uint64 k (negsuc n) ≡ panic p)
unfolding to_uint64
to_uint64-negsuc other_kind n = (not_integer_kind, refl)
to_uint64-negsuc _ n = (negative_integer, refl)

number_sound :
    (k : Kind) (z : ℤ) (b : Bytes)
    → rlp_encode (number k z) ≡ ok b
    → IsBelow (2 ^ 64) (number k z)
    → Denotes (meaning (number k z)) b
unfolding rlp_encode meaning rlp IsBelow
number_sound k (pos n) b e h = elim (Bool-cases (is_integer_kind k)) [
  | inl t ↦ (bytes (big_endian 8 n), rw t, ground (arith, encode_kind-rlp_bytes k n t h))
  | inr t ↦ absurd (ground arith)
]
number_sound k (negsuc n) b e h = absurd (ground (arith, to_uint64-negsuc k n))

mutual
  unfolding rlp_encode meaning rlp IsBelow

  rlp_encode_sound_lem :
      (v : Value) (b : Bytes)
      → rlp_encode v ≡ ok b
      → IsBelow (2 ^ 64) v
      → length b < 2 ^ 64
      → Denotes (meaning v) b
  rlp_encode_sound_lem (string text) b e h l = (bytes text, refl, encode_bytes_sound text b e l)
  rlp_encode_sound_lem (byte_slice text) b e h l = (bytes text, refl, encode_bytes_sound text b e l)
  rlp_encode_sound_lem (slice_of vs) b e h l =
      let (out, p, q) = both_ok (encode_elements vs) _ e in
      let (s, t) = slice_sound out b q l in
      let (xs, m, r) = encode_elements_sound vs out p h s in (list xs, rw m, slice_rlp out b xs r t)
  rlp_encode_sound_lem (number k z) b e h l = number_sound k z b e h
  rlp_encode_sound_lem unsupported b e h l = cc

  encode_elements_sound :
      (vs : Values) (b : Bytes)
      → encode_elements vs ≡ ok b
      → AreBelow (2 ^ 64) vs
      → length b < 2 ^ 64
      → (xs : Items) × (meanings vs ≡ some xs) × (b ≡ rlp_items xs)
  encode_elements_sound no_values b e h l = (nil, refl, sym (ok-injective [] b e))
  encode_elements_sound (value v vs) b e h l =
      let (front, p, q) = both_ok (rlp_encode v) _ e in
      let (back, r, s) = both_ok (encode_elements vs) _ q in
      let t : front ++ back ≡ b = ok-injective (front ++ back) b s in
      let (lf, lb) = parts_short front back b t l in
      let (x, mx, ex) = rlp_encode_sound_lem v front p h.0 lf in
      let (xs, mxs, exs) = encode_elements_sound vs back r h.1 lb in (cons x xs, rw (mx, mxs), cc)

-- The bytes that the encoder returns are the serialisation of the item that the value denotes.
pub rlp_encode_sound :
    (v : Value) (b : Bytes)
    → rlp_encode v ≡ ok b
    → IsBelow (2 ^ 64) v
    → length b < 2 ^ 64
    → (x : Item) × (meaning v ≡ some x) × (b ≡ rlp x)
rlp_encode_sound = rlp_encode_sound_lem
