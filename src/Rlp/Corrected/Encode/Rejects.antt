-- ===== src/Rlp/Corrected/Encode/Rejects.antt =====
-- The values that the corrected encoder refuses.
use blog_solutions.Prelude.{
  ℕ, ◌≡◌, ◌≢◌, inl, inr, refl, ℤ, pos, negsuc, Bool, true, false, if◌then◌else◌, ok, err, panic,
  out_of_fuel, ◌>>=◌, Panic, none, unsupported_type, arith, Outcome, [], Bool-cases, length, zero,
  suc,
}
use blog_solutions.Rlp.Item.{Bytes}
use blog_solutions.Rlp.Value.{
  Kind, other_kind, Value, Values, string, byte_slice, slice_of, number, unsupported, no_values,
  value,
}
use blog_solutions.Rlp.Header.{
  Encoded, encode_length, encode_bytes, is_integer_kind, is_single_byte,
}
use blog_solutions.Rlp.Spec.{meaning, meanings, list_item-eq-none, cons_item-eq-none}
use blog_solutions.Rlp.Corrected.Encode.{
  fill, unsigned_binary, encode_integer, to_uint64, encode_number, rlp_encode, encode_elements,
}
use blog_solutions.Rlp.Corrected.Encode.Sound.{to_uint64-negsuc}

-- The call ends with bytes or with a panic.
abbrev Ends : Encoded Bytes → Type 0
Ends (ok b) = Unit
Ends (panic p) = Unit
Ends (err e) = Unit
Ends out_of_fuel = ⊥

abbrev Panics : Encoded Bytes → Type 0
Panics m = (p : Panic) × (m ≡ panic p)

Ends-bind :
    {A : Type 0} (m : Outcome ⊥ A) (f : A → Encoded Bytes)
    → m ≢ out_of_fuel
    → ((a : A) → Ends (f a))
    → Ends (m >>= f)
Ends-bind (ok a) f h k = k a
Ends-bind (err e) f h k = tt
Ends-bind (panic p) f h k = tt
Ends-bind out_of_fuel f h k = h refl

Ends-ne : (m : Encoded Bytes) → Ends m → m ≢ out_of_fuel
Ends-ne (ok b) h = cc
Ends-ne (err e) h = cc
Ends-ne (panic p) h = cc
Ends-ne out_of_fuel h = absurd h

Ends-if : (t : Bool) (m n : Encoded Bytes) → Ends m → Ends n → Ends (if t then m else n)
Ends-if true m n h k = h
Ends-if false m n h k = k

encode_length-Ends : (len offset : ℕ) → Ends (encode_length len offset)
unfolding encode_length
encode_length-Ends len offset = ground arith

encode_bytes-Ends : (b : Bytes) → Ends (encode_bytes b)
unfolding encode_bytes
encode_bytes-Ends b = Ends-if (is_single_byte b) _ _ tt (
    Ends-bind (encode_length (length b) 0x80) _ (Ends-ne _ (encode_length-Ends (length b) 0x80))
      (λ head. tt))

fill-Ends : (room n : ℕ) (buf : Bytes) → Ends (fill room n buf)
unfolding fill
fill-Ends zero zero buf = tt
fill-Ends zero (suc n) buf = tt
fill-Ends (suc room) zero buf = tt
fill-Ends (suc room) (suc n) buf = fill-Ends room _ _

encode_number-Ends : (n : ℕ) → Ends (encode_number n)
unfolding encode_number encode_integer unsigned_binary
encode_number-Ends zero = tt
encode_number-Ends (suc n) =
    Ends-bind (fill 8 (suc n) []) encode_bytes (Ends-ne _ (fill-Ends 8 (suc n) []))
      encode_bytes-Ends

to_uint64-ne : (k : Kind) (z : ℤ) → to_uint64 k z ≢ out_of_fuel
unfolding to_uint64
to_uint64-ne other_kind z = cc
to_uint64-ne _ (pos n) = cc
to_uint64-ne _ (negsuc n) = cc

mutual
  unfolding rlp_encode

  rlp_encode-Ends : (v : Value) → Ends (rlp_encode v)
  rlp_encode-Ends (string text) = encode_bytes-Ends text
  rlp_encode-Ends (byte_slice b) = encode_bytes-Ends b
  rlp_encode-Ends (slice_of vs) =
      Ends-bind (encode_elements vs) _ (Ends-ne _ (encode_elements-Ends vs)) λ out.
        Ends-bind (encode_length (length out) 0xc0) _
          (Ends-ne _ (encode_length-Ends (length out) 0xc0)) (λ head. tt)
  rlp_encode-Ends (number k z) =
      Ends-if (is_integer_kind k) _ _
        (Ends-bind (to_uint64 k z) _ (to_uint64-ne k z) encode_number-Ends) tt
  rlp_encode-Ends unsupported = tt

  encode_elements-Ends : (vs : Values) → Ends (encode_elements vs)
  encode_elements-Ends no_values = tt
  encode_elements-Ends (value v vs) =
      Ends-bind (rlp_encode v) _ (Ends-ne _ (rlp_encode-Ends v))
        λ front. Ends-bind (encode_elements vs) _ (Ends-ne _ (encode_elements-Ends vs)) (λ back. tt)

Panics-bind : (m : Encoded Bytes) (f : Bytes → Encoded Bytes) → Panics m → Panics (m >>= f)
Panics-bind m f (p, e) = (p, rw e)

Panics-then :
    (m : Encoded Bytes) (f : Bytes → Encoded Bytes)
    → Ends m
    → ((b : Bytes) → Panics (f b))
    → Panics (m >>= f)
Panics-then (ok b) f h k = k b
Panics-then (err e) f h k = absurd e
Panics-then (panic p) f h k = (p, refl)
Panics-then out_of_fuel f h k = absurd h

number-Panics : (k : Kind) (z : ℤ) → meaning (number k z) ≡ none → Panics (rlp_encode (number k z))
unfolding meaning rlp_encode
number-Panics k (pos n) e = elim (Bool-cases (is_integer_kind k)) [
  | inl t ↦ absurd (ground arith)
  | inr t ↦ (unsupported_type, rw t)
]
number-Panics k (negsuc n) e = elim (Bool-cases (is_integer_kind k)) [
  | inl t ↦ let (p, q) = to_uint64-negsuc k n in (p, rw (t, q))
  | inr t ↦ (unsupported_type, rw t)
]

mutual
  unfolding meaning rlp_encode

  rlp_encode-none : (v : Value) → meaning v ≡ none → Panics (rlp_encode v)
  rlp_encode-none (string text) e = cc
  rlp_encode-none (byte_slice b) e = cc
  rlp_encode-none (slice_of vs) e =
      Panics-bind (encode_elements vs) _
        (encode_elements-none vs (list_item-eq-none (meanings vs) e))
  rlp_encode-none (number k z) e = number-Panics k z e
  rlp_encode-none unsupported e = (unsupported_type, refl)

  encode_elements-none : (vs : Values) → meanings vs ≡ none → Panics (encode_elements vs)
  encode_elements-none no_values e = cc
  encode_elements-none (value v vs) e = elim (cons_item-eq-none (meaning v) (meanings vs) e) [
    | inl h ↦ Panics-bind (rlp_encode v) _ (rlp_encode-none v h)
    | inr h ↦
        Panics-then (rlp_encode v) _ (rlp_encode-Ends v)
          λ front. Panics-bind (encode_elements vs) _ (encode_elements-none vs h)
  ]

-- The corrected `RlpEncode` panics on every value that denotes no item: one that is, or holds at
-- some depth, a negative number or a value of an unsupported type.
pub rlp_encode-Panics : (v : Value) → meaning v ≡ none → (p : Panic) × (rlp_encode v ≡ panic p)
rlp_encode-Panics = rlp_encode-none
