-- ===== src/Rlp/Corrected/Decode/Errors.antt =====
-- Only `RlpDecode` itself reports trailing bytes.
use blog_solutions.Prelude.{
  ℕ, ◌+◌, ◌-◌, zero, suc, [], ◌∷◌, ◌>>=◌, ok, err, panic, out_of_fuel, arith,
}
use blog_solutions.Rlp.Item.{Bytes, Items, DecodeError, trailing_bytes, empty_input}
use blog_solutions.Slices.{slice, slice_from, part}
use blog_solutions.Rlp.Corrected.Decode.{
  Decoded, short_string, long_string, short_list, long_list, decode_item, decode_list,
}
use blog_solutions.Rlp.Corrected.Decode.Forms.{
  short_string_form, short_list_form, long_string_form, long_list_form, declared,
}

abbrev pub NotTrailing {ℓ} : {A : Type ℓ} → Decoded A → Type 0
NotTrailing (err trailing_bytes) = ⊥
NotTrailing _ = Unit

NotTrailing-bind {ℓ κ} :
    {A : Type ℓ} {B : Type κ} (m : Decoded A) (f : A → Decoded B)
    → NotTrailing m
    → ((a : A) → NotTrailing (f a))
    → NotTrailing (m >>= f)
NotTrailing-bind (ok a) f h k = k a
NotTrailing-bind (err trailing_bytes) f h k = h
NotTrailing-bind (err empty_input) f h k = tt
NotTrailing-bind (err _) f h k = tt
NotTrailing-bind (panic p) f h k = tt
NotTrailing-bind out_of_fuel f h k = tt

short_string-NotTrailing : (input : Bytes) (p : ℕ) → NotTrailing (short_string input p)
short_string-NotTrailing input p = rw (short_string_form input p) (ground arith)

long_string-NotTrailing : (input : Bytes) (p : ℕ) → NotTrailing (long_string input p)
long_string-NotTrailing input p = rw (long_string_form input p) (ground arith)

module _ (dl : Bytes → Decoded Items) (h : (payload : Bytes) → NotTrailing (dl payload)) where
  short_list-NotTrailing : (input : Bytes) (p : ℕ) → NotTrailing (short_list dl input p)
  short_list-NotTrailing input p =
      rw (short_list_form dl input p) (ground (arith, h (part input 1 (p - 0xc0))))

  long_list-NotTrailing : (input : Bytes) (p : ℕ) → NotTrailing (long_list dl input p)
  long_list-NotTrailing input p =
      rw (long_list_form dl input p)
        (ground (arith, h (part input (1 + (p - 0xf7)) (declared input (p - 0xf7)))))

  decode_item-NotTrailing : (input : Bytes) → NotTrailing (decode_item dl input)
  unfolding decode_item slice
  decode_item-NotTrailing [] = tt
  decode_item-NotTrailing (b ∷ bs) = ground (
    arith,
    short_string-NotTrailing (b ∷ bs) b,
    long_string-NotTrailing (b ∷ bs) b,
    short_list-NotTrailing (b ∷ bs) b,
    long_list-NotTrailing (b ∷ bs) b,
  )

slice_from-NotTrailing : (xs : Bytes) (lo : ℕ) → NotTrailing (slice_from {E = DecodeError} xs lo)
unfolding slice_from
slice_from-NotTrailing xs lo = ground arith

pub decode_list-NotTrailing : (fuel : ℕ) (input : Bytes) → NotTrailing (decode_list fuel input)
unfolding decode_list
decode_list-NotTrailing zero input = tt
decode_list-NotTrailing (suc fuel) [] = tt
decode_list-NotTrailing (suc fuel) (b ∷ bs) =
    NotTrailing-bind (decode_item (decode_list fuel) (b ∷ bs)) _
      (decode_item-NotTrailing (decode_list fuel) (decode_list-NotTrailing fuel) (b ∷ bs))
      λ (x, size).
        NotTrailing-bind (slice_from (b ∷ bs) size) _ (slice_from-NotTrailing (b ∷ bs) size) λ rest.
          NotTrailing-bind (decode_list fuel rest) _ (decode_list-NotTrailing fuel rest) (λ xs. tt)

pub item-NotTrailing :
    (fuel : ℕ) (input : Bytes) → NotTrailing (decode_item (decode_list fuel) input)
item-NotTrailing fuel input =
    decode_item-NotTrailing (decode_list fuel) (decode_list-NotTrailing fuel) input
