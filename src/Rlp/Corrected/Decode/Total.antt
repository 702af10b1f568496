-- ===== src/Rlp/Corrected/Decode/Total.antt =====
-- The corrected decoder returns on every input, and takes a byte at least for each item.
use blog_solutions.Prelude.{
  ℕ, zero, suc, ◌+◌, ◌-◌, ◌<◌, ◌≤◌, ◌≡◌, [], ◌∷◌, length, length-drop, drop, ltb, arith, ok, err,
  panic, out_of_fuel, ◌>>=◌, Bool-cases, inl, inr, Returns, Returns-bind, Returns-map, ltb→le,
}
use blog_solutions.Rlp.Item.{Bytes, Item, Items, cons, DecodeError}
use blog_solutions.Slices.{slice, slice_from, slice_from_within, part, length-part}
use blog_solutions.Rlp.Corrected.Decode.{
  Decoded, short_string, long_string, short_list, long_list, decode_item, decode_list, rlp_decode,
}
use blog_solutions.Rlp.Corrected.Decode.Forms.{
  short_string_form, short_list_form, long_string_form, long_list_form, declared,
}

-- An item takes a byte at least, and no more than the input has.
abbrev Takes : Bytes → Decoded (Item × ℕ) → Type 0
Takes input (ok (x, c)) = (0 < c) × (c ≤ length input)
Takes input (err e) = Unit
Takes input (panic p) = Unit
Takes input out_of_fuel = Unit

short_string-Takes : (input : Bytes) (p : ℕ) → Takes input (short_string input p)
short_string-Takes input p = rw (short_string_form input p) (ground arith)

long_string-Takes : (input : Bytes) (p : ℕ) → Takes input (long_string input p)
long_string-Takes input p = rw (long_string_form input p) (ground arith)

short_list-Takes :
    (dl : Bytes → Decoded Items) (input : Bytes) (p : ℕ) → Takes input (short_list dl input p)
short_list-Takes dl input p = rw (short_list_form dl input p) (ground arith)

long_list-Takes :
    (dl : Bytes → Decoded Items) (input : Bytes) (p : ℕ) → Takes input (long_list dl input p)
long_list-Takes dl input p = rw (long_list_form dl input p) (ground arith)

decode_item-Takes :
    (dl : Bytes → Decoded Items) (input : Bytes) → Takes input (decode_item dl input)
unfolding decode_item slice
decode_item-Takes dl [] = tt
decode_item-Takes dl (b ∷ bs) = ground (
  arith,
  short_string-Takes (b ∷ bs) b,
  long_string-Takes (b ∷ bs) b,
  short_list-Takes dl (b ∷ bs) b,
  long_list-Takes dl (b ∷ bs) b,
)

pub item-Takes :
    (input : Bytes) (x : Item) (size : ℕ)
    → decode_item (decode_list (length input)) input ≡ ok (x, size)
    → size ≤ length input
item-Takes input x size e = ground (arith, decode_item-Takes (decode_list (length input)) input)

-- A decoder of payloads that returns on every payload shorter than the input.
abbrev ReturnsBelow : ℕ → (Bytes → Decoded Items) → Type 0
ReturnsBelow n decode_list = (payload : Bytes) → length payload < n → Returns (decode_list payload)

short_list-Returns :
    (dl : Bytes → Decoded Items) (input : Bytes) (p : ℕ)
    → ReturnsBelow (length input) dl
    → Returns (short_list dl input p)
short_list-Returns dl input p h =
    let l = p - 0xc0 in
    rw (short_list_form dl input p) (elim (Bool-cases (ltb (length input) (1 + l))) [
      | inl e ↦ rw e tt
      | inr e ↦ rw e (
          Returns-map (dl (part input 1 l)) _
            (h (part input 1 l) (omega (arith, ltb→le _ _ e, length-part input 1 l))))
    ])

long_list-Returns :
    (dl : Bytes → Decoded Items) (input : Bytes) (p : ℕ)
    → ReturnsBelow (length input) dl
    → Returns (long_list dl input p)
long_list-Returns dl input p h =
    let l = p - 0xf7 in
    let n = declared input l in
    rw (long_list_form dl input p) (elim (Bool-cases (ltb (length input) (1 + l))) [
      | inl e ↦ rw e tt
      | inr e ↦ elim (Bool-cases (ltb (length input - 1 - l) n)) [
        | inl f ↦ rw (e, f) tt
        | inr f ↦
            rw (e, f)
              (Returns-map (dl (part input (1 + l) n)) _ (
                h (part input (1 + l) n)
                  (omega (arith, ltb→le _ _ e, ltb→le _ _ f, length-part input (1 + l) n))))
      ]
    ])

short_string-Returns : (input : Bytes) (p : ℕ) → Returns (short_string input p)
short_string-Returns input p = rw (short_string_form input p) (ground arith)

long_string-Returns : (input : Bytes) (p : ℕ) → Returns (long_string input p)
long_string-Returns input p = rw (long_string_form input p) (ground arith)

decode_item-Returns :
    (dl : Bytes → Decoded Items) (input : Bytes)
    → ReturnsBelow (length input) dl
    → Returns (decode_item dl input)
unfolding decode_item slice
decode_item-Returns dl [] h = tt
decode_item-Returns dl (b ∷ bs) h = ground (
  arith,
  short_string-Returns (b ∷ bs) b,
  long_string-Returns (b ∷ bs) b,
  short_list-Returns dl (b ∷ bs) b h,
  long_list-Returns dl (b ∷ bs) b h,
)

decode_list-Returns :
    (fuel : ℕ) (input : Bytes) → length input < fuel → Returns (decode_list fuel input)
unfolding decode_list
decode_list-Returns zero input h = elim h [ ]
decode_list-Returns (suc fuel) [] h = tt
decode_list-Returns (suc fuel) (b ∷ bs) h =
    round (decode_item (decode_list fuel) (b ∷ bs)) (decode_item-Takes (decode_list fuel) (b ∷ bs))
      (decode_item-Returns (decode_list fuel) (b ∷ bs)
        (λ payload lt. decode_list-Returns fuel payload (omega arith)))
      (λ rest lt. decode_list-Returns fuel rest (omega arith))
  where
    round :
        (r : Decoded (Item × ℕ))
        → Takes (b ∷ bs) r
        → Returns r
        → ReturnsBelow (length (b ∷ bs)) (decode_list fuel)
        → Returns {E = DecodeError} (do
          (val, consumed) ← r
          rest ← slice_from (b ∷ bs) consumed
          result ← decode_list fuel rest
          ok (cons val result))
    round (ok (x, c)) t r k = rw (slice_from_within (b ∷ bs) c t.1) (
        Returns-map (decode_list fuel (drop c (b ∷ bs))) _
          (k (drop c (b ∷ bs)) (omega (arith, length-drop c (b ∷ bs)))))
    round (err e) t r k = tt
    round (panic p) t r k = r
    round out_of_fuel t r k = r

-- The fuel that `rlp_decode` gives is enough.
pub item-Returns : (input : Bytes) → Returns (decode_item (decode_list (length input)) input)
item-Returns input =
    decode_item-Returns (decode_list (length input)) input (decode_list-Returns (length input))

-- On every input the corrected `RlpDecode` ends, with a value or an error: it never panics, and the
-- fuel of the model is enough.
pub rlp_decode-Returns : (input : Bytes) → Returns (rlp_decode input)
unfolding rlp_decode
rlp_decode-Returns input =
    Returns-bind (decode_item (decode_list (length input)) input) _ (item-Returns input)
      (λ a. ground arith)
