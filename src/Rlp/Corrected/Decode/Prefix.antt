-- ===== src/Rlp/Corrected/Decode/Prefix.antt =====
-- The corrected decoder does not look past an item.
use blog_solutions.Prelude.{
  ℕ, zero, suc, ◌+◌, ◌-◌, ◌≤◌, ◌≡◌, refl, sym, ◌∙◌, [], ◌∷◌, ◌++◌, length, length-append,
  length-drop, drop, take-append_le, drop-append_le, ltb, if◌then◌else◌, arith, ok, err, both_ok,
  append-nil, dec_lt, ltb→le, ge→ltb, Bool, true, false,
}
use blog_solutions.Rlp.Item.{Bytes, Item, Items, DecodeError}
use blog_solutions.Slices.{slice, slice_from, part}
use blog_solutions.Rlp.Corrected.Decode.{
  Decoded, short_string, long_string, short_list, long_list, decode_item, decode_list,
}
use blog_solutions.Rlp.Corrected.Decode.Forms.{
  short_string_form, short_list_form, long_string_form, long_list_form, declared,
}

part-append_more :
    (input more : Bytes) (k n : ℕ)
    → k + n ≤ length input
    → part (input ++ more) k n ≡ part input k n
part-append_more input more k n h =
    rw (drop-append_le k input more (omega arith))
      (take-append_le n (drop k input) more (omega (arith, length-drop k input)))

-- A payload decoder that knows whatever another one knows.
abbrev pub Extends : (Bytes → Decoded Items) → (Bytes → Decoded Items) → Type 0
Extends c d = (payload : Bytes) (xs : Items) → c payload ≡ ok xs → d payload ≡ ok xs

-- What a success says of the two checks in front of it.
checks {ℓ} :
    {A : Type ℓ} (t u : Bool) (e f : DecodeError) (m : Decoded A) (r : A)
    → (if t then err e else if u then err f else m) ≡ ok r
    → (t ≡ false) × (u ≡ false) × (m ≡ ok r)
checks true u e f m r h = cc
checks false true e f m r h = cc
checks false false e f m r h = (refl, refl, h)

check {ℓ} :
    {A : Type ℓ} (t : Bool) (e : DecodeError) (m : Decoded A) (r : A)
    → (if t then err e else m) ≡ ok r
    → (t ≡ false) × (m ≡ ok r)
check true e m r h = cc
check false e m r h = (refl, h)

more_fits :
    (input more : Bytes) (k : ℕ)
    → ltb (length input) k ≡ false
    → ltb (length (input ++ more)) k ≡ false
more_fits input more k h = ge→ltb _ _ (omega (arith, ltb→le _ _ h, length-append input more))

more_available :
    (input more : Bytes) (k n : ℕ)
    → ltb (length input - 1 - k) n ≡ false
    → ltb (length (input ++ more) - 1 - k) n ≡ false
more_available input more k n h = ge→ltb _ _ (omega (arith, ltb→le _ _ h, length-append input more))

module _ (input more : Bytes) (p : ℕ) where
  short_string_more :
      (r : Item × ℕ) → short_string input p ≡ ok r → short_string (input ++ more) p ≡ ok r
  short_string_more r e = ground (
    arith,
    length-append input more,
    short_string_form input p,
    short_string_form (input ++ more) p,
    part-append_more input more 1 (p - 0x80),
  )

  long_string_more :
      (r : Item × ℕ) → long_string input p ≡ ok r → long_string (input ++ more) p ≡ ok r
  long_string_more r e =
      let l = p - 0xb7 in
      let n = declared input l in
      let (t, u, m) = checks _ _ _ _ _ r (sym (long_string_form input p) ∙ e) in
      rw
        (
          long_string_form (input ++ more) p,
          part-append_more input more 1 l (ltb→le _ _ t),
          more_fits input more (1 + l) t,
          more_available input more l n u,
          part-append_more input more (1 + l) n (omega (arith, ltb→le _ _ t, ltb→le _ _ u)),
        )
        m

  module _ (c d : Bytes → Decoded Items) (extends : Extends c d) where
    short_list_more :
        (r : Item × ℕ) → short_list c input p ≡ ok r → short_list d (input ++ more) p ≡ ok r
    short_list_more r e =
        let l = p - 0xc0 in
        let (t, m) = check _ _ _ r (sym (short_list_form c input p) ∙ e) in
        let (xs, q, m') = both_ok (c (part input 1 l)) _ m in
        rw
          (
            short_list_form d (input ++ more) p,
            part-append_more input more 1 l (ltb→le _ _ t),
            more_fits input more (1 + l) t,
            extends (part input 1 l) xs q,
          )
          m'

    long_list_more :
        (r : Item × ℕ) → long_list c input p ≡ ok r → long_list d (input ++ more) p ≡ ok r
    long_list_more r e =
        let l = p - 0xf7 in
        let n = declared input l in
        let (t, u, m) = checks _ _ _ _ _ r (sym (long_list_form c input p) ∙ e) in
        let (xs, q, m') = both_ok (c (part input (1 + l) n)) _ m in
        rw
          (
            long_list_form d (input ++ more) p,
            part-append_more input more 1 l (ltb→le _ _ t),
            more_fits input more (1 + l) t,
            more_available input more l n u,
            part-append_more input more (1 + l) n (omega (arith, ltb→le _ _ t, ltb→le _ _ u)),
            extends (part input (1 + l) n) xs q,
          )
          m'

single_byte_more :
    (b : ℕ) (bs more : Bytes) → slice {E = DecodeError} (b ∷ (bs ++ more)) 0 1 ≡ slice (b ∷ bs) 0 1
unfolding slice
single_byte_more b bs more = ground arith

pub decode_item_more :
    (c d : Bytes → Decoded Items) (input more : Bytes) (r : Item × ℕ)
    → Extends c d
    → decode_item c input ≡ ok r
    → decode_item d (input ++ more) ≡ ok r
unfolding decode_item
decode_item_more c d [] more r x e = cc
decode_item_more c d (b ∷ bs) more r x e = ground (
  arith,
  single_byte_more b bs more,
  short_string_more (b ∷ bs) more b r,
  long_string_more (b ∷ bs) more b r,
  short_list_more (b ∷ bs) more b c d x r,
  long_list_more (b ∷ bs) more b c d x r,
)

-- More fuel changes no success.
pub decode_list_more : (fuel : ℕ) → Extends (decode_list fuel) (decode_list (suc fuel))
unfolding decode_list
decode_list_more zero input xs e = cc
decode_list_more (suc fuel) [] xs e = e
decode_list_more (suc fuel) (b ∷ bs) xs e =
    let (a, p, q) = both_ok (decode_item (decode_list fuel) (b ∷ bs)) _ e in
    let (rest, s, t) = both_ok (slice_from (b ∷ bs) a.1) _ q in
    let (ys, u, v) = both_ok (decode_list fuel rest) _ t in
    let p' : decode_item (decode_list (suc fuel)) (b ∷ bs) ≡ ok a = rw append-nil at (
      decode_item_more (decode_list fuel) (decode_list (suc fuel)) (b ∷ bs) [] a
        (decode_list_more fuel) p) in
    rw (p', s, decode_list_more fuel rest ys u) v

pub decode_list_le : (f g : ℕ) → f ≤ g → Extends (decode_list f) (decode_list g)
decode_list_le f zero h xs ys e = let q : f ≡ 0 = omega arith in rw (← q) e
decode_list_le f (suc g) h xs ys e = elim (dec_lt f (suc g)) [
  | yes p ↦ decode_list_more g xs ys (decode_list_le f g (omega arith) xs ys e)
  | no p ↦ let q : f ≡ suc g = omega arith in rw (← q) e
]
