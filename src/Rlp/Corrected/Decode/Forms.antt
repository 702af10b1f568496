-- ===== src/Rlp/Corrected/Decode/Forms.antt =====
-- The cases of the corrected `decodeItem` with their slices taken: no bound is ever exceeded.
use blog_solutions.Prelude.{
  ℕ, ◌+◌, ◌-◌, ◌≡◌, length, ltb, if◌then◌else◌, arith, ok, err, ◌>>=◌, Bool-cases, ltb→le, inl, inr,
  false,
}
use blog_solutions.Rlp.Item.{
  Bytes, Items, bytes, list, short_string_too_short, long_string_prefix_too_short,
  short_list_too_short, long_list_prefix_too_short, declared_length_exceeds,
}
use blog_solutions.Slices.{slice-part, part}
use blog_solutions.Rlp.Corrected.Decode.{
  Decoded, shift_in, decode_length, short_string, long_string, short_list, long_list,
}

-- The length that the bytes behind the prefix declare.
abbrev pub declared : Bytes → ℕ → ℕ
declared input l = shift_in 0 (part input 1 l)

fits :
    (input : Bytes) (l n : ℕ)
    → ltb (length input) (1 + l) ≡ false
    → ltb (length input - 1 - l) n ≡ false
    → ltb (length input) (1 + l + n) ≡ false
fits input l n e f = ground arith

pub short_string_form :
    (input : Bytes) (prefix : ℕ)
    → short_string input prefix ≡ (
        let l = prefix - 0x80 in
        if ltb (length input) (1 + l)
        then err short_string_too_short
        else ok (bytes (part input 1 l), 1 + l))
unfolding short_string
short_string_form input prefix = elim (Bool-cases (ltb (length input) (1 + (prefix - 0x80)))) [
  | inl e ↦ rw e
  | inr e ↦ rw (e, slice-part input 1 (prefix - 0x80) (ltb→le _ _ e))
]

pub short_list_form :
    (decode_list : Bytes → Decoded Items) (input : Bytes) (prefix : ℕ)
    → short_list decode_list input prefix ≡ (
        let l = prefix - 0xc0 in
        if ltb (length input) (1 + l)
        then err short_list_too_short
        else (do items ← decode_list (part input 1 l); ok (list items, 1 + l)))
unfolding short_list
short_list_form decode_list input prefix =
    elim (Bool-cases (ltb (length input) (1 + (prefix - 0xc0)))) [
      | inl e ↦ rw e
      | inr e ↦ rw (e, slice-part input 1 (prefix - 0xc0) (ltb→le _ _ e))
    ]

-- Once the declared length is known to fit, the second length check never fails.
pub long_string_form :
    (input : Bytes) (prefix : ℕ)
    → long_string input prefix ≡ (
        let l = prefix - 0xb7 in
        let n = declared input l in
        if ltb (length input) (1 + l)
        then err long_string_prefix_too_short
        else if ltb (length input - 1 - l) n
        then err declared_length_exceeds
        else ok (bytes (part input (1 + l) n), 1 + l + n))
unfolding long_string decode_length
long_string_form input prefix =
    let l = prefix - 0xb7 in
    let n = declared input l in
    elim (Bool-cases (ltb (length input) (1 + l))) [
      | inl e ↦ rw e
      | inr e ↦ elim (Bool-cases (ltb (length input - 1 - l) n)) [
        | inl f ↦ rw (e, slice-part input 1 l (ltb→le _ _ e), f)
        | inr f ↦ rw (
          e,
          slice-part input 1 l (ltb→le _ _ e),
          f,
          fits input l n e f,
          slice-part input (1 + l) n (ltb→le _ _ (fits input l n e f)),
        )
      ]
    ]

pub long_list_form :
    (decode_list : Bytes → Decoded Items) (input : Bytes) (prefix : ℕ)
    → long_list decode_list input prefix ≡ (
        let l = prefix - 0xf7 in
        let n = declared input l in
        if ltb (length input) (1 + l)
        then err long_list_prefix_too_short
        else if ltb (length input - 1 - l) n
        then err declared_length_exceeds
        else (do items ← decode_list (part input (1 + l) n); ok (list items, 1 + l + n)))
unfolding long_list decode_length
long_list_form decode_list input prefix =
    let l = prefix - 0xf7 in
    let n = declared input l in
    elim (Bool-cases (ltb (length input) (1 + l))) [
      | inl e ↦ rw e
      | inr e ↦ elim (Bool-cases (ltb (length input - 1 - l) n)) [
        | inl f ↦ rw (e, slice-part input 1 l (ltb→le _ _ e), f)
        | inr f ↦ rw (
          e,
          slice-part input 1 l (ltb→le _ _ e),
          f,
          fits input l n e f,
          slice-part input (1 + l) n (ltb→le _ _ (fits input l n e f)),
        )
      ]
    ]
