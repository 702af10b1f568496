-- ===== src/Rlp/Original/Decode/Forms.antt =====
-- The cases of the original `decodeItem` with their slices taken: no bound is ever exceeded.
use blog_solutions.Prelude.{
  ℕ, ◌+◌, ◌-◌, ◌≡◌, length, ltb, if◌then◌else◌, ok, err, ◌>>=◌, Bool-cases, ltb→le, add_int, lt_int,
  inl, inr,
}
use blog_solutions.Rlp.Item.{
  Bytes, Items, bytes, list, short_string_too_short, long_string_prefix_too_short,
  short_list_too_short, long_list_prefix_too_short, long_string_too_short, long_list_too_short,
}
use blog_solutions.Slices.{slice-part, part, slice}
use blog_solutions.Rlp.Original.Decode.{
  Decoded, shift_in, decode_length, short_string, long_string, short_list, long_list,
}

-- The length that the bytes behind the prefix declare.
abbrev pub declared : Bytes → ℕ → ℕ
declared input l = shift_in 0 (part input 1 l)

pub short_string_form :
    (input : Bytes) (prefix : ℕ)
    → short_string input prefix ≡ (
        let l = prefix - 0x80 in
        if ltb (length input) (1 + l)
        then err short_string_too_short
        else ok (bytes (part input 1 l), 1 + l))
unfolding short_string
short_string_form input prefix = elim (Bool-cases (ltb (length input) (1 + (prefix - 0x80)))) [
  | inl e ↦ rw e
  | inr e ↦ rw (e, slice-part input 1 (prefix - 0x80) (ltb→le _ _ e))
]

pub short_list_form :
    (decode_list : Bytes → Decoded Items) (input : Bytes) (prefix : ℕ)
    → short_list decode_list input prefix ≡ (
        let l = prefix - 0xc0 in
        if ltb (length input) (1 + l)
        then err short_list_too_short
        else (do items ← decode_list (part input 1 l); ok (list items, 1 + l)))
unfolding short_list
short_list_form decode_list input prefix =
    elim (Bool-cases (ltb (length input) (1 + (prefix - 0xc0)))) [
      | inl e ↦ rw e
      | inr e ↦ rw (e, slice-part input 1 (prefix - 0xc0) (ltb→le _ _ e))
    ]

-- The slice behind the length is not always within the input.
pub long_string_form :
    (input : Bytes) (prefix : ℕ)
    → long_string input prefix ≡ (
        let l = prefix - 0xb7 in
        let end = add_int (1 + l) (declared input l) in
        if ltb (length input) (1 + l)
        then err long_string_prefix_too_short
        else if lt_int (length input) end
        then err long_string_too_short
        else (do s ← slice input (1 + l) end; ok (bytes s, end)))
unfolding long_string decode_length
long_string_form input prefix =
    let l = prefix - 0xb7 in
    elim (Bool-cases (ltb (length input) (1 + l))) [
      | inl e ↦ rw e
      | inr e ↦ rw (e, slice-part input 1 l (ltb→le _ _ e))
    ]

pub long_list_form :
    (decode_list : Bytes → Decoded Items) (input : Bytes) (prefix : ℕ)
    → long_list decode_list input prefix ≡ (
        let l = prefix - 0xf7 in
        let end = add_int (1 + l) (declared input l) in
        if ltb (length input) (1 + l)
        then err long_list_prefix_too_short
        else if lt_int (length input) end
        then err long_list_too_short
        else (do
          payload ← slice input (1 + l) end
          items ← decode_list payload
          ok (list items, end)))
unfolding long_list decode_length
long_list_form decode_list input prefix =
    let l = prefix - 0xf7 in
    elim (Bool-cases (ltb (length input) (1 + l))) [
      | inl e ↦ rw e
      | inr e ↦ rw (e, slice-part input 1 l (ltb→le _ _ e))
    ]
