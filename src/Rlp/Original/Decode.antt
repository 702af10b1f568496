-- ===== src/Rlp/Original/Decode.antt =====
-- evm/what-is-recursive-length-prefix-rlp/rlp/decode/decode.go
pub mod Forms
use blog_solutions.Prelude.{
  ℕ, zero, suc, ◌+◌, ◌-◌, ◌*◌, ◌%◌, [], ◌∷◌, word, ltb, leb, add_int, lt_int, if◌then◌else◌, length,
  Outcome, ok, err, out_of_fuel, ◌>>=◌,
}
use blog_solutions.Rlp.Item.{
  Bytes, Item, Items, bytes, list, nil, cons, DecodeError, empty_input, short_string_too_short,
  long_string_prefix_too_short, long_string_too_short, short_list_too_short,
  long_list_prefix_too_short, long_list_too_short,
}
use blog_solutions.Slices.{slice, slice_from}

abbrev pub Decoded {ℓ} : Type ℓ → Type ℓ
Decoded A = Outcome DecodeError A

-- `n = (n << 8) + int(by)` over the bytes.
unfoldable pub shift_in : ℕ → Bytes → ℕ
shift_in n [] = n
shift_in n (by ∷ b) = shift_in (add_int (n * 256 % word) by) b

unfoldable pub decode_length : Bytes → ℕ
decode_length b = shift_in 0 b

-- The cases of the switch. `decode_list` is the decoder of a list's payload.
-- The length of a long string or list is an `int` that may be negative; the other sums are small.
unfoldable pub short_string : Bytes → ℕ → Decoded (Item × ℕ)
short_string input prefix =
    let str_len = prefix - 0x80 in
    if ltb (length input) (1 + str_len)
    then err short_string_too_short
    else do s ← slice input 1 (1 + str_len); ok (bytes s, 1 + str_len)

unfoldable pub long_string : Bytes → ℕ → Decoded (Item × ℕ)
long_string input prefix =
    let len_of_len = prefix - 0xb7 in
    if ltb (length input) (1 + len_of_len) then err long_string_prefix_too_short else do
      b ← slice input 1 (1 + len_of_len)
      let str_len = decode_length b
      let end = add_int (1 + len_of_len) str_len
      if lt_int (length input) end
          then err long_string_too_short
          else do s ← slice input (1 + len_of_len) end; ok (bytes s, end)

unfoldable pub short_list : (Bytes → Decoded Items) → Bytes → ℕ → Decoded (Item × ℕ)
short_list decode_list input prefix =
    let list_len = prefix - 0xc0 in
    if ltb (length input) (1 + list_len) then err short_list_too_short else do
      payload ← slice input 1 (1 + list_len)
      items ← decode_list payload
      ok (list items, 1 + list_len)

unfoldable pub long_list : (Bytes → Decoded Items) → Bytes → ℕ → Decoded (Item × ℕ)
long_list decode_list input prefix =
    let len_of_len = prefix - 0xf7 in
    if ltb (length input) (1 + len_of_len) then err long_list_prefix_too_short else do
      b ← slice input 1 (1 + len_of_len)
      let list_len = decode_length b
      let end = add_int (1 + len_of_len) list_len
      if lt_int (length input) end then err long_list_too_short else do
        payload ← slice input (1 + len_of_len) end
        items ← decode_list payload
        ok (list items, end)

-- `decodeItem`: the item at the front of the input, and the number of bytes that it takes.
unfoldable pub decode_item : (Bytes → Decoded Items) → Bytes → Decoded (Item × ℕ)
decode_item decode_list [] = err empty_input
decode_item decode_list (prefix ∷ rest) =
    let input = prefix ∷ rest in
    if leb prefix 0x7f
    then (do s ← slice input 0 1; ok (bytes s, 1))
    else if leb prefix 0xb7
    then short_string input prefix
    else if leb prefix 0xbf
    then long_string input prefix
    else if leb prefix 0xf7
    then short_list decode_list input prefix
    else long_list decode_list input prefix

-- `decodeList`. Each round takes a byte at least, and a payload is shorter than its item, so fuel
-- above the length is enough.
unfoldable pub decode_list : ℕ → Bytes → Decoded Items
decode_list zero input = out_of_fuel
decode_list (suc fuel) [] = ok nil
decode_list (suc fuel) (b ∷ bs) = do
  (val, consumed) ← decode_item (decode_list fuel) (b ∷ bs)
  rest ← slice_from (b ∷ bs) consumed
  result ← decode_list fuel rest
  ok (cons val result)

-- `RlpDecode`: the bytes behind the item are not looked at.
unfoldable pub rlp_decode : Bytes → Decoded Item
rlp_decode input = do (val, _) ← decode_item (decode_list (length input)) input; ok val
