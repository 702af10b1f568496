-- ===== src/Rlp/Item.antt =====
-- The Go values that the RLP programs take and return. A byte slice is a list of numbers.
use blog_solutions.Prelude.{ℕ, ◌<◌, List}

abbrev pub Bytes : Type 0
Bytes = List ℕ

abbrev pub IsByte : ℕ → Type 0
IsByte b = b < 256

-- What `RlpDecode` returns in its `any`: a `[]byte`, or a `[]any` of such values.
mutual
  pub data Item : Type 0 where
    bytes : Bytes → Item
    list : Items → Item

  pub data Items : Type 0 where
    nil : Items
    cons : Item → Items → Items

-- The errors of the two decoders, a constructor for each message.
pub data DecodeError : Type 0 where
  empty_input : DecodeError
  short_string_too_short : DecodeError
  long_string_prefix_too_short : DecodeError
  long_string_too_short : DecodeError
  short_list_too_short : DecodeError
  long_list_prefix_too_short : DecodeError
  long_list_too_short : DecodeError
  declared_length_exceeds : DecodeError
  trailing_bytes : DecodeError
