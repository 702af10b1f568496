-- ===== src/Rlp/Spec.antt =====
-- The serialisation as the Yellow Paper defines it, on the items that the decoders return: what
-- the encoders are held against.
use blog_solutions.Prelude.{
  ℕ, ◌+◌, ◌<◌, ◌≤◌, ◌≡◌, refl, ◌⊎◌, inl, inr, [], ◌∷◌, ◌++◌, ltb, if◌then◌else◌, length,
  length-append, append-nil, Option, none, some, ℤ, pos, negsuc, arith,
}
use blog_solutions.Rlp.Item.{Bytes, Item, Items, bytes, list, nil, cons}
use blog_solutions.Rlp.Value.{
  Value, Values, string, byte_slice, slice_of, number, unsupported, no_values, value,
}
use blog_solutions.Rlp.Header.{is_integer_kind}
use blog_solutions.Rlp.BigEndian.{big_endian}

-- The bytes in front of a payload: one byte, or the length of the length and the length.
unfoldable pub header : ℕ → ℕ → Bytes
header len offset =
    if ltb len 56
    then (len + offset) ∷ []
    else (let bl = big_endian 8 len in (length bl + offset + 55) ∷ bl)

unfoldable pub rlp_bytes : Bytes → Bytes
rlp_bytes (b ∷ []) = if ltb b 0x80 then b ∷ [] else header 1 0x80 ++ b ∷ []
rlp_bytes b = header (length b) 0x80 ++ b

unfoldable mutual
  unfolding rlp_bytes

  pub rlp : Item → Bytes
  rlp (bytes b) = rlp_bytes b
  rlp (list xs) = header (length (rlp_items xs)) 0xc0 ++ rlp_items xs

  pub rlp_items : Items → Bytes
  rlp_items nil = []
  rlp_items (cons x xs) = rlp x ++ rlp_items xs

-- The item that a Go value denotes, if it is one that can be serialised: a number is its shortest
-- big-endian form, and a negative one denotes none.
abbrev pub number_item : ℤ → Option Item
number_item (pos n) = some (bytes (big_endian 8 n))
number_item (negsuc n) = none

abbrev pub list_item : Option Items → Option Item
list_item none = none
list_item (some xs) = some (list xs)

abbrev pub cons_item : Option Item → Option Items → Option Items
cons_item (some x) (some xs) = some (cons x xs)
cons_item (some x) none = none
cons_item none xs = none

unfoldable mutual
  unfolding is_integer_kind

  pub meaning : Value → Option Item
  meaning (string text) = some (bytes text)
  meaning (byte_slice b) = some (bytes b)
  meaning (slice_of vs) = list_item (meanings vs)
  meaning (number kind z) = if is_integer_kind kind then number_item z else none
  meaning unsupported = none

  pub meanings : Values → Option Items
  meanings no_values = some nil
  meanings (value v vs) = cons_item (meaning v) (meanings vs)

header_pos : (len offset : ℕ) → 0 < length (header len offset)
unfolding header
header_pos len offset = ground arith

length-rlp_bytes_pos : (b : Bytes) → 0 < length (rlp_bytes b)
unfolding rlp_bytes
length-rlp_bytes_pos [] = rw append-nil (header_pos 0 0x80)
length-rlp_bytes_pos (b ∷ []) = ground (arith, length-append (header 1 0x80) (b ∷ []))
length-rlp_bytes_pos (b ∷ c ∷ bs) =
    let s : Bytes = b ∷ c ∷ bs in rw (length-append (header (length s) 0x80) s) (omega arith)

-- Every item takes a byte at least.
pub length-rlp_pos : (x : Item) → 0 < length (rlp x)
unfolding rlp
length-rlp_pos (bytes b) = length-rlp_bytes_pos b
length-rlp_pos (list xs) =
    rw (length-append (header (length (rlp_items xs)) 0xc0) (rlp_items xs))
      (omega (arith, header_pos (length (rlp_items xs)) 0xc0))

pub length-rlp_bytes : (b : Bytes) → length b ≤ length (rlp_bytes b)
unfolding rlp_bytes
length-rlp_bytes [] = omega arith
length-rlp_bytes (b ∷ []) = ground (arith, length-append (header 1 0x80) (b ∷ []))
length-rlp_bytes (b ∷ c ∷ bs) =
    let s : Bytes = b ∷ c ∷ bs in rw (length-append (header (length s) 0x80) s) (omega arith)

pub length-rlp_list : (xs : Items) → length (rlp_items xs) < length (rlp (list xs))
unfolding rlp
length-rlp_list xs =
    rw (length-append (header (length (rlp_items xs)) 0xc0) (rlp_items xs))
      (omega (arith, header_pos (length (rlp_items xs)) 0xc0))

pub list_item-eq-some :
    (o : Option Items) (x : Item)
    → list_item o ≡ some x
    → (xs : Items) × (o ≡ some xs) × (list xs ≡ x)
list_item-eq-some none x e = cc
list_item-eq-some (some xs) x e = (xs, refl, cc)

pub cons_item-eq-some :
    (o : Option Item) (os : Option Items) (xs : Items)
    → cons_item o os ≡ some xs
    → (y : Item) × (ys : Items) × (o ≡ some y) × (os ≡ some ys) × (cons y ys ≡ xs)
cons_item-eq-some none os xs e = cc
cons_item-eq-some (some y) none xs e = cc
cons_item-eq-some (some y) (some ys) xs e = (y, ys, refl, refl, cc)

pub list_item-eq-none : (o : Option Items) → list_item o ≡ none → o ≡ none
list_item-eq-none none e = refl
list_item-eq-none (some xs) e = cc

pub cons_item-eq-none :
    (o : Option Item) (os : Option Items) → cons_item o os ≡ none → (o ≡ none) ⊎ (os ≡ none)
cons_item-eq-none none os e = inl refl
cons_item-eq-none (some y) none e = inr refl
cons_item-eq-none (some y) (some ys) e = cc
