-- ===== src/Rlp/Corrected/Decode/Reads.antt =====
-- What the corrected decoder reads behind each form of prefix.
use Prim.Native.Nat.{bit_or}
use blog_solutions.Prelude.{
  ℕ, ◌+◌, ◌-◌, ◌*◌, ◌%◌, ◌<◌, ◌≤◌, ◌≡◌, refl, ◌∙◌, [], ◌∷◌, ◌++◌, length, length-append, ltb, arith,
  ok, false, All, ge→ltb, word,
}
use blog_solutions.Prelude.Bits.{bit_or_byte}
use blog_solutions.Rlp.Item.{Bytes, IsByte, Items, bytes, list}
use blog_solutions.Slices.{part-append}
use blog_solutions.Rlp.BigEndian.{big_endian, from_bytes, from_bytes-big_endian, big_endian-IsByte}
use blog_solutions.Rlp.Corrected.Decode.{
  Decoded, shift_in, short_string, long_string, short_list, long_list,
}
use blog_solutions.Rlp.Corrected.Decode.Forms.{
  short_string_form, short_list_form, long_string_form, long_list_form, declared,
}

pub from_bytes-ge : (n : ℕ) (bs : Bytes) → n ≤ from_bytes n bs
unfolding from_bytes
from_bytes-ge n [] = omega arith
from_bytes-ge n (b ∷ bs) = omega (arith, from_bytes-ge (n * 256 + b) bs)

shift_byte : (n b : ℕ) → b < 256 → n * 256 + b < word → bit_or (n * 256 % word) b ≡ n * 256 + b
shift_byte n b h k = let e : n * 256 % word ≡ n * 256 = omega arith in rw e (bit_or_byte n b h)

-- A length that fits 64 bits is read exactly.
pub shift_in-from_bytes :
    (n : ℕ) (bs : Bytes) → All IsByte bs → from_bytes n bs < word → shift_in n bs ≡ from_bytes n bs
unfolding shift_in from_bytes
shift_in-from_bytes n [] h k = refl
shift_in-from_bytes n (b ∷ bs) h k =
    rw (shift_byte n b h.0 (omega (arith, from_bytes-ge (n * 256 + b) bs)))
      (shift_in-from_bytes (n * 256 + b) bs h.1 k)

shift_in-big_endian : (n : ℕ) → n < word → shift_in 0 (big_endian 8 n) ≡ n
shift_in-big_endian n h =
    let e : from_bytes 0 (big_endian 8 n) ≡ n = from_bytes-big_endian 8 n h in
    shift_in-from_bytes 0 (big_endian 8 n) (big_endian-IsByte 8 n) (rw e h) ∙ e

declared-big_endian :
    (p n : ℕ) (rest : Bytes)
    → n < word
    → declared (p ∷ (big_endian 8 n ++ rest)) (length (big_endian 8 n)) ≡ n
declared-big_endian p n rest h =
    rw (part-append (p ∷ []) (big_endian 8 n) rest 1 (length (big_endian 8 n)) refl refl)
      (shift_in-big_endian n h)

pub short_string_reads :
    (p : ℕ) (b rest : Bytes)
    → p ≡ length b + 0x80
    → short_string (p ∷ (b ++ rest)) p ≡ ok (bytes b, 1 + length b)
short_string_reads p b rest e =
    let l : p - 0x80 ≡ length b = omega arith in
    let t : ltb (length (p ∷ (b ++ rest))) (1 + length b) ≡ false =
      ge→ltb _ _ (omega (arith, length-append b rest)) in
    rw (
      short_string_form (p ∷ (b ++ rest)) p,
      l,
      t,
      part-append (p ∷ []) b rest 1 (length b) refl refl,
    )

pub short_list_reads :
    (dl : Bytes → Decoded Items) (p : ℕ) (payload rest : Bytes) (xs : Items)
    → p ≡ length payload + 0xc0
    → dl payload ≡ ok xs
    → short_list dl (p ∷ (payload ++ rest)) p ≡ ok (list xs, 1 + length payload)
short_list_reads dl p payload rest xs e d =
    let l : p - 0xc0 ≡ length payload = omega arith in
    let t : ltb (length (p ∷ (payload ++ rest))) (1 + length payload) ≡ false =
      ge→ltb _ _ (omega (arith, length-append payload rest)) in
    rw (
      short_list_form dl (p ∷ (payload ++ rest)) p,
      l,
      t,
      part-append (p ∷ []) payload rest 1 (length payload) refl refl,
      d,
    )

-- The two checks of a long form pass.
long_fits :
    (p n : ℕ) (bl b rest : Bytes)
    → n ≡ length b
    → (ltb (length (p ∷ (bl ++ (b ++ rest)))) (1 + length bl) ≡ false)
      × (ltb (length (p ∷ (bl ++ (b ++ rest))) - 1 - length bl) n ≡ false)
long_fits p n bl b rest e =
    let sum : length (bl ++ (b ++ rest)) ≡ length bl + (length b + length rest) =
      omega (arith, length-append bl (b ++ rest), length-append b rest) in
    (ge→ltb _ _ (omega arith), ge→ltb _ _ (omega arith))

pub long_string_reads :
    (p : ℕ) (b rest : Bytes)
    → p ≡ length (big_endian 8 (length b)) + 0xb7
    → length b < word
    → long_string (p ∷ (big_endian 8 (length b) ++ (b ++ rest))) p
      ≡ ok (bytes b, 1 + length (big_endian 8 (length b)) + length b)
long_string_reads p b rest e h =
    let bl = big_endian 8 (length b) in
    let input : Bytes = p ∷ (bl ++ (b ++ rest)) in
    let l : p - 0xb7 ≡ length bl = omega arith in
    let (t, u) = long_fits p (length b) bl b rest refl in
    rw (
      long_string_form input p,
      l,
      declared-big_endian p (length b) (b ++ rest) h,
      t,
      u,
      part-append (p ∷ bl) b rest (1 + length bl) (length b) (omega arith) refl,
    )

pub long_list_reads :
    (dl : Bytes → Decoded Items) (p : ℕ) (b rest : Bytes) (xs : Items)
    → p ≡ length (big_endian 8 (length b)) + 0xf7
    → length b < word
    → dl b ≡ ok xs
    → long_list dl (p ∷ (big_endian 8 (length b) ++ (b ++ rest))) p
      ≡ ok (list xs, 1 + length (big_endian 8 (length b)) + length b)
long_list_reads dl p b rest xs e h d =
    let bl = big_endian 8 (length b) in
    let input : Bytes = p ∷ (bl ++ (b ++ rest)) in
    let l : p - 0xf7 ≡ length bl = omega arith in
    let (t, u) = long_fits p (length b) bl b rest refl in
    rw (
      long_list_form dl input p,
      l,
      declared-big_endian p (length b) (b ++ rest) h,
      t,
      u,
      part-append (p ∷ bl) b rest (1 + length bl) (length b) (omega arith) refl,
      d,
    )

-- An item behind a header is read, whatever follows it.
