-- ===== src/Rlp/RoundTrip.antt =====
-- The encoders and the decoders together.
use blog_solutions.Prelude.{
  ℕ, suc, ◌+◌, ◌<◌, ◌≤◌, ◌^◌, ◌≡◌, ◌↔◌, refl, sym, ap, ◌∷◌, ◌++◌, length, length-append, arith, ok,
  err, panic, out_of_fuel, Returns, some, All,
}
use blog_solutions.Rlp.Item.{Bytes, IsByte, Item, DecodeError}
use blog_solutions.Rlp.Value.{Value, IsBelow}
use blog_solutions.Rlp.Spec.{rlp, meaning}
use blog_solutions.Rlp.Corrected.Encode as Encode
use blog_solutions.Rlp.Corrected.Encode.Refines.{rlp_encode-rlp}
use blog_solutions.Rlp.Corrected.Encode.Sound.{rlp_encode_sound}
use blog_solutions.Rlp.Corrected.Decode as Decode
use blog_solutions.Rlp.Corrected.Decode.{Decoded}
use blog_solutions.Rlp.Corrected.Decode.RoundTrip.{rlp_decode-rlp, decode_item-rlp_whole}
use blog_solutions.Rlp.Corrected.Decode.Total.{item-Returns, item-Takes}
use blog_solutions.Rlp.Corrected.Decode.Prefix.{decode_item_more, decode_list_le}
use blog_solutions.Rlp.Comparison.{rlp_decode-Verdict}
use blog_solutions.Rlp.Original.Encode as OriginalEncode
use blog_solutions.Rlp.Original.Encode.Agrees.{rlp_encode-Corrected}
use blog_solutions.Rlp.Original.Decode as OriginalDecode

module _ (v : Value) (b : Bytes) (below : IsBelow (2 ^ 64) v) (short : length b < 2 ^ 64) where
  -- For a value whose numbers have 64 bits and for bytes shorter than 2 ^ 64: the corrected
  -- `RlpEncode` returns the bytes exactly when the value denotes an item whose serialisation by the
  -- Yellow Paper they are.
  pub rlp_encode_iff :
      (Encode.rlp_encode v ≡ ok b) ↔ ((x : Item) × (meaning v ≡ some x) × (b ≡ rlp x))
  rlp_encode_iff = (
    λ e. rlp_encode_sound v b e below short,
    λ (x, m, e). rw e (rlp_encode-rlp v x m below (rw (← e) short)),
  )

  -- Whatever the corrected `RlpEncode` returns, for a value whose numbers have 64 bits, the
  -- corrected `RlpDecode` reads back as the item that the value denotes, if it is shorter than 2 ^
  -- 64.
  pub rlp_decode-rlp_encode :
      Encode.rlp_encode v ≡ ok b → (x : Item) × (meaning v ≡ some x) × (Decode.rlp_decode b ≡ ok x)
  rlp_decode-rlp_encode e =
      let (x, m, q) = rlp_encode_sound v b e below short in
      (x, m, rw q (rlp_decode-rlp x (rw (← q) short)))

module _ (v w : Value) (b : Bytes) (below : IsBelow (2 ^ 64) v) (below' : IsBelow (2 ^ 64) w)
    (short : length b < 2 ^ 64) where
  -- Two values, with numbers of 64 bits, that the corrected `RlpEncode` turns into the same bytes,
  -- shorter than 2 ^ 64, denote the same item.
  pub rlp_encode-injective :
      Encode.rlp_encode v ≡ ok b → Encode.rlp_encode w ≡ ok b → meaning v ≡ meaning w
  rlp_encode-injective p q =
      let (x, m, e) = rlp_decode-rlp_encode v b below short p in
      let (y, n, f) = rlp_decode-rlp_encode w b below' short q in cc

truncated :
    (x : Item) (front back : Bytes) (c : ℕ) (r : Decoded (Item × ℕ))
    → Decode.decode_item (Decode.decode_list (length front)) front ≡ r
    → Returns r
    → length (rlp x) < 2 ^ 64
    → rlp x ≡ front ++ (c ∷ back)
    → (e : DecodeError) × (r ≡ err e)
truncated x front back c (err e) h t l q = (e, refl)
truncated x front back c (panic p) h t l q = absurd t
truncated x front back c out_of_fuel h t l q = absurd t
truncated x front back c (ok (y, size)) h t l q =
    let fits : size ≤ length front = item-Takes front y size h in
    let longer : length (rlp x) ≡ length front + suc (length back) =
      omega (arith, ap length q, length-append front (c ∷ back)) in
    let more : Decode.decode_item (Decode.decode_list (length (rlp x))) (rlp x) ≡ ok (y, size) =
      rw q (
        rw q at (
          decode_item_more (Decode.decode_list (length front)) (Decode.decode_list (length (rlp x)))
            front (c ∷ back) (y, size)
            (decode_list_le (length front) (length (rlp x)) (omega arith)) h)) in
    absurd (ground (arith, decode_item-rlp_whole x l))

-- The corrected `RlpDecode` answers every proper prefix of what the corrected `RlpEncode` returned
-- with an error, the whole being shorter than 2 ^ 64.
pub rlp_decode_truncated :
    (v : Value) (front back : Bytes) (c : ℕ)
    → IsBelow (2 ^ 64) v
    → length (front ++ (c ∷ back)) < 2 ^ 64
    → Encode.rlp_encode v ≡ ok (front ++ (c ∷ back))
    → (e : DecodeError) × (Decode.rlp_decode front ≡ err e)
unfolding Decode.rlp_decode
rlp_decode_truncated v front back c below short e =
    let (x, m, q) = rlp_encode_sound v (front ++ (c ∷ back)) e below short in
    let (d, f) = truncated x front back c _ refl (item-Returns front) (rw (← q) short) (sym q) in
    (d, rw f)

-- Whatever the original `RlpEncode` returns, for a value whose numbers have 64 bits, the original
-- `RlpDecode` reads back as the item that the value denotes, if it is a slice of bytes shorter than
-- 2 ^ 63.
pub original_round_trip :
    (v : Value) (b : Bytes)
    → IsBelow (2 ^ 64) v
    → All IsByte b
    → length b < 2 ^ 63
    → OriginalEncode.rlp_encode v ≡ ok b
    → (x : Item) × (meaning v ≡ some x) × (OriginalDecode.rlp_decode b ≡ ok x)
original_round_trip v b below bytes short e =
    let (x, m, d) =
      rlp_decode-rlp_encode v b below (omega arith) (rlp_encode-Corrected v b below e) in
    (x, m, ground (arith, rlp_decode-Verdict b bytes short, d))
