-- ===== src/Rlp/Comparison.antt =====
-- The original decoder against the corrected one, on slices that a Go program can hold.
use blog_solutions.Prelude.{
  ℕ, zero, suc, ◌^◌, ◌<◌, ◌≤◌, ◌≡◌, refl, [], ◌∷◌, length, length-drop, drop, leb, if◌then◌else◌,
  arith, ok, err, panic, out_of_fuel, ◌>>=◌, true, false, All, All-drop, leb→le, Bool, sign_bit,
  not, ◌==◌, Returns,
}
use blog_solutions.Rlp.Item.{
  Bytes, IsByte, Item, Items, bytes, DecodeError, empty_input, short_string_too_short,
  long_string_prefix_too_short, long_string_too_short, short_list_too_short,
  long_list_prefix_too_short, long_list_too_short, declared_length_exceeds, trailing_bytes,
}
use blog_solutions.Slices.{slice, slice_from, slice_from-eq-ok}
use blog_solutions.Rlp.Corrected.Decode as Corrected
use blog_solutions.Rlp.Corrected.Decode.{Decoded}
use blog_solutions.Rlp.Corrected.Decode.Errors.{NotTrailing, item-NotTrailing}
use blog_solutions.Rlp.Corrected.Decode.Total.{item-Returns}
use blog_solutions.Rlp.Original.Decode as Original
use blog_solutions.Rlp.Matches.{
  IsOverlong, IsOverlong-bind, Matches-bind, IsShared, Matches, same, overlong, long_string-Matches,
  short_string-Matches, MatchBelow, short_list-Matches, long_list-Matches,
}

slice_from-IsShared : (xs : Bytes) (lo : ℕ) → IsShared (slice_from {E = DecodeError} xs lo)
unfolding slice_from
slice_from-IsShared xs lo = ground arith

single_byte-IsShared : (xs : Bytes) → IsShared {A = Item × ℕ} (do s ← slice xs 0 1; ok (bytes s, 1))
unfolding slice
single_byte-IsShared xs = ground arith

rest_of :
    (input rest : Bytes) (size : ℕ)
    → All IsByte input
    → slice_from {E = DecodeError} input size ≡ ok rest
    → All IsByte rest × (length rest ≤ length input)
rest_of input rest size b e =
    let q : rest ≡ drop size input = slice_from-eq-ok input size rest e in
    rw q (All-drop IsByte size input b, omega (arith, length-drop size input))

Matches-if {ℓ} :
    {A : Type ℓ} (t : Bool) {r s r' s' : Decoded A}
    → (t ≡ true → Matches r s)
    → (t ≡ false → Matches r' s')
    → Matches (if t then r else r') (if t then s else s')
Matches-if true h k = h refl
Matches-if false h k = k refl

decode_item-Matches :
    (c o : Bytes → Decoded Items) (input : Bytes)
    → All IsByte input
    → length input < sign_bit
    → MatchBelow (length input) c o
    → Matches (Corrected.decode_item c input) (Original.decode_item o input)
unfolding Corrected.decode_item Original.decode_item
decode_item-Matches c o [] b h k = same tt
decode_item-Matches c o (p ∷ bs) b h k =
    Matches-if (leb p 0x7f) (λ _. same (single_byte-IsShared (p ∷ bs)))
      λ _.
        Matches-if (leb p 0xb7) (λ _. short_string-Matches (p ∷ bs) p)
          λ _.
            Matches-if (leb p 0xbf) (λ e. long_string-Matches (p ∷ bs) p b h (leb→le _ _ e))
              λ _.
                Matches-if (leb p 0xf7) (λ _. short_list-Matches c o (p ∷ bs) p b k)
                  λ _. long_list-Matches c o (p ∷ bs) p b h (omega (arith, b.0)) k

decode_list-Matches :
    (fuel : ℕ) (input : Bytes)
    → All IsByte input
    → length input < sign_bit
    → Matches (Corrected.decode_list fuel input) (Original.decode_list fuel input)
unfolding Corrected.decode_list Original.decode_list
decode_list-Matches zero input b h = same tt
decode_list-Matches (suc fuel) [] b h = same tt
decode_list-Matches (suc fuel) (p ∷ bs) b h =
    Matches-bind _ _
      (decode_item-Matches (Corrected.decode_list fuel) (Original.decode_list fuel) (p ∷ bs) b h
        (λ payload pb lt. decode_list-Matches fuel payload pb (omega arith)))
      (λ (x, size) _. Matches-bind _ _ (same (slice_from-IsShared (p ∷ bs) size)) λ rest e.
        let (b', l') = rest_of (p ∷ bs) rest size b e in
        Matches-bind _ _ (decode_list-Matches fuel rest b' (omega arith)) (λ xs _. same tt))

decode_item_whole-Matches :
    (input : Bytes)
    → All IsByte input
    → length input < sign_bit
    → Matches
        (Corrected.decode_item (Corrected.decode_list (length input)) input)
        (Original.decode_item (Original.decode_list (length input)) input)
decode_item_whole-Matches input b h =
    decode_item-Matches _ _ input b h
      (λ payload pb lt. decode_list-Matches (length input) payload pb (omega arith))

-- `Verdict r s`: what the original `RlpDecode` makes of an input, `s`, given what the corrected one
-- makes of it, `r`.
abbrev pub Verdict : Decoded Item → Decoded Item → Type 0
Verdict (ok x) s = s ≡ ok x
Verdict (err trailing_bytes) s = (x : Item) × (s ≡ ok x)
Verdict (err declared_length_exceeds) s = IsOverlong s
Verdict (err e) s = s ≡ err e
Verdict (panic p) s = ⊥
Verdict out_of_fuel s = ⊥

finish :
    (len : ℕ) (r s : Decoded (Item × ℕ))
    → Matches r s
    → Returns r
    → NotTrailing r
    → Verdict
        (r >>= λ (x, size). if not (size == len) then err trailing_bytes else ok x)
        (s >>= λ (x, _). ok x)
finish len (ok (x, size)) s (same d) h t = ground arith
finish len (err empty_input) s (same d) h t = refl
finish len (err short_string_too_short) s (same d) h t = refl
finish len (err long_string_prefix_too_short) s (same d) h t = refl
finish len (err long_string_too_short) s (same d) h t = refl
finish len (err short_list_too_short) s (same d) h t = refl
finish len (err long_list_prefix_too_short) s (same d) h t = refl
finish len (err long_list_too_short) s (same d) h t = refl
finish len (err declared_length_exceeds) s (same d) h t = absurd d
finish len (err trailing_bytes) s (same d) h t = absurd t
finish len (err declared_length_exceeds) s (overlong o) h t = IsOverlong-bind s _ o
finish len (panic p) s (same d) h t = h
finish len out_of_fuel s (same d) h t = h

-- On every slice of bytes shorter than 2 ^ 63: where the corrected `RlpDecode` returns an item, the
-- original returns the same; where it reports trailing bytes, the original returns an item; where
-- it reports that a declared length exceeds the payload, the original reports a long string or a
-- long list that is too short, or panics on a slice bound; any other error is the original's too.
pub rlp_decode-Verdict :
    (input : Bytes)
    → All IsByte input
    → length input < 2 ^ 63
    → Verdict (Corrected.rlp_decode input) (Original.rlp_decode input)
unfolding Corrected.rlp_decode Original.rlp_decode
rlp_decode-Verdict input b h =
    finish (length input) _ _ (decode_item_whole-Matches input b h) (item-Returns input)
      (item-NotTrailing (length input) input)
