-- ===== src/Rlp/Panics.antt =====
-- The inputs on which the original decoder crashes.
use blog_solutions.Prelude.{
  ℕ, suc, ◌+◌, ◌-◌, ◌^◌, ◌<◌, ◌≤◌, ◌≡◌, refl, sym, ◌⊎◌, inl, inr, [], ◌∷◌, ◌++◌, length,
  length-append, ltb, leb, arith, err, panic, true, false, ◌&&◌, All, ge→ltb, lt→ltb, word, add_int,
  lt_int, slice_bounds,
}
use blog_solutions.Rlp.Item.{Bytes, IsByte, Items, DecodeError, declared_length_exceeds}
use blog_solutions.Slices.{slice_outside, part-append}
use blog_solutions.Rlp.BigEndian.{from_bytes, from_bytes-lt}
use blog_solutions.Rlp.Corrected.Decode as Corrected
use blog_solutions.Rlp.Corrected.Decode.{Decoded}
use blog_solutions.Rlp.Corrected.Decode.Forms as CorrectedForms
use blog_solutions.Rlp.Corrected.Decode.Reads.{shift_in-from_bytes}
use blog_solutions.Rlp.Original.Decode as Original
use blog_solutions.Rlp.Original.Decode.Forms as OriginalForms
use blog_solutions.Rlp.Matches.{Original-shift_in}

module _ (p : ℕ) (bl rest : Bytes) (eight : length bl ≡ 8) (bytes : All IsByte bl)
    (huge : 2 ^ 63 - 9 ≤ from_bytes 0 bl) (small : length rest < 2 ^ 62) where
  declared-huge :
      (OriginalForms.declared (p ∷ (bl ++ rest)) 8 ≡ from_bytes 0 bl)
      × (CorrectedForms.declared (p ∷ (bl ++ rest)) 8 ≡ from_bytes 0 bl)
  declared-huge =
      let lt : from_bytes 0 bl < word = from_bytes-lt bl bytes (omega arith) in
      rw (part-append (p ∷ []) bl rest 1 8 refl (sym eight))
        (Original-shift_in 0 bl bytes lt, shift_in-from_bytes 0 bl bytes lt)

  outside :
      (len n : ℕ)
      → len ≡ suc (length (bl ++ rest))
      → n ≡ from_bytes 0 bl
      → (ltb len (1 + 8) ≡ false)
        × (lt_int len (add_int (1 + 8) n) ≡ false)
        × ((leb (1 + 8) (add_int (1 + 8) n) && leb (add_int (1 + 8) n) len) ≡ false)
        × (ltb (len - 1 - 8) n ≡ true)
  outside len n e f =
      let lt : from_bytes 0 bl < word = from_bytes-lt bl bytes (omega arith) in
      let l : length (bl ++ rest) ≡ 8 + length rest = omega (arith, length-append bl rest) in
      (ge→ltb _ _ (omega arith), ge→ltb _ _ (omega arith), ground arith, lt→ltb _ _ (omega arith))

  long_string_huge :
      p ≡ 0xbf
      → (Original.long_string (p ∷ (bl ++ rest)) p ≡ panic slice_bounds)
        × (Corrected.long_string (p ∷ (bl ++ rest)) p ≡ err declared_length_exceeds)
  long_string_huge e =
      let l : p - 0xb7 ≡ 8 = omega arith in
      let (o, c) = declared-huge in
      let n = from_bytes 0 bl in
      let (t, u, v, w) = outside (suc (length (bl ++ rest))) n refl refl in
      rw
        (
          OriginalForms.long_string_form (p ∷ (bl ++ rest)) p,
          CorrectedForms.long_string_form (p ∷ (bl ++ rest)) p,
          l,
          o,
          c,
          t,
          u,
          w,
          slice_outside {E = DecodeError} (p ∷ (bl ++ rest)) (1 + 8) (add_int (1 + 8) n) v,
        )
        (refl, refl)

  long_list_huge :
      (c o : Bytes → Decoded Items)
      → p ≡ 0xff
      → (Original.long_list o (p ∷ (bl ++ rest)) p ≡ panic slice_bounds)
        × (Corrected.long_list c (p ∷ (bl ++ rest)) p ≡ err declared_length_exceeds)
  long_list_huge c o e =
      let l : p - 0xf7 ≡ 8 = omega arith in
      let (d, f) = declared-huge in
      let n = from_bytes 0 bl in
      let (t, u, v, w) = outside (suc (length (bl ++ rest))) n refl refl in
      rw
        (
          OriginalForms.long_list_form o (p ∷ (bl ++ rest)) p,
          CorrectedForms.long_list_form c (p ∷ (bl ++ rest)) p,
          l,
          d,
          f,
          t,
          u,
          w,
          slice_outside {E = DecodeError} (p ∷ (bl ++ rest)) (1 + 8) (add_int (1 + 8) n) v,
        )
        (refl, refl)

  -- On an input of prefix 0xbf or 0xff whose eight length bytes stand for 2 ^ 63 - 9 or more, with
  -- fewer than 2 ^ 62 bytes behind them, the original `RlpDecode` panics on a slice bound, and the
  -- corrected one reports that the declared length exceeds the payload.
  pub rlp_decode_panics :
      (p ≡ 0xbf) ⊎ (p ≡ 0xff)
      → (Original.rlp_decode (p ∷ (bl ++ rest)) ≡ panic slice_bounds)
        × (Corrected.rlp_decode (p ∷ (bl ++ rest)) ≡ err declared_length_exceeds)
  unfolding Original.rlp_decode Corrected.rlp_decode Original.decode_item Corrected.decode_item
  rlp_decode_panics (inl e) = ground (arith, long_string_huge e)
  rlp_decode_panics (inr e) = ground (
    arith,
    long_list_huge (Corrected.decode_list (suc (length (bl ++ rest))))
        (Original.decode_list (suc (length (bl ++ rest)))) e,
  )
