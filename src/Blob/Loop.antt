-- ===== src/Blob/Loop.antt =====
-- The packing loop against the field elements.
use blog_solutions.Prelude.{
  ℕ, zero, suc, ◌+◌, ◌-◌, ◌*◌, ◌/◌, ◌≤◌, ◌<◌, ◌≡◌, refl, sym, [], ◌∷◌, ◌++◌, length, take, drop,
  ltb, true, false, ok, panic, slice_bounds, arith, length-append, length-take, drop_add, drop_all,
  append_assoc, append-nil, take-drop, ◌==◌, ◌&&◌, leb, lt→ltb, ge→ltb, Bool-cases, inl, inr,
  ltb→lt, ltb→le,
}
use blog_solutions.Rlp.Item.{Bytes}
use blog_solutions.Slices.{slice_outside}
use blog_solutions.Blob.Packing.{PackError, packing_round, pack_from, equal_bytes, pack_blob}
use blog_solutions.Blob.FieldElements.{
  zeros, field_element, field_elements, field_elements_nil, packing_round_form,
  length-field_element,
}

-- The loop from its round `k` on, with room for `n` more elements.
pack_from_form :
    (n k fuel : ℕ) (content front recovered : Bytes)
    → length front ≡ 32 * k
    → length content ≤ 31 * (k + n)
    → length content - 31 * k < fuel
    → pack_from fuel content (31 * k) (front ++ zeros (32 * n)) recovered
      ≡ ok (front ++ field_elements n (drop (31 * k) content), recovered ++ drop (31 * k) content)
unfolding pack_from
pack_from_form n k zero content front recovered p q h = elim h [ ]
pack_from_form zero k (suc fuel) content front recovered p q h =
    rw
      (
        ge→ltb (31 * k) (length content) (omega arith),
        drop_all (31 * k) content (omega arith),
        append-nil recovered,
        field_elements_nil 0,
      )
      refl
pack_from_form (suc n) k (suc fuel) content front recovered p q h =
    elim (Bool-cases (ltb (31 * k) (length content))) [
      | inl t ↦
          let more = ltb→lt _ _ t in
          let room : 32 * suc n ≡ 32 + 32 * n = omega arith in
          let next : 31 * k + 31 ≡ 31 * suc k = omega arith in
          let rest = drop (31 * k) content in
          let element = field_element (take 31 rest) in
          let ih =
            pack_from_form n (suc k) fuel content (front ++ element) (recovered ++ take 31 rest)
              (omega (
                arith,
                length-append front element,
                length-field_element (take 31 rest) (omega (arith, length-take 31 rest)),
              ))
              (omega arith) (omega arith) in
          let split : drop (31 * suc k) content ≡ drop 31 rest =
            rw (sym next) (drop_add (31 * k) 31 content) in
          rw
            (
              t,
              room,
              packing_round_form k (32 * n) content front recovered p more,
              sym (append_assoc front element (zeros (32 * n))),
              next,
              ih,
              split,
              append_assoc recovered (take 31 rest) (drop 31 rest),
              take-drop 31 rest,
              append_assoc front element (field_elements n (drop 31 rest)),
            )
            (unfold field_elements in refl)
      | inr f ↦
          rw
            (
              f,
              drop_all (31 * k) content (ltb→le _ _ f),
              append-nil recovered,
              field_elements_nil (suc n),
            )
            refl
    ]

equal_bytes_refl : (b : Bytes) → equal_bytes b b ≡ true
unfolding equal_bytes
equal_bytes_refl [] = refl
equal_bytes_refl (x ∷ xs) = let e : (x == x) ≡ true = ground arith in rw (e, equal_bytes_refl xs)

-- A text that fits into `n` field elements is packed into them, 31 bytes each behind a zero byte
-- and zeros up to the end of the blob, and the check of the text read back never fails.
pub pack_blob-field_elements :
    (n : ℕ) (content : Bytes)
    → length content ≤ 31 * n
    → pack_blob (32 * n) content ≡ ok (field_elements n content)
unfolding pack_blob
pack_blob-field_elements n content h = rw (
  pack_from_form n 0 (suc (length content)) content [] [] refl (omega arith) (omega arith),
  equal_bytes_refl content,
)

-- Without room for another element a round panics.
packing_round_full :
    (k : ℕ) (content front recovered : Bytes)
    → length front ≡ 32 * k
    → packing_round content (31 * k) (front ++ zeros 0) recovered ≡ panic slice_bounds
unfolding packing_round
packing_round_full k content front recovered p =
    let slot : 31 * k / 31 * 32 ≡ length front = omega arith in
    let beyond : (leb (length front + 1) (length front + 32)
          && leb (length front + 32) (length front))
        ≡ false =
      ground arith in
    rw (
      append-nil front,
      slot,
      slice_outside {E = PackError} front (length front + 1) (length front + 32) beyond,
    )

pack_from_full :
    (n k fuel : ℕ) (content front recovered : Bytes)
    → length front ≡ 32 * k
    → 31 * (k + n) < length content
    → length content - 31 * k < fuel
    → pack_from fuel content (31 * k) (front ++ zeros (32 * n)) recovered ≡ panic slice_bounds
unfolding pack_from
pack_from_full n k zero content front recovered p q h = elim h [ ]
pack_from_full zero k (suc fuel) content front recovered p q h =
    rw (
      lt→ltb (31 * k) (length content) (omega arith),
      packing_round_full k content front recovered p,
    )
pack_from_full (suc n) k (suc fuel) content front recovered p q h =
    let room : 32 * suc n ≡ 32 + 32 * n = omega arith in
    let next : 31 * k + 31 ≡ 31 * suc k = omega arith in
    let src = take 31 (drop (31 * k) content) in
    let element = field_element src in
    let ih =
      pack_from_full n (suc k) fuel content (front ++ element) (recovered ++ src)
        (omega (
          arith,
          length-append front element,
          length-field_element src (omega (arith, length-take 31 (drop (31 * k) content))),
        ))
        (omega arith) (omega arith) in
    let more : 31 * k < length content = omega arith in
    rw
      (
        lt→ltb (31 * k) (length content) more,
        room,
        packing_round_form k (32 * n) content front recovered p more,
        sym (append_assoc front element (zeros (32 * n))),
        next,
      )
      ih

-- A text that is too long for the blob makes the loop panic, before it is checked or lost.
pub pack_blob_full :
    (n : ℕ) (content : Bytes)
    → 31 * n < length content
    → pack_blob (32 * n) content ≡ panic slice_bounds
unfolding pack_blob
pack_blob_full n content h =
    rw (pack_from_full n 0 (suc (length content)) content [] [] refl (omega arith) (omega arith))
