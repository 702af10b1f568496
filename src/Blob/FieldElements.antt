-- ===== src/Blob/FieldElements.antt =====
-- A blob as a sequence of field elements, which the packing is shown to build.
use blog_solutions.Prelude.{
  ◌∙◌, ap, ℕ, zero, suc, ◌+◌, ◌-◌, ◌*◌, ◌/◌, ◌≤◌, ◌<◌, ◌≡◌, refl, sym, [], ◌∷◌, ◌++◌, length, take,
  drop, replicate, ltb, if◌then◌else◌, ok, arith, length-append, length-take, length-drop,
  length-replicate, take-append, drop-append, drop_add, take_all, replicate_add, append_assoc,
  Bool-cases, inl, inr, ltb→lt, ltb→le,
}
use blog_solutions.Rlp.Item.{Bytes}
use blog_solutions.Slices.{slice_within, part, part-append, slice-part}
use blog_solutions.Blob.Packing.{PackError, copy_at, packing_round}
use Prim.Native.Nat.{min}

abbrev pub zeros : ℕ → Bytes
zeros n = replicate n 0

pub zeros_add : (n k : ℕ) → zeros (n + k) ≡ zeros n ++ zeros k
zeros_add n k = replicate_add n k 0

-- A zero byte, which keeps the number below the modulus, and at most 31 bytes of text, filled up
-- with zeros.
abbrev pub field_element : Bytes → Bytes
field_element chunk = 0 ∷ chunk ++ zeros (31 - length chunk)

-- A text over `n` field elements.
unfoldable pub field_elements : ℕ → Bytes → Bytes
field_elements zero content = []
field_elements (suc n) content =
    field_element (take 31 content) ++ field_elements n (drop 31 content)

pub field_elements_nil : (n : ℕ) → field_elements n [] ≡ zeros (32 * n)
unfolding field_elements
field_elements_nil zero = refl
field_elements_nil (suc n) =
    let e : 32 * suc n ≡ 32 + 32 * n = omega arith in
    rw (field_elements_nil n, e, zeros_add 32 (32 * n))

copy_at-append :
    (front mid back src : Bytes) (room : ℕ)
    → length mid ≡ length src
    → length src ≤ room
    → copy_at (front ++ (mid ++ back)) (length front) room src ≡ front ++ (src ++ back)
unfolding copy_at
copy_at-append front mid back src room p q =
    let e : min room (length src) ≡ length src = omega arith in
    rw (
      e,
      drop_add (length front) (length src) (front ++ (mid ++ back)),
      drop-append front (mid ++ back),
      take-append front (mid ++ back),
      take_all (length src) src (omega arith),
      sym p,
      drop-append mid back,
    )

-- A text at the start of an empty blob.
pub copy_at_start :
    (size : ℕ) (src : Bytes)
    → length src ≤ size
    → copy_at (zeros size) 0 size src ≡ src ++ zeros (size - length src)
copy_at_start size src h =
    let e : size ≡ length src + (size - length src) = omega arith in
    let cut : zeros size ≡ zeros (length src) ++ zeros (size - length src) =
      ap zeros e ∙ zeros_add (length src) (size - length src) in
    rw (cut) (
      copy_at-append [] (zeros (length src)) (zeros (size - length src)) src size
        (length-replicate (length src) 0) h)

-- The zeros behind `front`, cut where a chunk goes.
cut_zeros :
    (front : Bytes) (c m : ℕ)
    → c ≤ 31
    → front ++ zeros (32 + m) ≡ (front ++ (0 ∷ [])) ++ (zeros c ++ zeros (31 - c + m))
cut_zeros front c m h =
    let d : 32 + m ≡ suc (31 + m) = omega arith in
    let e : 31 + m ≡ c + (31 - c + m) = omega arith in
    rw (
      d,
      append_assoc front (0 ∷ []) (zeros c ++ zeros (31 - c + m)),
      sym (zeros_add c (31 - c + m)),
      sym e,
    )

join_element :
    (front src : Bytes) (m : ℕ)
    → (front ++ (0 ∷ [])) ++ (src ++ zeros (31 - length src + m))
      ≡ front ++ (field_element src ++ zeros m)
join_element front src m = rw (
  append_assoc front (0 ∷ []) (src ++ zeros (31 - length src + m)),
  zeros_add (31 - length src) m,
  append_assoc src (zeros (31 - length src)) (zeros m),
)

take-min : (n : ℕ) (xs : Bytes) → take (min n (length xs)) xs ≡ take n xs
take-min n xs = elim (Bool-cases (ltb n (length xs))) [
  | inl t ↦ let p = ltb→lt _ _ t in let e : min n (length xs) ≡ n = omega arith in rw e
  | inr f ↦
      let p = ltb→le _ _ f in
      let e : min n (length xs) ≡ length xs = omega arith in
      rw (e, take_all n xs p) (take_all (length xs) xs (omega arith))
]

-- The length of what a take has found can be taken again.
take-length : (n : ℕ) (xs : Bytes) → take (length (take n xs)) xs ≡ take n xs
take-length n xs = rw (length-take n xs) (take-min n xs)

pub copy_at-field_element :
    (front src : Bytes) (m : ℕ)
    → length src ≤ 31
    → copy_at (front ++ zeros (32 + m)) (length front + 1) 31 src
      ≡ front ++ (field_element src ++ zeros m)
copy_at-field_element front src m h =
    let c = length src in
    rw
      (
        cut_zeros front c m h,
        sym (length-append front (0 ∷ [])),
        copy_at-append (front ++ 0 ∷ []) (zeros c) (zeros (31 - c + m)) src 31
            (length-replicate c 0) h,
      )
      (join_element front src m)

-- The text of the element behind `front`.
part-field_element :
    (front src : Bytes) (m : ℕ)
    → part (front ++ (field_element src ++ zeros m)) (length front + 1) (length src) ≡ src
part-field_element front src m = rw (sym (join_element front src m)) (
    part-append (front ++ 0 ∷ []) src (zeros (31 - length src + m)) _ _
      (omega (arith, length-append front (0 ∷ []))) refl)

-- A round puts the next field element in its place and reads its text back.
pub packing_round_form :
    (k m : ℕ) (content front recovered : Bytes)
    → length front ≡ 32 * k
    → 31 * k < length content
    → packing_round content (31 * k) (front ++ zeros (32 + m)) recovered
      ≡ ok (
        front ++ (field_element (take 31 (drop (31 * k) content)) ++ zeros m),
        recovered ++ take 31 (drop (31 * k) content),
      )
unfolding packing_round
packing_round_form k m content front recovered p q =
    let rest = drop (31 * k) content in
    let src = take 31 rest in
    let c = length src in
    let c_le : c ≡ min 31 (length content - 31 * k) =
      omega (arith, length-take 31 rest, length-drop (31 * k) content) in
    let end : (if ltb (length content) (31 * k + 31) then length content else 31 * k + 31)
        ≡ 31 * k + c =
      ground arith in
    let slot : 31 * k / 31 * 32 ≡ length front = omega arith in
    let payload = front ++ zeros (32 + m) in
    let long : length payload ≡ length front + 32 + m =
      omega (arith, length-append front (zeros (32 + m)), length-replicate {A = ℕ} (32 + m) 0) in
    let dst =
      slice_within {E = PackError} payload (length front + 1) (length front + 32) (omega arith)
        (omega arith) in
    let room : length
          (take (length front + 32 - (length front + 1)) (drop (length front + 1) payload))
        ≡ 31 =
      omega (
        arith,
        length-take (length front + 32 - (length front + 1)) (drop (length front + 1) payload),
        length-drop (length front + 1) payload,
      ) in
    let there : length front + 1 + (31 * k + c) - 31 * k ≡ length front + 1 + c = omega arith in
    let packed = front ++ (field_element src ++ zeros m) in
    let packed_long : length front + 1 + c ≤ length packed = omega (
      arith,
      length-append front (field_element src ++ zeros m),
      length-append (src ++ zeros (31 - c)) (zeros m),
      length-append src (zeros (31 - c)),
    ) in
    rw (
      end,
      slot,
      dst,
      room,
      slice-part {E = PackError} content (31 * k) c (omega arith),
      take-length 31 rest,
      copy_at-field_element front src m (omega arith),
      there,
      slice-part {E = PackError} packed (length front + 1) c packed_long,
      part-field_element front src m,
    )

pub length-field_element : (chunk : Bytes) → length chunk ≤ 31 → length (field_element chunk) ≡ 32
length-field_element chunk h = omega (
  arith,
  length-append chunk (zeros (31 - length chunk)),
  length-replicate {A = ℕ} (31 - length chunk) 0,
)
