-- ===== src/Blob/Unpacking.antt =====
-- What a reader finds in the blob.
use blog_solutions.Prelude.{
  ℕ, zero, suc, ◌+◌, ◌-◌, ◌*◌, ◌≤◌, ◌<◌, ◌≡◌, refl, sym, subst, [], ◌∷◌, ◌++◌, length, take, drop,
  ltb, ok, arith, All, All-take, All-drop, All-append, length-append, length-take, length-drop,
  length-replicate, take-append, drop-append, drop_add, take_all, drop_all, append_assoc,
  append-nil, take-drop, Bool-cases, inl, inr, ltb→lt, ltb→le,
}
use blog_solutions.Rlp.Item.{Bytes, IsByte}
use blog_solutions.Rlp.BigEndian.{from_bytes, from_bytes_below}
use blog_solutions.Slices.{part}
use blog_solutions.Blob.Packing.{pack_blob}
use blog_solutions.Blob.FieldElements.{
  zeros, zeros_add, field_element, field_elements, length-field_element,
}
use blog_solutions.Blob.Loop.{pack_blob-field_elements, pack_blob_full}

-- The 31 bytes behind the first one, of each of `n` elements.
unfoldable pub unpack : ℕ → Bytes → Bytes
unpack zero payload = []
unpack (suc n) payload = take 31 (drop 1 payload) ++ unpack n (drop 32 payload)

-- The order of the group in which the commitments of EIP-4844 are, which bounds a field element.
abbrev pub bls_modulus : ℕ
bls_modulus = 0x73eda753299d7d483339d80809a1d80553bda402fffe5bfeffffffff00000001

padded_long : (chunk : Bytes) → length chunk ≤ 31 → length (chunk ++ zeros (31 - length chunk)) ≡ 31
padded_long chunk h = omega (
  arith,
  length-append chunk (zeros (31 - length chunk)),
  length-replicate {A = ℕ} (31 - length chunk) 0,
)

zeros-All : (n : ℕ) → All IsByte (zeros n)
zeros-All zero = tt
zeros-All (suc n) = (omega arith, zeros-All n)

-- A packed blob is the one of the specification.
packed :
    (n : ℕ) (content payload : Bytes)
    → length content ≤ 31 * n
    → pack_blob (32 * n) content ≡ ok payload
    → payload ≡ field_elements n content
packed n content payload h e = cc (e, pack_blob-field_elements n content h)

unpack-element :
    (n : ℕ) (chunk rest : Bytes)
    → length chunk ≤ 31
    → unpack (suc n) (field_element chunk ++ rest)
      ≡ (chunk ++ zeros (31 - length chunk)) ++ unpack n rest
unfolding unpack
unpack-element n chunk rest h =
    let text = chunk ++ zeros (31 - length chunk) in
    let long = padded_long chunk h in
    rw (
      subst (λ (l : ℕ). take l (text ++ rest) ≡ text) long (take-append text rest),
      subst (λ (l : ℕ). drop l (text ++ rest) ≡ rest) long (drop-append text rest),
    )

-- The filling of the last element, and the elements behind it.
padding :
    (n : ℕ) (content : Bytes)
    → length content ≤ 31 * suc n
    → (take 31 content ++ zeros (31 - length (take 31 content)))
        ++ (drop 31 content ++ zeros (31 * n - length (drop 31 content)))
      ≡ content ++ zeros (31 * suc n - length content)
padding n content h = elim (Bool-cases (ltb 31 (length content))) [
  | inl t ↦
      let more = ltb→lt _ _ t in
      let none_left : 31 - length (take 31 content) ≡ 0 = omega (arith, length-take 31 content) in
      let left : 31 * n - length (drop 31 content) ≡ 31 * suc n - length content =
        omega (arith, length-drop 31 content) in
      rw
        (
          none_left,
          left,
          append-nil (take 31 content),
          sym (
              append_assoc (take 31 content) (drop 31 content)
                (zeros (31 * suc n - length content))),
          take-drop 31 content,
        )
        refl
  | inr f ↦
      let few = ltb→le _ _ f in
      let sum : 31 * suc n - length content ≡ 31 - length content + 31 * n = omega arith in
      let whole : 31 * n - 0 ≡ 31 * n = omega arith in
      rw
        (
          take_all 31 content few,
          drop_all 31 content few,
          whole,
          sum,
          zeros_add (31 - length content) (31 * n),
          append_assoc content (zeros (31 - length content)) (zeros (31 * n)),
        )
        refl
]

unpack-field_elements :
    (n : ℕ) (content : Bytes)
    → length content ≤ 31 * n
    → unpack n (field_elements n content) ≡ content ++ zeros (31 * n - length content)
unfolding field_elements
unpack-field_elements zero [] h = unfold unpack in refl
unpack-field_elements zero (x ∷ xs) h = elim h [ ]
unpack-field_elements (suc n) content h =
    rw
      (
        unpack-element n (take 31 content) (field_elements n (drop 31 content))
            (omega (arith, length-take 31 content)),
        unpack-field_elements n (drop 31 content) (omega (arith, length-drop 31 content)),
      )
      (padding n content h)

-- The reader of a packed blob gets the text back, with zeros up to the size of the blob.
pub unpack-pack_blob :
    (n : ℕ) (content payload : Bytes)
    → pack_blob (32 * n) content ≡ ok payload
    → unpack n payload ≡ content ++ zeros (31 * n - length content)
unpack-pack_blob n content payload e = elim (Bool-cases (ltb (31 * n) (length content))) [
  | inl t ↦ cc (e, pack_blob_full n content (ltb→lt _ _ t))
  | inr f ↦
      let h = ltb→le _ _ f in rw (packed n content payload h e) (unpack-field_elements n content h)
]

-- The number of an element: it has a zero byte and 31 others.
field_element-lt :
    (chunk rest : Bytes)
    → All IsByte chunk
    → length chunk ≤ 31
    → from_bytes 0 (part (field_element chunk ++ rest) 0 32) < bls_modulus
field_element-lt chunk rest a h =
    let long = length-field_element chunk h in
    rw
      (subst (λ (l : ℕ). take l (field_element chunk ++ rest) ≡ field_element chunk) long
        (take-append (field_element chunk) rest))
      (unfold from_bytes in
        from_bytes_below bls_modulus 31 0 (chunk ++ zeros (31 - length chunk))
          (All-append IsByte chunk (zeros (31 - length chunk)) a (zeros-All (31 - length chunk)))
          (omega (arith, padded_long chunk h)) (omega arith))

field_elements-lt :
    (n k : ℕ) (content : Bytes)
    → All IsByte content
    → k < n
    → from_bytes 0 (part (field_elements n content) (32 * k) 32) < bls_modulus
unfolding field_elements
field_elements-lt zero k content a h = elim h [ ]
field_elements-lt (suc n) zero content a h =
    field_element-lt (take 31 content) (field_elements n (drop 31 content))
      (All-take IsByte 31 content a) (omega (arith, length-take 31 content))
field_elements-lt (suc n) (suc k) content a h =
    let next : 32 * suc k ≡ 32 + 32 * k = omega arith in
    let element = field_element (take 31 content) in
    let long = length-field_element (take 31 content) (omega (arith, length-take 31 content)) in
    let rest = field_elements n (drop 31 content) in
    rw
      (
        next,
        drop_add 32 (32 * k) (element ++ rest),
        subst (λ (l : ℕ). drop l (element ++ rest) ≡ rest) long (drop-append element rest),
      )
      (field_elements-lt n k (drop 31 content) (All-drop IsByte 31 content a) (omega arith))

-- Every element of a packed blob is below the modulus, as the commitment to a blob asks for.
pub pack_blob-lt :
    (n k : ℕ) (content payload : Bytes)
    → All IsByte content
    → pack_blob (32 * n) content ≡ ok payload
    → k < n
    → from_bytes 0 (part payload (32 * k) 32) < bls_modulus
pack_blob-lt n k content payload a e h = elim (Bool-cases (ltb (31 * n) (length content))) [
  | inl t ↦ cc (e, pack_blob_full n content (ltb→lt _ _ t))
  | inr f ↦
      let p = ltb→le _ _ f in rw (packed n content payload p e) (field_elements-lt n k content a h)
]
