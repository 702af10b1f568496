-- ===== src/Rlp/Matches.antt =====
-- What the original decoder makes of each form of item, against the corrected one.
use blog_solutions.Prelude.{
  ℕ, ◌+◌, ◌-◌, ◌*◌, ◌%◌, ◌<◌, ◌≤◌, ◌≡◌, refl, sym, ◌∙◌, [], ◌∷◌, length, length-take, drop, ltb,
  leb, if◌then◌else◌, arith, ok, err, panic, slice_bounds, out_of_fuel, ◌>>=◌, Bool-cases, inl, inr,
  false, All, All-take, All-drop, ge→ltb, ltb→le, ltb→lt, word, sign_bit, add_int, lt_int,
  slice_bounds, ◌&&◌,
}
use blog_solutions.Rlp.Item.{
  Bytes, IsByte, Items, DecodeError, empty_input, long_string_too_short, long_list_too_short,
  declared_length_exceeds,
}
use blog_solutions.Slices.{slice_outside, slice, slice-part, part, length-part}
use blog_solutions.Rlp.BigEndian.{from_bytes, from_bytes-lt}
use blog_solutions.Rlp.Corrected.Decode as Corrected
use blog_solutions.Rlp.Corrected.Decode.{Decoded}
use blog_solutions.Rlp.Corrected.Decode.Forms as CorrectedForms
use blog_solutions.Rlp.Corrected.Decode.Reads.{shift_in-from_bytes, from_bytes-ge}
use blog_solutions.Rlp.Original.Decode as Original
use blog_solutions.Rlp.Original.Decode.Forms as OriginalForms

-- What the original makes of an input whose declared length exceeds it.
abbrev pub IsOverlong {ℓ} : {A : Type ℓ} → Decoded A → Type 0
IsOverlong (err long_string_too_short) = Unit
IsOverlong (err long_list_too_short) = Unit
IsOverlong (panic slice_bounds) = Unit
IsOverlong _ = ⊥

-- The ends that both decoders have.
abbrev pub IsShared {ℓ} : {A : Type ℓ} → Decoded A → Type 0
IsShared (err declared_length_exceeds) = ⊥
IsShared _ = Unit

-- `Matches r s`: `s` is what the original comes to where the corrected decoder comes to `r`.
pub data Matches {ℓ} {A : Type ℓ} : Decoded A → Decoded A → Type ℓ where
  same : {r : Decoded A} → IsShared r → Matches r r
  overlong : {s : Decoded A} → IsOverlong s → Matches (err declared_length_exceeds) s

pub IsOverlong-bind {ℓ κ} :
    {A : Type ℓ} {B : Type κ} (s : Decoded A) (g : A → Decoded B)
    → IsOverlong s
    → IsOverlong (s >>= g)
IsOverlong-bind (err long_string_too_short) g h = tt
IsOverlong-bind (err long_list_too_short) g h = tt
IsOverlong-bind (panic slice_bounds) g h = tt
IsOverlong-bind (err empty_input) g h = absurd h
IsOverlong-bind _ g h = absurd h

pub Matches-bind {ℓ κ} :
    {A : Type ℓ} {B : Type κ} {r s : Decoded A} (f g : A → Decoded B)
    → Matches r s
    → ((a : A) → r ≡ ok a → Matches (f a) (g a))
    → Matches (r >>= f) (s >>= g)
Matches-bind {r = ok a} f g (same h) k = k a refl
Matches-bind {r = err declared_length_exceeds} f g (same h) k = absurd h
Matches-bind {r = err empty_input} f g (same h) k = same tt
Matches-bind {r = err _} f g (same h) k = same tt
Matches-bind {r = panic p} f g (same h) k = same tt
Matches-bind {r = out_of_fuel} f g (same h) k = same tt
Matches-bind f g (overlong {s} h) k = overlong (IsOverlong-bind s g h)

-- The pattern that the original reads is the number that the corrected decoder reads.
pub Original-shift_in :
    (n : ℕ) (bs : Bytes)
    → All IsByte bs
    → from_bytes n bs < word
    → Original.shift_in n bs ≡ from_bytes n bs
unfolding Original.shift_in from_bytes
Original-shift_in n [] h k = refl
Original-shift_in n (b ∷ bs) h k =
    let e : add_int (n * 256 % word) b ≡ n * 256 + b =
      omega (arith, from_bytes-ge (n * 256 + b) bs) in
    rw e (Original-shift_in (n * 256 + b) bs h.1 k)

declared-eq :
    (input : Bytes) (l : ℕ)
    → All IsByte input
    → l ≤ 8
    → (OriginalForms.declared input l ≡ CorrectedForms.declared input l)
      × (CorrectedForms.declared input l < word)
declared-eq input l h k =
    let bs : Bytes = part input 1 l in
    let b : All IsByte bs = All-take IsByte l (drop 1 input) (All-drop IsByte 1 input h) in
    let lt : from_bytes 0 bs < word =
      from_bytes-lt bs b (omega (arith, length-take l (drop 1 input))) in
    let e : Corrected.shift_in 0 bs ≡ from_bytes 0 bs = shift_in-from_bytes 0 bs b lt in
    (Original-shift_in 0 bs b lt ∙ sym e, rw e lt)

-- A length that fits is summed exactly, and one that does not is outside the slice.
end_within :
    (len l n : ℕ)
    → len < sign_bit
    → 1 + l ≤ len
    → n ≤ len - 1 - l
    → (add_int (1 + l) n ≡ 1 + l + n) × (lt_int len (1 + l + n) ≡ false)
end_within len l n h a b = (omega arith, ge→ltb _ _ (omega arith))

end_outside :
    (len l n : ℕ)
    → len < sign_bit
    → n < word
    → 1 + l ≤ len
    → len - 1 - l < n
    → (leb (1 + l) (add_int (1 + l) n) && leb (add_int (1 + l) n) len) ≡ false
end_outside len l n h w a b = ground arith

-- The original reports a declared length that does not fit, or its slice panics.
end-IsOverlong {ℓ} :
    {A : Type ℓ} (input : Bytes) (l n : ℕ) (e : DecodeError) (g : Bytes → Decoded A)
    → length input < sign_bit
    → n < word
    → 1 + l ≤ length input
    → length input - 1 - l < n
    → IsOverlong {A = A} (err e)
    → IsOverlong {A = A} (
        let end = add_int (1 + l) n in
        if lt_int (length input) end then err e else slice input (1 + l) end >>= g)
end-IsOverlong input l n e g h w a b o =
    elim (Bool-cases (lt_int (length input) (add_int (1 + l) n))) [
      | inl v ↦ rw v o
      | inr v ↦
          rw
            (
              v,
              slice_outside input (1 + l) (add_int (1 + l) n)
                  (end_outside (length input) l n h w a b),
            )
            tt
    ]

pub long_string-Matches :
    (input : Bytes) (p : ℕ)
    → All IsByte input
    → length input < sign_bit
    → p ≤ 0xbf
    → Matches (Corrected.long_string input p) (Original.long_string input p)
long_string-Matches input p b h q =
    let l = p - 0xb7 in
    let n = CorrectedForms.declared input l in
    let (e, w) = declared-eq input l b (omega arith) in
    rw (CorrectedForms.long_string_form input p, OriginalForms.long_string_form input p, e)
      (elim (Bool-cases (ltb (length input) (1 + l))) [
        | inl t ↦ rw t (same tt)
        | inr t ↦ elim (Bool-cases (ltb (length input - 1 - l) n)) [
          | inl u ↦
              rw (t, u)
                (overlong (end-IsOverlong input l n _ _ h w (ltb→le _ _ t) (ltb→lt _ _ u) tt))
          | inr u ↦
              let (f, g) = end_within (length input) l n h (ltb→le _ _ t) (ltb→le _ _ u) in
              rw
                (t, u, f, g, slice-part input (1 + l) n (omega (arith, ltb→le _ _ t, ltb→le _ _ u)))
                (same tt)
        ]
      ])

pub short_string-Matches :
    (input : Bytes) (p : ℕ)
    → Matches (Corrected.short_string input p) (Original.short_string input p)
short_string-Matches input p =
    rw (CorrectedForms.short_string_form input p, OriginalForms.short_string_form input p)
      (same (ground arith))

-- Two decoders of payloads that agree on all payloads shorter than the input.
abbrev pub MatchBelow : ℕ → (Bytes → Decoded Items) → (Bytes → Decoded Items) → Type 0
MatchBelow n c o =
    (payload : Bytes) → All IsByte payload → length payload < n → Matches (c payload) (o payload)

All-part : (input : Bytes) (k n : ℕ) → All IsByte input → All IsByte (part input k n)
All-part input k n b = All-take IsByte n (drop k input) (All-drop IsByte k input b)

pub short_list-Matches :
    (c o : Bytes → Decoded Items) (input : Bytes) (p : ℕ)
    → All IsByte input
    → MatchBelow (length input) c o
    → Matches (Corrected.short_list c input p) (Original.short_list o input p)
short_list-Matches c o input p b k =
    let l = p - 0xc0 in
    rw (CorrectedForms.short_list_form c input p, OriginalForms.short_list_form o input p)
      (elim (Bool-cases (ltb (length input) (1 + l))) [
        | inl t ↦ rw t (same tt)
        | inr t ↦ rw t (
            Matches-bind _ _
              (k (part input 1 l) (All-part input 1 l b)
                (omega (arith, ltb→le _ _ t, length-part input 1 l)))
              (λ a _. same tt))
      ])

pub long_list-Matches :
    (c o : Bytes → Decoded Items) (input : Bytes) (p : ℕ)
    → All IsByte input
    → length input < sign_bit
    → p ≤ 0xff
    → MatchBelow (length input) c o
    → Matches (Corrected.long_list c input p) (Original.long_list o input p)
long_list-Matches c o input p b h q k =
    let l = p - 0xf7 in
    let n = CorrectedForms.declared input l in
    let (e, w) = declared-eq input l b (omega arith) in
    rw (CorrectedForms.long_list_form c input p, OriginalForms.long_list_form o input p, e)
      (elim (Bool-cases (ltb (length input) (1 + l))) [
        | inl t ↦ rw t (same tt)
        | inr t ↦ elim (Bool-cases (ltb (length input - 1 - l) n)) [
          | inl u ↦
              rw (t, u)
                (overlong (end-IsOverlong input l n _ _ h w (ltb→le _ _ t) (ltb→lt _ _ u) tt))
          | inr u ↦
              let (f, g) = end_within (length input) l n h (ltb→le _ _ t) (ltb→le _ _ u) in
              rw
                (t, u, f, g, slice-part input (1 + l) n (omega (arith, ltb→le _ _ t, ltb→le _ _ u)))
                (Matches-bind _ _
                  (k (part input (1 + l) n) (All-part input (1 + l) n b)
                    (omega (arith, ltb→le _ _ t, ltb→le _ _ u, length-part input (1 + l) n)))
                  (λ a _. same tt))
        ]
      ])
