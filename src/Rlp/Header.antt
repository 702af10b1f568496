-- ===== src/Rlp/Header.antt =====
-- What the encoders of evm/what-is-recursive-length-prefix-rlp share word for word:
-- rlp/encode/encode.go and corrected/encode/encode.go.
pub mod Laws
use blog_solutions.Prelude.{
  ℤ, pos, negsuc, ℕ, ◌+◌, ◌/◌, ◌%◌, ◌<◌, ◌^◌, [], ◌∷◌, ◌++◌, reverse, length, ltb, leb, ◌==◌, Bool,
  true, false, if◌then◌else◌, Outcome, ok, panic, input_too_long, ◌>>=◌, Acc, lt_wf, dite, dec_lt,
  arith,
}
use blog_solutions.Rlp.Item.{Bytes}
use blog_solutions.Rlp.Value.{Kind, other_kind}

-- The encoders return no errors.
abbrev pub Encoded {ℓ} : Type ℓ → Type ℓ
Encoded A = Outcome ⊥ A

-- The loop of `toBinary`: the bytes that it writes, lowest first.
unfoldable pub write_bytes : (x : ℕ) → Acc ◌<◌ x → Bytes
write_bytes x (Acc.intro _ smaller) =
    dite (dec_lt 0 x) (λ h. (x % 256) ∷ write_bytes (x / 256) (smaller (x / 256) (omega arith)))
      (λ _. [])

-- Of a negative number the loop writes nothing.
unfoldable pub to_binary : ℤ → Bytes
to_binary (pos x) = if x == 0 then [] else reverse (write_bytes x (lt_wf.apply x))
to_binary (negsuc x) = []

-- `length` is the length of a slice.
unfoldable pub encode_length : ℕ → ℕ → Encoded Bytes
encode_length len offset =
    if ltb len 56
    then ok (((len + offset) % 256) ∷ [])
    else if leb (2 ^ 64) len
    then panic input_too_long
    else (let bl = to_binary (pos len) in ok (((length bl + offset + 55) % 256) ∷ bl))

-- `len(v) == 1 && v[0] < 0x80`
unfoldable pub is_single_byte : Bytes → Bool
is_single_byte (b ∷ []) = ltb b 0x80
is_single_byte _ = false

-- The cases of `string` and `[]byte`, and the end of `encodeInteger`.
unfoldable pub encode_bytes : Bytes → Encoded Bytes
encode_bytes v =
    if is_single_byte v then ok v else do head ← encode_length (length v) 0x80; ok (head ++ v)

unfoldable pub is_integer_kind : Kind → Bool
is_integer_kind other_kind = false
is_integer_kind _ = true
