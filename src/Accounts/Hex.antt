-- ===== src/Accounts/Hex.antt =====
-- `EncodeToString` and `DecodeString` of encoding/hex, which GetAccount uses:
-- evm/evm-tx-understanding-legacy-ethereum/transaction-types/account/account.go
use blog_solutions.Prelude.{
  All, ℕ, ◌+◌, ◌-◌, ◌*◌, ◌/◌, ◌%◌, ◌<◌, ◌≡◌, refl, [], ◌∷◌, Option, none, some, ◌&&◌, ltb, leb,
  if◌then◌else◌, arith,
}
use blog_solutions.Rlp.Item.{Bytes, IsByte}

unfoldable pub hex_digit : ℕ → ℕ
hex_digit n = if ltb n 10 then 0x30 + n else 0x57 + n

unfoldable pub hex_encode : Bytes → Bytes
hex_encode [] = []
hex_encode (b ∷ s) = hex_digit (b / 16) ∷ hex_digit (b % 16) ∷ hex_encode s

-- Digits of both cases are read.
unfoldable pub digit_value : ℕ → Option ℕ
digit_value c =
    if leb 0x30 c && leb c 0x39
    then some (c - 0x30)
    else if leb 0x61 c && leb c 0x66
    then some (c - 0x57)
    else if leb 0x41 c && leb c 0x46
    then some (c - 0x37)
    else none

abbrev pub with_byte : Option ℕ → Option ℕ → Option Bytes → Option Bytes
with_byte (some h) (some l) (some s) = some ((16 * h + l) ∷ s)
with_byte _ _ _ = none

-- An odd length is an error.
unfoldable pub hex_decode : Bytes → Option Bytes
hex_decode [] = some []
hex_decode (a ∷ []) = none
hex_decode (a ∷ b ∷ s) = with_byte (digit_value a) (digit_value b) (hex_decode s)

digit_value-hex_digit : (n : ℕ) → n < 16 → digit_value (hex_digit n) ≡ some n
unfolding digit_value hex_digit
digit_value-hex_digit n h = ground arith

-- The bytes of a text are read back.
pub hex_decode-hex_encode : (s : Bytes) → All IsByte s → hex_decode (hex_encode s) ≡ some s
unfolding hex_decode hex_encode
hex_decode-hex_encode [] a = refl
hex_decode-hex_encode (b ∷ s) a =
    let high = digit_value-hex_digit (b / 16) (omega (arith, a.0)) in
    let low = digit_value-hex_digit (b % 16) (omega arith) in
    let same : 16 * (b / 16) + b % 16 ≡ b = omega arith in
    rw (high, low, hex_decode-hex_encode s a.1, same) refl
