-- ===== src/Rlp/Header/Laws.antt =====
-- `toBinary` and `encodeLength` against the specification.
use blog_solutions.Prelude.{
  pos, ℕ, zero, suc, ◌/◌, ◌%◌, ◌<◌, ◌≤◌, ◌^◌, ◌≡◌, [], ◌∷◌, reverse, length, Acc, lt_wf, arith, ok,
}
use blog_solutions.Rlp.Item.{Bytes}
use blog_solutions.Rlp.Header.{write_bytes, to_binary, encode_length, encode_bytes, is_single_byte}
use blog_solutions.Rlp.BigEndian.{big_endian, length-big_endian}
use blog_solutions.Rlp.Spec.{header, rlp_bytes}
use mathlib.Core.List.{reverse-append}
use native.Mathlib.Nat.{pow-suc}

reverse-write_bytes :
    (k x : ℕ) (w : Acc ◌<◌ x) → x < 256 ^ k → reverse (write_bytes x w) ≡ big_endian k x
unfolding write_bytes big_endian
reverse-write_bytes zero x (Acc.intro _ smaller) h = ground arith
reverse-write_bytes (suc k) x (Acc.intro _ smaller) h = grind (
  arith,
  λ (w : Acc ◌<◌ (x / 256)). reverse-write_bytes k (x / 256) w (omega (arith, pow-suc 256 k)),
  λ (w : Acc ◌<◌ (x / 256)). reverse-append ((x % 256) ∷ []) (write_bytes (x / 256) w),
)

pub to_binary-big_endian : (x : ℕ) → x < 2 ^ 64 → to_binary (pos x) ≡ big_endian 8 x
unfolding to_binary big_endian
to_binary-big_endian x h = ground (arith, reverse-write_bytes 8 x (lt_wf.apply x))

-- On every length below 2 ^ 64 the header is that of the specification.
pub encode_length-header :
    (len offset : ℕ)
    → len < 2 ^ 64
    → offset ≤ 0xc0
    → encode_length len offset ≡ ok (header len offset)
unfolding encode_length header
encode_length-header len offset h p =
    ground (arith, to_binary-big_endian len h, length-big_endian 8 len)

pub encode_bytes-rlp_bytes : (b : Bytes) → length b < 2 ^ 64 → encode_bytes b ≡ ok (rlp_bytes b)
unfolding encode_bytes is_single_byte rlp_bytes
encode_bytes-rlp_bytes [] h = rw (encode_length-header 0 0x80 h (omega arith))
encode_bytes-rlp_bytes (b ∷ []) h = ground (arith, encode_length-header 1 0x80)
encode_bytes-rlp_bytes (b ∷ c ∷ bs) h =
    rw (encode_length-header (length (b ∷ c ∷ bs)) 0x80 h (omega arith))
