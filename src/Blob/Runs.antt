-- ===== src/Blob/Runs.antt =====
-- The theorems on blobs at concrete inputs.
use blog_solutions.Prelude.{
  ◌≡◌, refl, [], ◌∷◌, ◌++◌, ◌<◌, ◌*◌, ◌-◌, arith, ok, panic, slice_bounds, All, replicate, length,
}
use blog_solutions.Rlp.Item.{Bytes, IsByte}
use blog_solutions.Rlp.BigEndian.{from_bytes}
use blog_solutions.Slices.{slice, part}
use blog_solutions.Blob.Packing.{copy_at, packing_round, pack_from, equal_bytes, pack_blob}
use blog_solutions.Blob.FieldElements.{field_elements}
use blog_solutions.Blob.Loop.{pack_blob-field_elements, pack_blob_full}
use blog_solutions.Blob.Unpacking.{unpack, bls_modulus, unpack-pack_blob, pack_blob-lt}

-- "Hello, EIP-4844 Blob Transaction"
abbrev text : Bytes
text =
    0x48 ∷ 0x65 ∷ 0x6c ∷ 0x6c ∷ 0x6f ∷ 0x2c ∷ 0x20 ∷ 0x45 ∷ 0x49 ∷ 0x50 ∷ 0x2d ∷ 0x34 ∷ 0x38 ∷ 0x34
    ∷ 0x34 ∷ 0x20 ∷ 0x42 ∷ 0x6c ∷ 0x6f ∷ 0x62 ∷ 0x20 ∷ 0x54 ∷ 0x72 ∷ 0x61 ∷ 0x6e ∷ 0x73 ∷ 0x61
    ∷ 0x63 ∷ 0x74 ∷ 0x69 ∷ 0x6f ∷ 0x6e ∷ []

abbrev packed_text : Bytes
packed_text =
    0
    ∷ 0x48
    ∷ 0x65
    ∷ 0x6c
    ∷ 0x6c
    ∷ 0x6f
    ∷ 0x2c
    ∷ 0x20
    ∷ 0x45
    ∷ 0x49
    ∷ 0x50
    ∷ 0x2d
    ∷ 0x34
    ∷ 0x38
    ∷ 0x34
    ∷ 0x34
    ∷ 0x20
    ∷ 0x42
    ∷ 0x6c
    ∷ 0x6f
    ∷ 0x62
    ∷ 0x20
    ∷ 0x54
    ∷ 0x72
    ∷ 0x61
    ∷ 0x6e
    ∷ 0x73
    ∷ 0x61
    ∷ 0x63
    ∷ 0x74
    ∷ 0x69
    ∷ 0x6f
    ∷ 0
    ∷ 0x6e
    ∷ replicate 62 0

text_packed : pack_blob 96 text ≡ ok packed_text
unfolding pack_blob pack_from packing_round copy_at slice equal_bytes
text_packed = refl

text-IsByte : All IsByte text
text-IsByte = ground arith

pack_blob-field_elements_example : pack_blob (32 * 3) text ≡ ok (field_elements 3 text)
pack_blob-field_elements_example = pack_blob-field_elements 3 text (omega arith)

pack_blob_full_example : pack_blob (32 * 1) text ≡ panic slice_bounds
pack_blob_full_example = pack_blob_full 1 text (omega arith)

unpack-pack_blob_example : unpack 3 packed_text ≡ text ++ replicate (31 * 3 - length text) 0
unpack-pack_blob_example = unpack-pack_blob 3 text packed_text text_packed

pack_blob-lt_example : from_bytes 0 (part packed_text (32 * 1) 32) < bls_modulus
pack_blob-lt_example = pack_blob-lt 3 1 text packed_text text-IsByte text_packed (omega arith)
