-- ===== src/Blob/Packing.antt =====
-- The packing of the text into a blob: the loop of `transact` in
-- evm/evm-tx-blob-transactions-eip-4844/transaction-types/local/main.go.
use blog_solutions.Prelude.{
  ℕ, zero, suc, ◌+◌, ◌-◌, ◌*◌, ◌/◌, Bool, true, false, ◌&&◌, [], ◌∷◌, ◌++◌, length, take, drop,
  replicate, ltb, ◌==◌, if◌then◌else◌, Outcome, ok, err, out_of_fuel, ◌>>=◌,
}
use blog_solutions.Rlp.Item.{Bytes}
use blog_solutions.Slices.{slice}
use Prim.Native.Nat.{min}

pub data PackError : Type 0 where
  blob_payload_text_mismatch : PackError

-- Go's `copy` into the `room` places of `payload` from `lo` on.
unfoldable pub copy_at : Bytes → ℕ → ℕ → Bytes → Bytes
copy_at payload lo room src =
    let n = min room (length src) in take lo payload ++ (take n src ++ drop (lo + n) payload)

-- One round of the loop: 31 bytes of the text, or what is left of it, go behind the first byte of
-- the next field element and are read back.
unfoldable pub packing_round : Bytes → ℕ → Bytes → Bytes → Outcome PackError (Bytes × Bytes)
packing_round content offset payload recovered =
    let end = if ltb (length content) (offset + 31) then length content else offset + 31 in
    let slot = offset / 31 * 32 in
    do
      dst ← slice payload (slot + 1) (slot + 32)
      src ← slice content offset end
      let packed = copy_at payload (slot + 1) (length dst) src
      text ← slice packed (slot + 1) (slot + 1 + end - offset)
      ok (packed, recovered ++ text)

-- The loop. Each round takes 31 bytes, so fuel above the length of the text is enough.
unfoldable pub pack_from : ℕ → Bytes → ℕ → Bytes → Bytes → Outcome PackError (Bytes × Bytes)
pack_from zero content offset payload recovered = out_of_fuel
pack_from (suc fuel) content offset payload recovered =
    if ltb offset (length content)
    then (do
      (packed, text) ← packing_round content offset payload recovered
      pack_from fuel content (offset + 31) packed text)
    else ok (payload, recovered)

-- `bytes.Equal`
unfoldable pub equal_bytes : Bytes → Bytes → Bool
equal_bytes [] [] = true
equal_bytes (x ∷ xs) (y ∷ ys) = x == y && equal_bytes xs ys
equal_bytes _ _ = false

-- The loop on an empty blob of `size` bytes, and the check behind it.
unfoldable pub pack_blob : ℕ → Bytes → Outcome PackError Bytes
pack_blob size content = do
  (payload, recovered) ← pack_from (suc (length content)) content 0 (replicate size 0) []
  if equal_bytes content recovered then ok payload else err blob_payload_text_mismatch
