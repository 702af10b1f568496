-- ===== src/Local/Blobs/Runs.antt =====
-- A run of the blob article against a node that answers as it should, with a blob of 4 elements.
use blog_solutions.Prelude.{◌≡◌, refl, pos, ok, [], ◌++◌, ◌-◌, ◌*◌, length}
use blog_solutions.Rlp.BigEndian.{from_bytes}
use blog_solutions.Slices.{slice}
use blog_solutions.Blob.Packing.{equal_bytes, copy_at, packing_round, pack_from, pack_blob}
use blog_solutions.Blob.FieldElements.{zeros}
use blog_solutions.Blob.Unpacking.{unpack}
use blog_solutions.Local.Program.{exec, on_end}
use blog_solutions.Local.Testbed.{sample_lib, mining_world}
use blog_solutions.Local.Transact.{
  blob, receipt_or_wait, wait_receipt, prepare, is_recovered, check_envelope, is_successful,
  is_as_signed, is_advanced, is_received, is_price_within_cap, check_effects,
}
use blog_solutions.Local.Blobs.{
  content, packed, must, check_hashes, is_priced, message, blob_tx, sign_payload, sign_blob,
  sign_kind, check_blob, submit, transact,
}
use blog_solutions.Local.Blobs.Posted.{IsPosted, transact_posts}
use blog_solutions.Fees.Caps.{buffered, last_of, last_fee, cap_with, cap_on, fee_caps}

transact_succeeds :
    (exec mining_world [] (transact (sample_lib 1) 2 (32 * 4) (pos 31337) blob)).1 ≡ ok tt
unfolding exec on_end transact sign_kind sign_blob sign_payload blob_tx message packed must
    check_hashes is_priced check_blob submit prepare check_envelope is_recovered slice copy_at
    packing_round pack_from pack_blob buffered last_of last_fee cap_with cap_on fee_caps
    wait_receipt receipt_or_wait check_effects is_successful is_as_signed is_advanced is_received
    is_price_within_cap equal_bytes from_bytes
transact_succeeds = refl

transact_posts_example :
    (p : IsPosted
      (sample_lib 1)
      (32 * 4)
      (pos 31337)
      (exec mining_world [] (transact (sample_lib 1) 2 (32 * 4) (pos 31337) blob)).0)
    × (unpack 4 p.seal.payload ≡ content ++ zeros (31 * 4 - length content))
transact_posts_example =
    transact_posts (sample_lib 1) mining_world 2 4 (pos 31337) blob transact_succeeds
