-- ===== src/Public/Runs.antt =====
-- Runs of the programs for the public test network against a node that answers as it should.
use blog_solutions.Prelude.{ℕ, pos, ◌≡◌, refl, [], ◌∷◌, some, ok, panic, index_range}
use blog_solutions.Local.Program.{World, exec, on_end}
use blog_solutions.Local.Calls.{
  Receipt, answer, NodeCall, NodeAnswer, connect, pending_nonce_at, suggest_gas_price,
  suggest_gas_tip_cap, fee_history, estimate_gas, send_transaction, transaction_receipt,
}
use blog_solutions.Local.Silent.{silent}
use blog_solutions.Local.Testbed.{Sample, sample_lib, mined_receipt}
use blog_solutions.Fees.Caps.{buffered, last_of, last_fee}
use blog_solutions.Public.{Holder, broadcast, legacy_main, eip2930_main, send_dynamic, eip1559_main}
use blog_solutions.Public.Fulfilled.{
  legacy_tx, eip2930, eip1559, eip4844, eip7702, main_of, IsFulfilled, main_fulfils,
}
use blog_solutions.Public.Blobs.{raw_blob, send_sealed, send_blob, eip4844_main}
use blog_solutions.Local.Blobs.{must}
use blog_solutions.Blob.Packing.{copy_at}
use blog_solutions.Prelude.{replicate}
use blog_solutions.Slices.{slice}
use blog_solutions.Rlp.BigEndian.{from_bytes}
use blog_solutions.Local.Testbed.{sample}
use blog_solutions.Public.SetCode.{
  Batch, to_int64, last_byte_of, grant_of, sign_delegation, send_grants, eip7702_main,
}

abbrev first_holder : Holder ℕ
first_holder = record { address = 1; key = 1 }

abbrev second_holder : Holder ℕ
second_holder = record { address = 2; key = 2 }

-- A signature is the key, 65 times.
abbrev sample_batch : Batch Sample ℕ
sample_batch = record {
  rlp_list = λ chain account nonce. answer (0xc0 ∷ []);
  hash_sign = λ key s. answer (replicate 65 key);
  pack_trigger = λ accounts. answer (1 ∷ []);
  sign_set_code = λ chain key tx. answer (sample 4 tx.nonce tx.to (pos 0) tx.data_of);
}

abbrev public_world : World (NodeCall Sample) NodeAnswer
public_world past connect = answer tt
public_world past (pending_nonce_at account) = answer 6
public_world past suggest_gas_price = answer (pos 30)
public_world past suggest_gas_tip_cap = answer (pos 2)
public_world past fee_history = answer (pos 5 ∷ pos 1000 ∷ [])
public_world past (estimate_gas message) = answer 50000
public_world past (send_transaction tx) = answer tt
public_world past (transaction_receipt hash) = answer (mined_receipt 2 hash)
public_world past c = silent c

-- The receipt of this node for the hash of a transaction of a type with nonce 6.
abbrev the_receipt : Receipt
the_receipt = mined_receipt 2 2006

eip1559_succeeds :
    (exec public_world []
      (main_of (sample_lib 2) sample_batch eip1559 128 (answer tt) first_holder second_holder)).1
    ≡ ok (some the_receipt)
unfolding exec on_end eip1559_main send_dynamic broadcast buffered last_fee last_of
eip1559_succeeds = refl

eip4844_succeeds :
    (exec public_world []
      (main_of (sample_lib 2) sample_batch eip4844 128 (answer tt) first_holder second_holder)).1
    ≡ ok (some (mined_receipt 2 3006))
unfolding exec on_end eip4844_main send_blob send_sealed raw_blob copy_at must broadcast buffered
    last_fee last_of
eip4844_succeeds = refl

main_fulfils_example :
    IsFulfilled
      (sample_lib 2)
      sample_batch
      eip4844
      128
      first_holder
      second_holder
      (exec public_world []
        (main_of (sample_lib 2) sample_batch eip4844 128 (answer tt) first_holder second_holder)).0
      (some (mined_receipt 2 3006))
main_fulfils_example =
    main_fulfils (sample_lib 2) sample_batch public_world eip4844 128 (answer tt) first_holder
      second_holder (some (mined_receipt 2 3006)) eip4844_succeeds

legacy_succeeds :
    (exec public_world []
      (main_of (sample_lib 1) sample_batch legacy_tx 128 (answer tt) first_holder second_holder)).1
    ≡ ok (some (mined_receipt 2 6))
unfolding exec on_end legacy_main broadcast
legacy_succeeds = refl

eip2930_succeeds :
    (exec public_world []
      (main_of (sample_lib 2) sample_batch eip2930 128 (answer tt) first_holder second_holder)).1
    ≡ ok (some (mined_receipt 2 1006))
unfolding exec on_end eip2930_main broadcast
eip2930_succeeds = refl

eip7702_succeeds :
    (exec public_world []
      (main_of (sample_lib 2) sample_batch eip7702 128 (answer tt) first_holder second_holder)).1
    ≡ ok (some (mined_receipt 2 4006))
unfolding exec on_end eip7702_main send_grants sign_delegation grant_of last_byte_of slice to_int64
    must broadcast from_bytes
eip7702_succeeds = refl

-- A node whose history has no base fee.
abbrev bare_world : World (NodeCall Sample) NodeAnswer
bare_world past fee_history = answer []
bare_world past c = public_world past c

eip1559_main_panics :
    (exec bare_world [] (eip1559_main (sample_lib 2) second_holder)).1 ≡ panic index_range
unfolding exec on_end eip1559_main last_fee
eip1559_main_panics = refl
