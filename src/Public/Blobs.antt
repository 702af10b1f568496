-- ===== src/Public/Blobs.antt =====
-- The program that sends a blob to the public test network:
-- evm/evm-tx-blob-transactions-eip-4844/transaction-types/eip4844/eip4844.go
use blog_solutions.Prelude.{
  ℕ, ℤ, pos, ◌+ℤ◌, ltb, [], ◌∷◌, Option, none, some, not, replicate, length,
}
use blog_solutions.Rlp.Item.{Bytes}
use blog_solutions.Blob.Packing.{copy_at}
use blog_solutions.Local.Program.{done, ◌>>=◌}
use blog_solutions.Local.Calls.{
  Reply, Receipt, CallMsg, NodeProgram, ask, checked, require, call_failed, content_too_large,
  connect, pending_nonce_at, suggest_gas_tip_cap, fee_history, estimate_gas,
}
use blog_solutions.Local.Ethereum.{Ethereum, BlobTx}
use blog_solutions.Local.Blobs.{content, blob_recipient, blob_value, blob_fee_cap, must}
use blog_solutions.Fees.Caps.{buffered, last_fee}
use blog_solutions.Public.{Holder, broadcast}

abbrev pub sepolia_chain_id : ℕ
sepolia_chain_id = 11155111

abbrev pub value_message : ℕ → CallMsg
value_message from = record {
  from = from;
  to = blob_recipient;
  value = some blob_value;
  data_of = [];
  gas_price = none;
  gas_tip_cap = none;
  gas_fee_cap = none;
  access_list = [];
  blob_gas_fee_cap = none;
  blob_hashes = [];
}

-- `copy(blobData[:], content)`: the text as it is, from the first byte on.
unfoldable pub raw_blob : ℕ → Bytes
raw_blob size = copy_at (replicate size 0) 0 size content

module _ {Tx Key : Type 0} (lib : Ethereum Tx Key) where
  abbrev pub blob_fields : ℕ → ℕ → ℕ → ℕ → ℕ → Bytes → Bytes → Bytes → BlobTx
  blob_fields nonce tip fee_cap gas value payload commitment proof = record {
    chain = sepolia_chain_id;
    nonce = nonce;
    gas_tip_cap = tip;
    gas_fee_cap = fee_cap;
    gas = gas;
    to = blob_recipient;
    value = value;
    blob_fee_cap = blob_fee_cap;
    blob_hashes = lib.blob_hash commitment ∷ [];
    sidecar = record { blob = payload; commitment = commitment; proof = proof };
  }

  -- What follows the proof.
  unfoldable pub send_sealed :
      Holder Key → ℕ → ℤ → ℤ → Bytes → Bytes → Bytes → NodeProgram Tx (Option Receipt)
  send_sealed acc2 nonce tip fee_cap payload commitment proof = do
    value ← must (lib.from_big blob_value)
    gas_reply ← ask (estimate_gas (value_message acc2.address))
    gas ← checked call_failed gas_reply
    tip_word ← must (lib.from_big tip)
    cap_word ← must (lib.from_big fee_cap)
    signed ← checked call_failed (
        lib.sign_blob (pos sepolia_chain_id) acc2.key
          (blob_fields nonce tip_word cap_word gas value payload commitment proof))
    broadcast lib signed

  -- The commitment and the proof, for a blob of any size.
  unfoldable pub send_blob : ℕ → Holder Key → ℕ → ℤ → ℤ → NodeProgram Tx (Option Receipt)
  send_blob size acc2 nonce tip fee_cap = do
    fits ← require (not (ltb size (length content))) content_too_large
    commitment ← checked call_failed (lib.blob_to_commitment (raw_blob size))
    proof ← checked call_failed (lib.compute_blob_proof (raw_blob size) commitment)
    send_sealed acc2 nonce tip fee_cap (raw_blob size) commitment proof

  -- `main`, on what the loading of the trusted setup comes to.
  unfoldable pub eip4844_main : ℕ → Reply Unit → Holder Key → NodeProgram Tx (Option Receipt)
  eip4844_main size setup acc2 = do
    loaded ← checked call_failed setup
    dialled ← ask connect
    client ← checked call_failed dialled
    nonce_reply ← ask (pending_nonce_at acc2.address)
    nonce ← checked call_failed nonce_reply
    tip_reply ← ask suggest_gas_tip_cap
    tip ← checked call_failed tip_reply
    history ← ask fee_history
    fees ← checked call_failed history
    latest ← done (last_fee fees)
    send_blob size acc2 nonce tip (buffered latest +ℤ tip)
