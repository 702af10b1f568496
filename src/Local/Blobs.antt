-- ===== src/Local/Blobs.antt =====
-- The article on blob transactions:
-- evm/evm-tx-blob-transactions-eip-4844/transaction-types/local/main.go
pub mod Seals
pub mod Posted
mod Runs
use blog_solutions.Prelude.{
  ℕ, ℤ, pos, Bool, true, false, not, ◌&&◌, less_int, List, [], ◌∷◌, Option, none, some, Outcome, ok,
  err, panic, out_of_fuel, index_range, uint256_overflow, ◌==◌,
}
use blog_solutions.Rlp.Item.{Bytes}
use blog_solutions.Blob.Packing.{PackError, pack_blob}
use blog_solutions.Local.Program.{Program, done, ◌>>=◌}
use blog_solutions.Local.Calls.{
  CallMsg, Receipt, NodeProgram, Session, ask, fail, checked, require, call_failed,
  submission_failed, unsupported_kind, blob_text_mismatch, blob_receipt_mismatch, balance_at,
  send_transaction, estimate_gas,
}
use blog_solutions.Local.Ethereum.{Ethereum, BlobTx}
use blog_solutions.Local.Startup.{run, for_each}
use blog_solutions.Local.Transact.{
  Kind, blob, Account, Envelope, prepare, check_envelope, wait_receipt, check_effects,
}
use blog_solutions.Fees.Caps.{fee_caps}

abbrev pub blob_recipient : ℕ
blob_recipient = 0x7F8b1ca29F95274E06367b60fC4a539E4910FD0c

abbrev pub blob_value : ℤ
blob_value = pos 100000000000000

abbrev pub blob_fee_cap : ℕ
blob_fee_cap = 2000000

-- The size of a blob.
abbrev pub blob_size : ℕ
blob_size = 131072

abbrev pub content : Bytes
content =
    0x48 ∷ 0x65 ∷ 0x6c ∷ 0x6c ∷ 0x6f ∷ 0x2c ∷ 0x20 ∷ 0x45 ∷ 0x49 ∷ 0x50 ∷ 0x2d ∷ 0x34 ∷ 0x38 ∷ 0x34
    ∷ 0x34 ∷ 0x20 ∷ 0x42 ∷ 0x6c ∷ 0x6f ∷ 0x62 ∷ 0x20 ∷ 0x54 ∷ 0x72 ∷ 0x61 ∷ 0x6e ∷ 0x73 ∷ 0x61
    ∷ 0x63 ∷ 0x74 ∷ 0x69 ∷ 0x6f ∷ 0x6e ∷ 0x20 ∷ 0x6f ∷ 0x6e ∷ 0x20 ∷ 0x53 ∷ 0x65 ∷ 0x70 ∷ 0x6f
    ∷ 0x6c ∷ 0x69 ∷ 0x61 ∷ 0x21 ∷ 0x20 ∷ 0x54 ∷ 0x68 ∷ 0x69 ∷ 0x73 ∷ 0x20 ∷ 0x69 ∷ 0x73 ∷ 0x20
    ∷ 0x73 ∷ 0x6f ∷ 0x6d ∷ 0x65 ∷ 0x20 ∷ 0x61 ∷ 0x72 ∷ 0x62 ∷ 0x69 ∷ 0x74 ∷ 0x72 ∷ 0x61 ∷ 0x72
    ∷ 0x79 ∷ 0x20 ∷ 0x64 ∷ 0x61 ∷ 0x74 ∷ 0x61 ∷ 0x20 ∷ 0x66 ∷ 0x6f ∷ 0x72 ∷ 0x20 ∷ 0x74 ∷ 0x68
    ∷ 0x65 ∷ 0x20 ∷ 0x62 ∷ 0x6c ∷ 0x6f ∷ 0x62 ∷ 0x20 ∷ 0x70 ∷ 0x61 ∷ 0x79 ∷ 0x6c ∷ 0x6f ∷ 0x61
    ∷ 0x64 ∷ 0x2e ∷ []

module _ {Tx : Type 0} where
  -- The packing, with its error as one of the program's.
  unfoldable pub packed : Outcome PackError Bytes → NodeProgram Tx Bytes
  packed (ok payload) = done (ok payload)
  packed (err e) = fail blob_text_mismatch
  packed (panic p) = done (panic p)
  packed out_of_fuel = done out_of_fuel

  -- `uint256.MustFromBig`
  unfoldable pub must : Option ℕ → NodeProgram Tx ℕ
  must none = done (panic uint256_overflow)
  must (some n) = done (ok n)

  -- The index of the signed transaction's hashes is behind the test of those observed.
  unfoldable pub check_hashes : List ℕ → List ℕ → NodeProgram Tx Unit
  check_hashes (observed ∷ []) (signed ∷ hashes) =
      require (observed == signed) blob_receipt_mismatch
  check_hashes (observed ∷ []) [] = done (panic index_range)
  check_hashes _ _ = fail blob_receipt_mismatch

unfoldable pub is_priced : ℤ → Option ℤ → Bool
is_priced fee_cap none = false
is_priced fee_cap (some price) = less_int (pos 0) price && not (less_int fee_cap price)

unfoldable pub message : ℕ → ℤ → ℤ → ℕ → CallMsg
message from tip fee_cap hash = record {
  from = from;
  to = blob_recipient;
  value = some blob_value;
  data_of = [];
  gas_price = none;
  gas_tip_cap = some tip;
  gas_fee_cap = some fee_cap;
  access_list = [];
  blob_gas_fee_cap = some (pos blob_fee_cap);
  blob_hashes = hash ∷ [];
}

module _ {Tx Key : Type 0} (lib : Ethereum Tx Key) where
  abbrev pub filled : ℕ → ℕ → ℕ → ℕ → ℕ → ℕ → Bytes → Bytes → Bytes → BlobTx
  filled chain nonce tip fee_cap gas value payload commitment proof = record {
    chain = chain;
    nonce = nonce;
    gas_tip_cap = tip;
    gas_fee_cap = fee_cap;
    gas = gas;
    to = blob_recipient;
    value = value;
    blob_fee_cap = blob_fee_cap;
    blob_hashes = lib.blob_hash commitment ∷ [];
    sidecar = record { blob = payload; commitment = commitment; proof = proof };
  }

  -- The numbers of the transaction, each of which has to fit into 256 bits.
  unfoldable pub blob_tx : ℤ → ℕ → ℤ → ℤ → ℕ → Bytes → Bytes → Bytes → NodeProgram Tx BlobTx
  blob_tx chain nonce tip fee_cap gas payload commitment proof = do
    chain_word ← must (lib.from_big chain)
    tip_word ← must (lib.from_big tip)
    cap_word ← must (lib.from_big fee_cap)
    value_word ← must (lib.from_big blob_value)
    done (ok (filled chain_word nonce tip_word cap_word gas value_word payload commitment proof))

  -- The fees, and the signing.
  unfoldable pub sign_payload :
      ℤ → Account Key → Bytes → Bytes → Bytes → NodeProgram Tx (Envelope Tx)
  sign_payload chain account payload commitment proof = do
    (tip, fee_cap) ← fee_caps
    estimated ← ask (estimate_gas (message account.from tip fee_cap (lib.blob_hash commitment)))
    gas ← checked call_failed estimated
    tx ← blob_tx chain account.nonce tip fee_cap gas payload commitment proof
    signed ← checked call_failed (lib.sign_blob chain account.key tx)
    done (ok (record { to = blob_recipient; value = blob_value; data_of = []; signed = signed }))

  -- The case "blob" of the `switch`, for a blob of any size.
  unfoldable pub sign_blob : ℕ → ℤ → Account Key → NodeProgram Tx (Envelope Tx)
  sign_blob size chain account = do
    chosen ← checked call_failed (lib.use_ckzg false)
    payload ← packed (pack_blob size content)
    commitment ← checked call_failed (lib.blob_to_commitment payload)
    proof ← checked call_failed (lib.compute_blob_proof payload commitment)
    verified ← checked call_failed (lib.verify_blob_proof payload commitment proof)
    sign_payload chain account payload commitment proof

  unfoldable pub sign_kind : ℕ → ℤ → Account Key → Kind → NodeProgram Tx (Envelope Tx)
  sign_kind size chain account blob = sign_blob size chain account
  sign_kind size chain account _ = fail unsupported_kind

  -- The gas and the price of the blob, and its hash in the mined transaction.
  unfoldable pub check_blob : Tx → Receipt → Tx → NodeProgram Tx Unit
  check_blob signed receipt observed = do
    used ← require (receipt.blob_gas_used == 131072) blob_receipt_mismatch
    priced ←
        require (is_priced (lib.blob_gas_fee_cap signed) receipt.blob_gas_price)
          blob_receipt_mismatch
    check_hashes (lib.blob_hashes observed) (lib.blob_hashes signed)

  unfoldable pub submit : ℕ → Account Key → Envelope Tx → NodeProgram Tx Unit
  submit polls account envelope = do
    reply ← ask (balance_at envelope.to)
    before ← checked call_failed reply
    accepted ← ask (send_transaction envelope.signed)
    sent ← checked submission_failed accepted
    receipt ← wait_receipt polls (lib.hash envelope.signed)
    observed ← check_effects lib account envelope before receipt
    check_blob envelope.signed receipt observed

  unfoldable pub transact : ℕ → ℕ → ℤ → Kind → NodeProgram Tx Unit
  transact polls size chain kind = do
    account ← prepare lib 1
    envelope ← sign_kind size chain account kind
    recovered ← check_envelope lib chain account envelope
    submit polls account envelope

  unfoldable pub run_blob : ℕ → Session Tx Unit
  run_blob polls = run (λ chain. for_each (transact polls blob_size chain) (blob ∷ []))
