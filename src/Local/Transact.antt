-- ===== src/Local/Transact.antt =====
-- `transact` and `waitReceipt` of the local reproductions:
-- evm/evm-tx-understanding-legacy-ethereum/transaction-types/local/main.go
pub mod Effects
pub mod Done
pub mod Transfer
pub mod Waiting
pub mod Once
mod Runs
use blog_solutions.Prelude.{
  ℕ, zero, suc, ◌+◌, ◌*◌, ◌%◌, ◌^◌, ℤ, pos, ◌-ℤ◌, equal_int, less_int, Bool, true, false, not, ◌&&◌,
  ◌||◌, List, [], Option, none, some, Outcome, ok, err, out_of_fuel, ◌==◌, leb, word,
}
use blog_solutions.Rlp.Item.{Bytes}
use blog_solutions.Blob.Packing.{equal_bytes}
use blog_solutions.Local.Program.{Program, done, call, ◌>>=◌}
use blog_solutions.Local.Calls.{
  CallError, not_found, other_error, Reply, answer, failure, Receipt, Failure, call_failed,
  submission_failed, unsupported_kind, recovery_mismatch, receipt_mismatch, fields_mismatch,
  nonce_not_advanced, value_mismatch, price_exceeds_cap, NodeCall, NodeAnswer, NodeProgram,
  suggest_gas_price, wait_tick, set_balance, pending_nonce_at, balance_at, send_transaction,
  transaction_receipt, transaction_by_hash, ask, fail, checked, require, unless_ended,
}
use blog_solutions.Local.Ethereum.{Ethereum, LegacyTx}

-- The kinds of the articles.
pub data Kind : Type 0 where
  legacy access dynamic blob other_kind : Kind

-- The account that sends, and its nonce.
pub record Account (Key : Type 0) : Type 0 where
  pub key : Key
  pub from : ℕ
  pub nonce : ℕ

-- The signed transaction, and what it is meant to say.
pub record Envelope (Tx : Type 0) : Type 0 where
  pub to : ℕ
  pub value : ℤ
  pub data_of : Bytes
  pub signed : Tx

module _ {Tx : Type 0} where
  -- What the node says of the receipt, and what follows when it has none yet.
  unfoldable pub receipt_or_wait : NodeProgram Tx Receipt → Reply Receipt → NodeProgram Tx Receipt
  receipt_or_wait retry (answer receipt) = done (ok receipt)
  receipt_or_wait retry (failure not_found) = do
    ended ← ask wait_tick
    going_on ← unless_ended ended
    retry
  receipt_or_wait retry (failure (other_error e)) = fail (call_failed (other_error e))

  -- The loop, with a number of polls.
  unfoldable pub wait_receipt : ℕ → ℕ → NodeProgram Tx Receipt
  wait_receipt zero hash = done out_of_fuel
  wait_receipt (suc polls) hash = do
    reply ← ask (transaction_receipt hash)
    receipt_or_wait (wait_receipt polls hash) reply

abbrev pub recipient : ℕ
recipient = 0x2B5AD5c4795c026514f8317c7a215E218DcCD6cF

abbrev pub is_some : {A : Type 0} → Option A → Bool
is_some none = false
is_some (some a) = true

abbrev pub is_sent_to : ℕ → Option ℕ → Bool
is_sent_to to none = false
is_sent_to to (some observed) = observed == to

-- The nonce after the transaction. A failure of the call is a mismatch.
unfoldable pub is_advanced : ℕ → Reply ℕ → Bool
is_advanced nonce (answer after) = after == (nonce + 1) % word
is_advanced nonce (failure e) = false

unfoldable pub is_received : ℤ → ℤ → ℤ → Bool
is_received value before after = not (less_int (pos 0) value) || equal_int (after -ℤ before) value

abbrev pub is_within : ℤ → Option ℤ → Bool
is_within cap_price none = false
is_within cap_price (some price) = not (less_int cap_price price)

module _ {Tx Key : Type 0} (lib : Ethereum Tx Key) where
  unfoldable pub prepare : ℕ → NodeProgram Tx (Account Key)
  prepare key_number = do
    key ← checked call_failed (lib.key_of key_number)
    let from = lib.address_of key
    funded ← ask (set_balance from (pos (100 * 10 ^ 18)))
    done_funding ← checked call_failed funded
    reply ← ask (pending_nonce_at from)
    nonce ← checked call_failed reply
    done (ok (record { key = key; from = from; nonce = nonce }))

  -- The `switch` on the kind.
  unfoldable pub sign_kind : ℤ → Account Key → Kind → NodeProgram Tx (Envelope Tx)
  sign_kind chain account legacy = do
    let value = pos 10000000000000000
    reply ← ask suggest_gas_price
    price ← checked call_failed reply
    signed ← checked call_failed (
        lib.sign_legacy chain account.key (record {
          nonce = account.nonce;
          gas_price = price;
          gas = 21000;
          to = recipient;
          value = value;
        }))
    done (ok (record { to = recipient; value = value; data_of = []; signed = signed }))
  sign_kind chain account _ = fail unsupported_kind

  -- A sender that is not recovered is a mismatch.
  unfoldable pub is_recovered : Account Key → Tx → Reply ℕ → Bool
  is_recovered account decoded (answer recovered) =
      recovered == account.from && lib.nonce decoded == account.nonce
  is_recovered account decoded (failure e) = false

  -- The envelope is decoded again, and its sender recovered.
  unfoldable pub check_envelope : ℤ → Account Key → Envelope Tx → NodeProgram Tx Unit
  check_envelope chain account envelope = do
    raw ← checked call_failed (lib.marshal_binary envelope.signed)
    decoded ← checked call_failed (lib.unmarshal_binary raw)
    require (is_recovered account decoded (lib.sender chain decoded)) recovery_mismatch

  unfoldable pub is_successful : Tx → Receipt → Bool
  is_successful signed receipt =
      receipt.status == 1
      && receipt.type == lib.type signed
      && receipt.tx_hash == lib.hash signed
      && is_some receipt.block_number
      && not (receipt.gas_used == 0)

  unfoldable pub is_as_signed : Envelope Tx → Tx × Bool → Bool
  is_as_signed envelope (observed, pending) =
      not pending
      && lib.hash observed == lib.hash envelope.signed
      && equal_bytes (lib.data_of observed) envelope.data_of
      && is_sent_to envelope.to (lib.to observed)
      && equal_int (lib.value observed) envelope.value

  unfoldable pub is_price_within_cap : Tx → Receipt → Bool
  is_price_within_cap signed receipt =
      not (leb 2 (lib.type signed))
      || is_within (lib.gas_fee_cap signed) receipt.effective_gas_price

  -- The checks of what the node says behind the submission, with the transaction as it is mined.
  unfoldable pub check_effects : Account Key → Envelope Tx → ℤ → Receipt → NodeProgram Tx Tx
  check_effects account envelope before receipt = do
    successful ← require (is_successful envelope.signed receipt) receipt_mismatch
    observed ← ask (transaction_by_hash (lib.hash envelope.signed))
    mined ← checked call_failed observed
    as_signed ← require (is_as_signed envelope mined) fields_mismatch
    after_nonce ← ask (pending_nonce_at account.from)
    advanced ← require (is_advanced account.nonce after_nonce) nonce_not_advanced
    reply ← ask (balance_at envelope.to)
    after ← checked call_failed reply
    received ← require (is_received envelope.value before after) value_mismatch
    within ← require (is_price_within_cap envelope.signed receipt) price_exceeds_cap
    done (ok mined.0)

  unfoldable pub submit : ℕ → Account Key → Envelope Tx → NodeProgram Tx Unit
  submit polls account envelope = do
    reply ← ask (balance_at envelope.to)
    before ← checked call_failed reply
    accepted ← ask (send_transaction envelope.signed)
    sent ← checked submission_failed accepted
    receipt ← wait_receipt polls (lib.hash envelope.signed)
    observed ← check_effects account envelope before receipt
    done (ok tt)

  unfoldable pub transact : ℕ → ℤ → Kind → NodeProgram Tx Unit
  transact polls chain kind = do
    account ← prepare 1
    envelope ← sign_kind chain account kind
    recovered ← check_envelope chain account envelope
    submit polls account envelope
