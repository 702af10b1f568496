-- ===== src/Public.antt =====
-- The programs that send a transaction to the public test network:
-- evm/evm-tx-understanding-legacy-ethereum/transaction-types/legacy-tx/legacy.go,
-- evm/evm-tx-access-list-transactions-eip/transaction-types/eip2930/eip2930.go and
-- evm/evm-tx-dynamic-fee-transactions-eip/transaction-types/eip1559/eip1559.go
pub mod Blobs
pub mod Terms
pub mod Listed
pub mod Broadcast
pub mod Sealed
pub mod SetCode
pub mod Signed
pub mod Granted
pub mod Fulfilled
pub mod Panics
mod Runs
use blog_solutions.Prelude.{ℕ, ℤ, pos, ◌+ℤ◌, List, [], ◌∷◌, Option, none, some, ok}
use blog_solutions.Rlp.Item.{Bytes}
use blog_solutions.Local.Program.{Program, done, ◌>>=◌}
use blog_solutions.Local.Calls.{
  Reply, answer, failure, Receipt, AccessList, CallMsg, NodeProgram, ask, checked, call_failed,
  submission_failed, connect, pending_nonce_at, suggest_gas_price, suggest_gas_tip_cap, fee_history,
  estimate_gas, send_transaction, transaction_receipt, pause,
}
use blog_solutions.Local.Ethereum.{Ethereum, LegacyTx, AccessListTx, DynamicFeeTx}
use blog_solutions.Local.Token.{article_transfer}
use blog_solutions.Fees.Caps.{buffered, last_fee}

-- The chain ID of Polygon Amoy.
abbrev pub amoy_chain_id : ℕ
amoy_chain_id = 80002

abbrev pub gas_limit : ℕ
gas_limit = 21000

abbrev pub value_to_send : ℤ
value_to_send = pos 10000000000000000

abbrev pub token_address : ℕ
token_address = 0x0fd9e8d3af1aaee056eb9e802c3a762a667b1904

abbrev pub fixed_access_list : AccessList
fixed_access_list =
    (
      token_address,
      0xf9a42dc9f268c1720e130da18118febc65e0ca534e035a0e39d30cf8daea5f0a
          ∷ 0x0c2d31ae2b93233fa550fc5df04cd7b0b742c0821a2494f91cd79ca74a9e2e48 ∷ [],
    )
    ∷ []

-- What GetAccount has returned.
pub record Holder (Key : Type 0) : Type 0 where
  pub address : ℕ
  pub key : Key

-- The message of `EstimateGas`.
abbrev pub message : ℕ → AccessList → CallMsg
message from entries = record {
  from = from;
  to = token_address;
  value = none;
  data_of = article_transfer;
  gas_price = none;
  gas_tip_cap = none;
  gas_fee_cap = none;
  access_list = entries;
  blob_gas_fee_cap = none;
  blob_hashes = [];
}

-- The receipt of which parts are printed, where the node has it.
abbrev pub reported : Reply Receipt → Option Receipt
reported (answer receipt) = some receipt
reported (failure e) = none

module _ {Tx Key : Type 0} (lib : Ethereum Tx Key) where
  -- The end of the programs: the transaction is sent, and looked up ten seconds later.
  unfoldable pub broadcast : Tx → NodeProgram Tx (Option Receipt)
  broadcast signed = do
    accepted ← ask (send_transaction signed)
    sent ← checked submission_failed accepted
    waited ← ask (pause 10000)
    receipt ← ask (transaction_receipt (lib.hash signed))
    done (ok (reported receipt))

  unfoldable pub legacy_main : Holder Key → Holder Key → NodeProgram Tx (Option Receipt)
  legacy_main acc1 acc2 = do
    dialled ← ask connect
    client ← checked call_failed dialled
    nonce_reply ← ask (pending_nonce_at acc1.address)
    nonce ← checked call_failed nonce_reply
    price_reply ← ask suggest_gas_price
    price ← checked call_failed price_reply
    signed ← checked call_failed (
        lib.sign_legacy (pos amoy_chain_id) acc1.key (record {
          nonce = nonce;
          gas_price = price;
          gas = gas_limit;
          to = acc2.address;
          value = value_to_send;
        }))
    broadcast signed

  unfoldable pub eip2930_main : Holder Key → NodeProgram Tx (Option Receipt)
  eip2930_main acc2 = do
    dialled ← ask connect
    client ← checked call_failed dialled
    nonce_reply ← ask (pending_nonce_at acc2.address)
    nonce ← checked call_failed nonce_reply
    price_reply ← ask suggest_gas_price
    price ← checked call_failed price_reply
    gas_reply ← ask (estimate_gas (message acc2.address fixed_access_list))
    gas ← checked call_failed gas_reply
    signed ← checked call_failed (
        lib.sign_access_list (pos amoy_chain_id) acc2.key (record {
          chain = pos amoy_chain_id;
          nonce = nonce;
          gas_price = price;
          gas = gas;
          to = token_address;
          value = pos 0;
          data_of = article_transfer;
          access_list = fixed_access_list;
        }))
    broadcast signed

  -- What follows the fees.
  unfoldable pub send_dynamic : Holder Key → ℕ → ℤ → ℤ → NodeProgram Tx (Option Receipt)
  send_dynamic acc2 nonce tip fee_cap = do
    gas_reply ← ask (estimate_gas (message acc2.address []))
    gas ← checked call_failed gas_reply
    signed ← checked call_failed (
        lib.sign_dynamic_fee (pos amoy_chain_id) acc2.key (record {
          chain = pos amoy_chain_id;
          nonce = nonce;
          gas_tip_cap = tip;
          gas_fee_cap = fee_cap;
          gas = gas;
          to = token_address;
          value = pos 0;
          data_of = article_transfer;
        }))
    broadcast signed

  -- The last base fee is taken without a test of the history.
  unfoldable pub eip1559_main : Holder Key → NodeProgram Tx (Option Receipt)
  eip1559_main acc2 = do
    dialled ← ask connect
    client ← checked call_failed dialled
    nonce_reply ← ask (pending_nonce_at acc2.address)
    nonce ← checked call_failed nonce_reply
    history ← ask fee_history
    fees ← checked call_failed history
    tip_reply ← ask suggest_gas_tip_cap
    tip ← checked call_failed tip_reply
    latest ← done (last_fee fees)
    send_dynamic acc2 nonce tip (buffered latest +ℤ tip)
