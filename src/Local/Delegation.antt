-- ===== src/Local/Delegation.antt =====
-- The article on delegation:
-- evm/evm-tx-setcode-transactions-eip-7702/transaction-types/local/main.go
pub mod Native
pub mod Owned
pub mod Accounts
pub mod Signed
pub mod Settled
pub mod Submitted
pub mod Delegated
pub mod Ends
pub mod Whole
mod Runs
use blog_solutions.Prelude.{
  ℕ, zero, suc, ◌+◌, ◌*◌, ◌%◌, ◌^◌, ℤ, pos, ◌+ℤ◌, Bool, true, false, not, ◌&&◌, List, [], ◌∷◌, ◌++◌,
  length, ok, panic, nil_pointer, ◌==◌, word,
}
use blog_solutions.Rlp.Item.{Bytes}
use blog_solutions.Blob.Packing.{equal_bytes}
use blog_solutions.Local.Program.{Program, done, ◌>>=◌, deferring}
use blog_solutions.Local.Calls.{
  CallError, not_found, other_error, Reply, answer, failure, Receipt, Log, Contract, invoked,
  multi_delegation_invoker, NodeProgram, Session, ask, fail, checked, require, connected,
  call_failed, submission_failed, deploy_failed, layout_failed, capability_failed, runtime_mismatch,
  wrong_anvil_version, unexpected_chain, not_prague, not_capable, stale_authority, abi_mismatch,
  signer_mismatch, receipt_mismatch, fields_mismatch, authorization_mismatch, account_mismatch,
  event_count_mismatch, event_mismatch, designation_lost, forge_create_of, forge_inspect_of,
  code_at, pending_nonce_at, nonce_at, set_balance, suggest_gas_tip_cap, suggest_gas_price,
  send_transaction, transaction_receipt, transaction_by_hash, evm_mine, pause, node, node_info,
  client_version, anvil_version, current_directory, foundry_file, free_port, start_node, dial,
  close_client,
}
use blog_solutions.Local.Ethereum.{
  Ethereum, Signature, trigger_pings, ping_start, pinged, ping_success,
}
use blog_solutions.Local.Startup.{
  is_local_chain, contains, equal_fold, to_lower, supported_version, anvil, await_chain, stop,
}
use blog_solutions.Local.Token.{trim_space, deployed_address, same_topics}
use blog_solutions.Local.Blobs.{must}

abbrev pub prague : Bytes
prague = 0x70 ∷ 0x72 ∷ 0x61 ∷ 0x67 ∷ 0x75 ∷ 0x65 ∷ []

-- `types.SetCodeAuthorization` without its signature.
pub record Grant : Type 0 where
  pub chain : ℕ
  pub address : ℕ
  pub nonce : ℕ

-- The fields of `types.SetCodeTx` that the program sets.
pub record SetCodeTx (Auth : Type 0) : Type 0 where
  pub chain : ℕ
  pub nonce : ℕ
  pub gas_tip_cap : ℕ
  pub gas_fee_cap : ℕ
  pub gas : ℕ
  pub to : ℕ
  pub data_of : Bytes
  pub auth_list : List Auth

-- What go-ethereum does with signed authorizations. `pack_trigger` is `Pack` on the method of the
-- parsed ABI, `address_bytes` the 20 bytes of an address, and `chain_of` the chain's `Uint64`.
pub record Authorizer (Tx Key Auth : Type 0) : Type 0 where
  pub sign_grant : Key → Grant → Reply Auth
  pub authority : Auth → Reply ℕ
  pub nonce_of : Auth → ℕ
  pub address_of : Auth → ℕ
  pub chain_of : Auth → ℕ
  pub sign_set_code : ℤ → Key → SetCodeTx Auth → Reply Tx
  pub authorizations : Tx → List Auth
  pub pack_trigger : List ℕ → Reply Bytes
  pub address_bytes : ℕ → Bytes

-- An account that delegates.
pub record Authority (Key : Type 0) : Type 0 where
  pub key : Key
  pub address : ℕ

-- The two signed authorizations, and the nonces in them.
pub record Grants (Auth : Type 0) : Type 0 where
  pub first : Auth
  pub second : Auth
  pub first_nonce : ℕ
  pub second_nonce : ℕ

module _ {Tx : Type 0} where
  -- The loop that waits for the receipt, with the rounds that may follow the first one. The last
  -- error is returned.
  unfoldable pub mined_or_retry : NodeProgram Tx Receipt → Reply Receipt → NodeProgram Tx Receipt
  mined_or_retry retry (answer receipt) = done (ok receipt)
  mined_or_retry retry (failure not_found) = do slept ← ask (pause 50); retry
  mined_or_retry retry (failure (other_error e)) = fail (call_failed (other_error e))

  unfoldable pub wait_mined : ℕ → ℕ → NodeProgram Tx Receipt
  wait_mined zero hash = do
    reply ← ask (transaction_receipt hash)
    mined_or_retry (fail (call_failed not_found)) reply
  wait_mined (suc rounds) hash = do
    reply ← ask (transaction_receipt hash)
    mined_or_retry (wait_mined rounds hash) reply

  -- `HexToECDSA` with its error dropped: the key is nil then, and its use a panic.
  unfoldable pub authority_with :
      {Key : Type 0} → (Key → ℕ) → Reply Key → NodeProgram Tx (Authority Key)
  authority_with address_of (answer key) =
      done (ok (record { key = key; address = address_of key }))
  authority_with address_of (failure e) = done (panic nil_pointer)

  -- A round of the loop over the authorities: the nonce is 0, and there is no code.
  unfoldable pub fresh_nonce : ℕ → NodeProgram Tx ℕ
  fresh_nonce account = do
    reply ← ask (pending_nonce_at account)
    nonce ← checked call_failed reply
    found ← ask (code_at account)
    code ← checked call_failed found
    fresh ← require (nonce == 0 && length code == 0) stale_authority
    done (ok nonce)

  -- The code of an account behind the submission, and its nonce.
  unfoldable pub check_account : Bytes → ℕ → ℕ → NodeProgram Tx Unit
  check_account designation account expected = do
    found ← ask (code_at account)
    code ← checked call_failed found
    reply ← ask (nonce_at account)
    nonce ← checked call_failed reply
    require (equal_bytes code designation && nonce == expected) account_mismatch

  -- The designation is still there.
  unfoldable pub check_persistent : Bytes → ℕ → NodeProgram Tx Unit
  check_persistent designation account = do
    found ← ask (code_at account)
    code ← checked call_failed found
    require (equal_bytes code designation) designation_lost

  -- Another block.
  unfoldable pub persist : Bytes → ℕ → ℕ → NodeProgram Tx Unit
  persist designation first second = do
    reply ← ask evm_mine
    mined ← checked call_failed reply
    kept ← check_persistent designation first
    check_persistent designation second

unfoldable pub is_receipt : Receipt → Bool
is_receipt receipt = receipt.status == 1 && receipt.type == 4
