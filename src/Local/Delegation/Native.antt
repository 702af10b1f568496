-- ===== src/Local/Delegation/Native.antt =====
-- What `run` of the delegation article does with the node, with `deploy` and `triggerData`:
-- evm/evm-tx-setcode-transactions-eip-7702/transaction-types/local/main.go
use blog_solutions.Prelude.{
  ℕ, ◌+◌, ◌*◌, ◌%◌, ◌^◌, ℤ, pos, ◌+ℤ◌, Bool, true, false, not, ◌&&◌, List, [], ◌∷◌, ◌++◌, length,
  ok, ◌==◌, word,
}
use blog_solutions.Rlp.Item.{Bytes}
use blog_solutions.Blob.Packing.{equal_bytes}
use blog_solutions.Local.Program.{done, ◌>>=◌}
use blog_solutions.Local.Calls.{
  Reply, answer, failure, Receipt, Log, Contract, invoked, multi_delegation_invoker, NodeProgram,
  ask, checked, require, call_failed, submission_failed, deploy_failed, runtime_mismatch,
  abi_mismatch, signer_mismatch, receipt_mismatch, fields_mismatch, authorization_mismatch,
  event_count_mismatch, event_mismatch, forge_create_of, forge_inspect_of, code_at, set_balance,
  suggest_gas_tip_cap, suggest_gas_price, send_transaction, transaction_by_hash,
}
use blog_solutions.Local.Ethereum.{
  Ethereum, Signature, trigger_pings, ping_start, pinged, ping_success,
}
use blog_solutions.Local.Token.{trim_space, deployed_address, same_topics}
use blog_solutions.Local.Blobs.{must}
use blog_solutions.Local.Delegation.{
  Authorizer, Authority, Grants, wait_mined, authority_with, fresh_nonce, check_account, persist,
  is_receipt,
}

module _ {Tx Key Auth : Type 0} (lib : Ethereum Tx Key) (authorizer : Authorizer Tx Key Auth) where
  unfoldable pub deploy : Contract → NodeProgram Tx ℕ
  deploy name = do
    created ← ask (forge_create_of name)
    out ← checked deploy_failed created
    hex ← checked call_failed (lib.deployed_to (trim_space out))
    account ← deployed_address lib (lib.hex_address hex)
    inspected ← ask (forge_inspect_of name)
    expected ← checked call_failed inspected
    found ← ask (code_at account)
    code ← checked call_failed found
    same ←
        require (not (length code == 0) && equal_bytes code (lib.from_hex (trim_space expected)))
          runtime_mismatch
    done (ok account)

  -- The words of the call, written by hand.
  unfoldable pub address_words : List ℕ → Bytes
  address_words [] = []
  address_words (a ∷ accounts) = lib.word_of a ++ address_words accounts

  unfoldable pub manual_data : List ℕ → Bytes
  manual_data accounts =
      lib.selector trigger_pings
      ++ lib.word_of 32
      ++ lib.word_of (length accounts)
      ++ address_words accounts

  unfoldable pub trigger_data : List ℕ → NodeProgram Tx Bytes
  trigger_data accounts = do
    packed ← checked call_failed (authorizer.pack_trigger accounts)
    same ← require (equal_bytes packed (manual_data accounts)) abi_mismatch
    done (ok packed)

  unfoldable pub is_authority : ℕ → Reply ℕ → Bool
  is_authority account (answer who) = who == account
  is_authority account (failure e) = false

  -- The first authority is another account, the second one sends the transaction, which takes a
  -- nonce before its authorization does.
  unfoldable pub authorize :
      ℕ → Authority Key → Authority Key → ℕ → ℕ → NodeProgram Tx (Grants Auth)
  authorize implementation a b nonce_a nonce_b = do
    let next = (nonce_b + 1) % word
    first ← checked call_failed (
        authorizer.sign_grant a.key
          (record { chain = 31337; address = implementation; nonce = nonce_a }))
    second ← checked call_failed (
        authorizer.sign_grant b.key
          (record { chain = 31337; address = implementation; nonce = next }))
    first_known ← require (is_authority a.address (authorizer.authority first)) signer_mismatch
    second_known ← require (is_authority b.address (authorizer.authority second)) signer_mismatch
    done
        (ok (record { first = first; second = second; first_nonce = nonce_a; second_nonce = next }))

  unfoldable pub sign : ℤ → Authority Key → ℕ → ℕ → Bytes → Grants Auth → NodeProgram Tx Tx
  sign chain sender nonce invoker data_of grants = do
    tip_reply ← ask suggest_gas_tip_cap
    tip ← checked call_failed tip_reply
    price_reply ← ask suggest_gas_price
    price ← checked call_failed price_reply
    tip_word ← must (lib.from_big tip)
    cap_word ← must (lib.from_big (price +ℤ tip))
    checked call_failed (
        authorizer.sign_set_code chain sender.key (record {
          chain = 31337;
          nonce = nonce;
          gas_tip_cap = tip_word;
          gas_fee_cap = cap_word;
          gas = 120000;
          to = invoker;
          data_of = data_of;
          auth_list = grants.first ∷ grants.second ∷ [];
        }))

  unfoldable pub is_granted : ℕ → Auth → ℕ → Bool
  is_granted implementation a nonce =
      authorizer.nonce_of a == nonce
      && authorizer.address_of a == implementation
      && authorizer.chain_of a == 31337

  -- The authorizations of the mined transaction, of which there are two.
  unfoldable pub are_granted : ℕ → Grants Auth → List Auth → Bool
  are_granted implementation grants (first ∷ second ∷ []) =
      is_granted implementation first grants.first_nonce
      && is_granted implementation second grants.second_nonce
  are_granted implementation grants _ = false

  unfoldable pub is_mined : Bytes → Tx × Bool → Bool
  is_mined data_of (observed, pending) =
      not pending
      && lib.type observed == 4
      && equal_bytes (lib.data_of observed) data_of
      && length (authorizer.authorizations observed) == 2

  -- The receipt and the transaction as it is mined.
  unfoldable pub check_mined : ℕ → Bytes → Grants Auth → ℕ → NodeProgram Tx Receipt
  check_mined implementation data_of grants hash = do
    receipt ← wait_mined 99 hash
    successful ← require (is_receipt receipt) receipt_mismatch
    reply ← ask (transaction_by_hash hash)
    mined ← checked call_failed reply
    as_sent ← require (is_mined data_of mined) fields_mismatch
    granted ←
        require (are_granted implementation grants (authorizer.authorizations mined.0))
          authorization_mismatch
    done (ok receipt)

  -- The code that an account has when it delegates.
  unfoldable pub designation : ℕ → Bytes
  designation implementation = 0xef ∷ 0x01 ∷ 0x00 ∷ authorizer.address_bytes implementation

  -- The log of an emitter, with one topic and an address.
  abbrev pub event_of : ℕ → Signature → ℕ → Log
  event_of emitter name value = record {
    address = emitter;
    topics = lib.event_hash name ∷ [];
    data_of = lib.word_of value;
  }

  abbrev pub expected_events : ℕ → ℕ → ℕ → ℕ → List Log
  expected_events implementation invoker a b =
      event_of invoker ping_start b
      ∷ event_of implementation pinged invoker
      ∷ event_of invoker ping_success a
      ∷ event_of implementation pinged invoker
      ∷ event_of invoker ping_success b
      ∷ []

  unfoldable pub is_event : Log → Log → Bool
  is_event l expected =
      l.address == expected.address
      && same_topics l.topics expected.topics
      && equal_bytes l.data_of expected.data_of

  -- The loop over the logs.
  unfoldable pub are_events : List Log → List Log → Bool
  are_events (l ∷ logs) (e ∷ events) = is_event l e && are_events logs events
  are_events _ _ = true

  unfoldable pub check_events : List Log → List Log → NodeProgram Tx Unit
  check_events events logs = do
    counted ← require (length logs == 5) event_count_mismatch
    require (are_events logs events) event_mismatch

  -- The effects: the accounts, the events and the next block.
  unfoldable pub check_effects :
      ℕ → ℕ → Authority Key → Authority Key → ℕ → ℕ → Receipt → NodeProgram Tx Unit
  check_effects implementation invoker a b nonce_a nonce_b receipt = do
    other ← check_account (designation implementation) a.address ((nonce_a + 1) % word)
    sender ← check_account (designation implementation) b.address ((nonce_b + 2) % word)
    logged ← check_events (expected_events implementation invoker a.address b.address) receipt.logs
    persist (designation implementation) a.address b.address

  -- The submission for two fresh accounts.
  unfoldable pub submit : ℤ → ℕ → ℕ → Authority Key → Authority Key → ℕ → ℕ → NodeProgram Tx Unit
  submit chain implementation invoker a b nonce_a nonce_b = do
    funding ← ask (set_balance b.address (pos (100 * 10 ^ 18)))
    funded ← checked call_failed funding
    data_of ← trigger_data (a.address ∷ b.address ∷ [])
    grants ← authorize implementation a b nonce_a nonce_b
    signed ← sign chain b nonce_b invoker data_of grants
    accepted ← ask (send_transaction signed)
    sent ← checked submission_failed accepted
    receipt ← check_mined implementation data_of grants (lib.hash signed)
    check_effects implementation invoker a b nonce_a nonce_b receipt

  unfoldable pub delegate : ℤ → NodeProgram Tx Unit
  delegate chain = do
    implementation ← deploy invoked
    invoker ← deploy multi_delegation_invoker
    a ← authority_with lib.address_of (lib.key_of 1)
    b ← authority_with lib.address_of (lib.key_of 2)
    nonce_a ← fresh_nonce a.address
    nonce_b ← fresh_nonce b.address
    submit chain implementation invoker a b nonce_a nonce_b
