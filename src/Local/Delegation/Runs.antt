-- ===== src/Local/Delegation/Runs.antt =====
-- Runs of the delegation article against a node that answers as it should.
use blog_solutions.Prelude.{
  arith, ℕ, ◌%◌, ◌≡◌, refl, pos, Bool, true, false, ◌||◌, [], ◌∷◌, ◌++◌, none, some, ok, ◌==◌,
  replicate, if◌then◌else◌,
}
use blog_solutions.Rlp.Item.{Bytes}
use blog_solutions.Blob.Packing.{equal_bytes}
use blog_solutions.Local.Program.{Trace, World, exec, on_end}
use blog_solutions.Local.Calls.{
  answer, failure, not_found, Receipt, Log, invoked, multi_delegation_invoker, NodeCall, NodeAnswer,
  suggest_gas_tip_cap, suggest_gas_price, set_balance, pending_nonce_at, nonce_at, send_transaction,
  transaction_receipt, transaction_by_hash, code_at, forge_create_of, forge_inspect_of, evm_mine,
  pause,
}
use blog_solutions.Local.Silent.{silent}
use blog_solutions.Local.Testbed.{Sample, sample, sample_lib, sent, is_sent, observed}
use blog_solutions.Local.Token.{is_space, trim_left, trim_space, deployed_address}
use blog_solutions.Local.Blobs.{must}
use blog_solutions.Local.Delegation.{
  Grant, Authorizer, mined_or_retry, wait_mined, authority_with, fresh_nonce, check_account,
  check_persistent, persist, is_receipt,
}
use blog_solutions.Local.Delegation.Native.{
  deploy, address_words, manual_data, trigger_data, is_authority, authorize, sign, is_granted,
  are_granted, is_mined, check_mined, designation, is_event, are_events, check_events,
  check_effects, submit, delegate,
}
use blog_solutions.Local.Calls.{
  Call, CallAnswer, node, chain_id, node_info, client_version, connected,
}
use blog_solutions.Local.Startup.{
  anvil, await_chain, poll_chain, chain_or_retry, stop, kill_unless, contains, has_prefix,
  equal_fold, to_lower, lower,
}
use blog_solutions.Local.Testbed.{client_calls}
use blog_solutions.Local.Delegation.{prague}
use blog_solutions.Local.Sessions.{Reached}
use blog_solutions.Local.Delegation.Owned.{
  run_set_code, start_prague, node_prague, connected_prague, check_prague,
}
use blog_solutions.Local.Delegation.Whole.{run_set_code_delegates}
use blog_solutions.Local.Lifecycle.{IsSettled}
use blog_solutions.Local.Testbed.{whole_world}
use blog_solutions.Prelude.{zero, suc, panic, nil_pointer, ◌<◌}
use blog_solutions.Local.Delegation.Owned.{run_prague}
use blog_solutions.Local.Delegation.Ends.{run_prague-IsSettled, after_misses, wait_mined_returns}
use blog_solutions.Local.Delegation.Delegated.{IsDelegated}

abbrev grant_of : ℕ → Grant
grant_of nonce = record { chain = 31337; address = 57; nonce = nonce }

-- An authorization is its key and what it grants. Every transaction carries the same two.
abbrev sample_authorizer : Authorizer Sample ℕ (ℕ × Grant)
sample_authorizer = record {
  sign_grant = λ key grant. answer (key, grant);
  authority = λ auth. answer auth.0;
  nonce_of = λ auth. auth.1.nonce;
  address_of = λ auth. auth.1.address;
  chain_of = λ auth. auth.1.chain;
  sign_set_code = λ chain key tx. answer (sample 4 tx.nonce tx.to (pos 0) tx.data_of);
  authorizations = λ tx. (1, grant_of 0) ∷ (2, grant_of 1) ∷ [];
  pack_trigger = λ accounts. answer (
      0x70 ∷ 0xa0 ∷ 0x82 ∷ 0x31 ∷ []
      ++ replicate 31 0
      ++ 32 ∷ replicate 31 0
      ++ 2 ∷ replicate 31 0
      ++ 1 ∷ replicate 31 0
      ++ 2 ∷ []);
  address_bytes = λ account. account ∷ [];
}

abbrev event_log : ℕ → ℕ → Log
event_log emitter value = record {
  address = emitter;
  topics = 77 ∷ [];
  data_of = replicate 31 0 ++ value % 256 ∷ [];
}

abbrev delegation_receipt : ℕ → Receipt
delegation_receipt hash = record {
  status = 1;
  type = 4;
  tx_hash = hash;
  block_number = some (pos 7);
  gas_used = 90000;
  effective_gas_price = some (pos 3);
  logs = event_log 56 2 ∷ event_log 57 56 ∷ event_log 56 1 ∷ event_log 57 56 ∷ event_log 56 2 ∷ [];
  blob_gas_used = 0;
  blob_gas_price = none;
}

abbrev has_paused : Trace (NodeCall Sample) NodeAnswer → Bool
has_paused [] = false
has_paused ((pause n, a) ∷ past) = true
has_paused (e ∷ past) = has_paused past

abbrev account_code : Bool → ℕ → Bytes
account_code delegated account =
    if account == 57 || account == 56
    then 0x60 ∷ []
    else (if delegated then 0xef ∷ 0x01 ∷ 0x00 ∷ 57 ∷ [] else [])

abbrev delegating_world : World (NodeCall Sample) NodeAnswer
delegating_world past (forge_create_of invoked) = answer (57 ∷ 0x0a ∷ [])
delegating_world past (forge_create_of multi_delegation_invoker) = answer (56 ∷ 0x0a ∷ [])
delegating_world past (forge_inspect_of name) = answer (0x60 ∷ 0x0a ∷ [])
delegating_world past (code_at account) = answer (account_code (is_sent (sent past)) account)
delegating_world past (pending_nonce_at account) = answer 0
delegating_world past (nonce_at account) = answer account
delegating_world past (set_balance account value) = answer tt
delegating_world past suggest_gas_tip_cap = answer (pos 2)
delegating_world past suggest_gas_price = answer (pos 3)
delegating_world past (send_transaction tx) = answer tt
delegating_world past (transaction_receipt hash) =
    if has_paused past then answer (delegation_receipt hash) else failure not_found
delegating_world past (transaction_by_hash hash) = observed (sent past)
delegating_world past evm_mine = answer tt
delegating_world past c = silent c

-- Without a key there is no address to take: the error is dropped, and the nil key panics.
delegate_panics :
    (exec delegating_world [] (
      delegate
        (record (sample_lib 2) { key_of = λ n. failure not_found })
        sample_authorizer
        (pos 31337))).1
    ≡ panic nil_pointer
unfolding exec on_end is_space trim_left trim_space deployed_address authority_with deploy delegate
    equal_bytes
delegate_panics = refl

-- The first question has no receipt yet, the second one has.
abbrev slow_world : World (NodeCall Sample) NodeAnswer
slow_world [] (transaction_receipt hash) = failure not_found
slow_world (e ∷ past) (transaction_receipt hash) = answer (delegation_receipt hash)
slow_world past c = silent c

abbrev missed_at_first :
    (i : ℕ)
    → i < 1
    → slow_world (after_misses slow_world 5 i) (transaction_receipt 5) ≡ failure not_found
missed_at_first zero h = unfold after_misses in refl
missed_at_first (suc i) h = absurd (omega (arith, h))

wait_mined_returns_example : (exec slow_world [] (wait_mined 99 5)).1 ≡ ok (delegation_receipt 5)
wait_mined_returns_example =
    wait_mined_returns slow_world 5 1 (delegation_receipt 5) (omega arith) missed_at_first
      (unfold after_misses in refl)

-- The same node in a world with its process and its connection.
abbrev prague_world : World (Call Sample) CallAnswer
prague_world past (node chain_id) = answer (pos 31337)
prague_world past (node node_info) = answer prague
prague_world past (node client_version) = answer anvil
prague_world past (node c) = delegating_world (client_calls past) c
prague_world past c = whole_world past c

run_set_code_succeeds :
    (exec prague_world [] (run_set_code (sample_lib 2) sample_authorizer)).1 ≡ ok tt
unfolding exec on_end run_set_code run_prague start_prague node_prague connected_prague check_prague
    await_chain poll_chain chain_or_retry stop kill_unless connected contains has_prefix equal_fold
    to_lower lower is_space trim_left trim_space deployed_address must mined_or_retry wait_mined
    authority_with fresh_nonce check_account check_persistent persist is_receipt deploy
    address_words manual_data trigger_data is_authority authorize sign is_granted are_granted
    is_mined check_mined designation is_event are_events check_events check_effects submit delegate
    equal_bytes
run_set_code_succeeds = refl

run_set_code_delegates_example :
    Reached
      (IsDelegated (sample_lib 2) sample_authorizer)
      (exec prague_world [] (run_set_code (sample_lib 2) sample_authorizer)).0
run_set_code_delegates_example =
    run_set_code_delegates (sample_lib 2) sample_authorizer prague_world run_set_code_succeeds

run_prague-IsSettled_example :
    IsSettled
      (exec prague_world []
        (run_prague (λ chain. delegate (sample_lib 2) sample_authorizer chain))).0
run_prague-IsSettled_example =
    run_prague-IsSettled prague_world (λ chain. delegate (sample_lib 2) sample_authorizer chain)
