-- ===== src/Local/Submission/Runs.antt =====
-- Runs of the token articles against a node that answers as it should.
use blog_solutions.Prelude.{◌≡◌, refl, pos, ok, []}
use blog_solutions.Rlp.BigEndian.{from_bytes}
use blog_solutions.Blob.Packing.{equal_bytes}
use blog_solutions.Local.Program.{exec, on_end}
use blog_solutions.Local.Testbed.{sample_lib, mining_world}
use blog_solutions.Local.Transact.{
  legacy, access, dynamic, receipt_or_wait, wait_receipt, prepare, is_recovered, check_envelope,
  is_successful, is_as_signed, is_advanced, is_received, is_price_within_cap, check_effects,
}
use blog_solutions.Local.Transact as Legacy
use blog_solutions.Local.Token.{
  token_balance, token_balances, is_moved, is_transfer_log, check_logs, check_token,
}
use blog_solutions.Local.Submission.{key_number, watch, check_access_list, settle, submit}
use blog_solutions.Local.Submission.Paid.{IsPaid}
use blog_solutions.Local.Submission.Articles.{series_pays}
use blog_solutions.Local.Access as Access
use blog_solutions.Local.Dynamic as Dynamic
use blog_solutions.Local.Series as Series
use blog_solutions.Fees.Caps.{buffered, last_of, last_fee, cap_with, cap_on, fee_caps}
use blog_solutions.Prelude.{
  ℕ, zero, suc, ◌+◌, ◌++◌, ◌∷◌, Bool, true, false, not, ◌==◌, replicate, if◌then◌else◌,
}
use blog_solutions.Rlp.Item.{Bytes}
use blog_solutions.Local.Program.{Trace, World}
use blog_solutions.Local.Calls.{
  answer, NodeCall, NodeAnswer, Call, CallAnswer, send_transaction, pending_nonce_at, balance_at,
  call_contract, node,
}
use blog_solutions.Local.Ethereum.{Ethereum}
use blog_solutions.Local.Testbed.{Sample, whole_world, client_calls, balance_bytes, last_byte}
use blog_solutions.Local.Startup.{
  run, owned_session, start_session, node_session, connected_session, check_capabilities,
  check_node, await_chain, poll_chain, chain_or_retry, stop, kill_unless, for_each, contains,
  has_prefix, equal_fold, to_lower, lower,
}
use blog_solutions.Local.Calls.{connected}
use blog_solutions.Local.Token.{
  is_space, trim_left, trim_space, deployed_address, runtime_of, deploy_token,
}
use blog_solutions.Local.Sessions.{Reached}
use blog_solutions.Local.Submission.Programs.{
  PaidWith, AllSent, run_access_pays, run_dynamic_pays, run_series_sends_all,
}

series_succeeds :
    (exec mining_world [] (Series.transact (sample_lib 2) 2 (pos 31337) 9 access)).1 ≡ ok tt
unfolding exec on_end Series.transact Series.sign_kind Access.sign_access Access.discovered prepare
    check_envelope is_recovered submit watch settle check_access_list key_number token_balance
    token_balances is_moved is_transfer_log check_logs check_token wait_receipt receipt_or_wait
    check_effects is_successful is_as_signed is_advanced is_received is_price_within_cap equal_bytes
    from_bytes
series_succeeds = refl

series_pays_example :
    IsPaid
      (sample_lib 2)
      (pos 31337)
      9
      access
      (exec mining_world [] (Series.transact (sample_lib 2) 2 (pos 31337) 9 access)).0
series_pays_example =
    series_pays (sample_lib 2) mining_world 2 9 (pos 31337) access refl series_succeeds

run_access_succeeds : (exec whole_world [] (Access.run_access (sample_lib 2) 2)).1 ≡ ok tt
unfolding Access.run_access Access.work Access.transact Access.sign_kind Access.sign_access
    Access.discovered exec on_end run owned_session start_session node_session connected_session
    check_capabilities check_node await_chain poll_chain chain_or_retry stop kill_unless connected
    for_each contains has_prefix equal_fold to_lower lower is_space trim_left trim_space
    deployed_address runtime_of deploy_token prepare check_envelope is_recovered submit watch settle
    check_access_list key_number token_balance token_balances is_moved is_transfer_log check_logs
    check_token wait_receipt receipt_or_wait check_effects is_successful is_as_signed is_advanced
    is_received is_price_within_cap equal_bytes from_bytes
run_access_succeeds = refl

run_access_pays_example :
    Reached
      (PaidWith (sample_lib 2) 2 access)
      (exec whole_world [] (Access.run_access (sample_lib 2) 2)).0
run_access_pays_example = run_access_pays (sample_lib 2) 2 whole_world run_access_succeeds

run_dynamic_succeeds : (exec whole_world [] (Dynamic.run_dynamic (sample_lib 2) 2)).1 ≡ ok tt
unfolding Dynamic.run_dynamic Dynamic.work Dynamic.transact Dynamic.sign_kind Dynamic.sign_dynamic
    buffered last_of last_fee cap_with cap_on fee_caps exec on_end run owned_session start_session
    node_session connected_session check_capabilities check_node await_chain poll_chain
    chain_or_retry stop kill_unless connected for_each contains has_prefix equal_fold to_lower lower
    is_space trim_left trim_space deployed_address runtime_of deploy_token prepare check_envelope
    is_recovered submit watch settle check_access_list key_number token_balance token_balances
    is_moved is_transfer_log check_logs check_token wait_receipt receipt_or_wait check_effects
    is_successful is_as_signed is_advanced is_received is_price_within_cap equal_bytes from_bytes
run_dynamic_succeeds = refl

run_dynamic_pays_example :
    Reached
      (PaidWith (sample_lib 2) 2 dynamic)
      (exec whole_world [] (Dynamic.run_dynamic (sample_lib 2) 2)).0
run_dynamic_pays_example = run_dynamic_pays (sample_lib 2) 2 whole_world run_dynamic_succeeds

-- The legacy transactions are those of key 1, the others of key 2.
abbrev signer_of : ℕ → ℕ
signer_of zero = 1
signer_of (suc type) = 2

abbrev series_lib : Ethereum Sample ℕ
series_lib = record (sample_lib 2) { sender = λ chain tx. answer (signer_of tx.type) }

abbrev sent_by : ℕ → Trace (NodeCall Sample) NodeAnswer → ℕ
sent_by account [] = 0
sent_by account ((send_transaction tx, a) ∷ past) =
    (if signer_of tx.type == account then 1 else 0) + sent_by account past
sent_by account (e ∷ past) = sent_by account past

-- The balances of the token after some transfers.
abbrev balances_after : ℕ → Bool → Bytes
balances_after zero recipient = balance_bytes false (not recipient)
balances_after (suc zero) recipient = balance_bytes true (not recipient)
balances_after (suc (suc n)) true = 0x02 ∷ 0xc6 ∷ 0x8a ∷ 0xf0 ∷ 0xbb ∷ 0x14 ∷ 0x00 ∷ 0x00 ∷ []
balances_after (suc (suc n)) false = 0x0b ∷ 0x1a ∷ 0x2b ∷ 0xc2 ∷ 0xec ∷ 0x50 ∷ 0x00 ∷ 0x00 ∷ []

abbrev series_node : World (NodeCall Sample) NodeAnswer
series_node past (pending_nonce_at account) = answer (3 + sent_by account past)
series_node past (balance_at account) =
    answer (pos (if sent_by 1 past == 0 then 5 else 5 + 10000000000000000))
series_node past (call_contract to data_of) =
    answer (replicate 24 0 ++ balances_after (sent_by 2 past) (not (last_byte data_of == 2)))
series_node past c = mining_world past c

abbrev series_world : World (Call Sample) CallAnswer
series_world past (node c) = series_node (client_calls past) c
series_world past c = whole_world past c

run_series_succeeds : (exec series_world [] (Series.run_series series_lib 2)).1 ≡ ok tt
unfolding Series.run_series Series.work Series.transact Series.sign_kind Legacy.sign_kind
    Access.sign_access Access.discovered Dynamic.sign_dynamic buffered last_of last_fee cap_with
    cap_on fee_caps exec on_end run owned_session start_session node_session connected_session
    check_capabilities check_node await_chain poll_chain chain_or_retry stop kill_unless connected
    for_each contains has_prefix equal_fold to_lower lower is_space trim_left trim_space
    deployed_address runtime_of deploy_token prepare check_envelope is_recovered submit watch settle
    check_access_list key_number token_balance token_balances is_moved is_transfer_log check_logs
    check_token wait_receipt receipt_or_wait check_effects is_successful is_as_signed is_advanced
    is_received is_price_within_cap equal_bytes from_bytes
run_series_succeeds = refl

run_series_sends_all_example :
    Reached (AllSent series_lib 2) (exec series_world [] (Series.run_series series_lib 2)).0
run_series_sends_all_example = run_series_sends_all series_lib 2 series_world run_series_succeeds
