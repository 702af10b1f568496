-- ===== src/Local/Transact/Runs.antt =====
-- A run of `transact` against a node that answers as it should.
use blog_solutions.Prelude.{
  suc, ◌≤◌, ◌≡◌, ◌≢◌, refl, [], pos, ok, Returns, if◌then◌else◌, leb, le→leb,
}
use blog_solutions.Blob.Packing.{equal_bytes}
use blog_solutions.Local.Program.{Trace, World, exec, on_end}
use blog_solutions.Local.Calls.{
  answer, failure, not_found, NodeCall, NodeAnswer, transaction_receipt,
}
use blog_solutions.Local.Calls.{connected}
use blog_solutions.Local.Startup.{
  has_prefix, contains, lower, to_lower, equal_fold, kill_unless, stop, chain_or_retry, poll_chain,
  await_chain, check_node, check_capabilities, for_each, connected_session, node_session,
  start_session, owned_session, run,
}
use blog_solutions.Local.Testbed.{Sample, sample_lib, mined_receipt, mining_world, whole_world}
use blog_solutions.Local.Sessions.{Reached}
use blog_solutions.Local.Legacy.{run_legacy, run_legacy_delivers}
use blog_solutions.Local.Transact.{
  legacy, receipt_or_wait, wait_receipt, prepare, sign_kind, is_recovered, check_envelope,
  is_successful, is_as_signed, is_advanced, is_received, is_price_within_cap, check_effects, submit,
  transact,
}
use blog_solutions.Local.Transact.Transfer.{IsTransferred, transact_transfers}
use blog_solutions.Local.Transact.Once.{sends, transact-sends_once}
use blog_solutions.Local.Transact.Waiting.{misses, wait_receipt-Returns}

transact_succeeds : (exec mining_world [] (transact (sample_lib 1) 2 (pos 31337) legacy)).1 ≡ ok tt
unfolding exec transact prepare sign_kind check_envelope is_recovered submit wait_receipt
    receipt_or_wait check_effects is_successful is_as_signed is_advanced is_received
    is_price_within_cap on_end equal_bytes
transact_succeeds = refl

transact_transfers_example :
    IsTransferred
      (sample_lib 1)
      (pos 31337)
      (exec mining_world [] (transact (sample_lib 1) 2 (pos 31337) legacy)).0
transact_transfers_example =
    transact_transfers (sample_lib 1) mining_world 2 (pos 31337) legacy transact_succeeds

-- A node that has the receipt from the third poll on.
abbrev slow_world : World (NodeCall Sample) NodeAnswer
slow_world past (transaction_receipt hash) =
    if leb 2 (misses past) then answer (mined_receipt 0 hash) else failure not_found
slow_world past c = mining_world past c

slow_world_answers :
    (past : Trace (NodeCall Sample) NodeAnswer)
    → 2 ≤ misses past
    → slow_world past (transaction_receipt 103) ≢ failure not_found
slow_world_answers past h e = cc (e, le→leb 2 (misses past) h)

wait_receipt-Returns_example : Returns (exec slow_world [] (wait_receipt (suc 2) 103)).1
wait_receipt-Returns_example = wait_receipt-Returns slow_world 103 2 slow_world_answers

run_legacy_succeeds : (exec whole_world [] (run_legacy (sample_lib 1) 2)).1 ≡ ok tt
unfolding exec run_legacy run owned_session start_session node_session connected_session
    check_capabilities check_node await_chain poll_chain chain_or_retry stop kill_unless connected
    for_each contains has_prefix equal_fold to_lower lower transact prepare sign_kind check_envelope
    is_recovered submit wait_receipt receipt_or_wait check_effects is_successful is_as_signed
    is_advanced is_received is_price_within_cap on_end equal_bytes
run_legacy_succeeds = refl

run_legacy_delivers_example :
    Reached
      (λ chain t. IsTransferred (sample_lib 1) chain t)
      (exec whole_world [] (run_legacy (sample_lib 1) 2)).0
run_legacy_delivers_example = run_legacy_delivers (sample_lib 1) 2 whole_world run_legacy_succeeds

transact-sends_once_example :
    sends (exec mining_world [] (transact (sample_lib 1) 2 (pos 31337) legacy)).0 ≤ 1
transact-sends_once_example = transact-sends_once (sample_lib 1) mining_world 2 (pos 31337) legacy
