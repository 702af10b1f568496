-- ===== src/Local/Runs.antt =====
-- A run of the local reproductions against a node that answers as it should.
use blog_solutions.Prelude.{ℕ, ◌≡◌, refl, [], ◌∷◌, ℤ, pos, false, none, ok}
use blog_solutions.Rlp.Item.{Bytes}
use blog_solutions.Blob.Packing.{equal_bytes}
use blog_solutions.Local.Program.{World, exec, on_end, ◌>>=◌}
use blog_solutions.Local.Calls.{
  answer, Call, CallAnswer, NodeCall, NodeAnswer, NodeProgram, chain_id, node_info, client_version,
  suggest_gas_price, set_balance, pending_nonce_at, balance_at, send_transaction,
  transaction_by_hash, anvil_version, free_port, close_client, terminate_node, exited_in_time,
  kill_node, await_exit, context_error, current_directory, foundry_file, start_node, dial, sleep,
  node, connected, ask, checked, call_failed,
}
use blog_solutions.Local.Silent.{silent}
use blog_solutions.Local.Startup.{
  has_prefix, contains, lower, to_lower, equal_fold, kill_unless, stop, chain_or_retry, poll_chain,
  await_chain, check_capabilities, check_node, connected_session, node_session, start_session,
  owned_session, run, anvil, supported_version,
}
use blog_solutions.Local.Lifecycle.{IsSettled, run-IsSettled}
use blog_solutions.Local.Guard.{IsGuarded}
use blog_solutions.Local.Guard.Sessions.{run-IsGuarded}

-- "Cancun"
abbrev hard_fork_name : Bytes
hard_fork_name = 0x43 ∷ 0x61 ∷ 0x6e ∷ 0x63 ∷ 0x75 ∷ 0x6e ∷ []

-- A node for transactions that are their own hashes, which has to be killed at the end.
abbrev answer_node : (c : NodeCall ℕ) → NodeAnswer c
answer_node chain_id = answer (pos 31337)
answer_node node_info = answer hard_fork_name
answer_node client_version = answer anvil
answer_node suggest_gas_price = answer (pos 1000000000)
answer_node (set_balance account value) = answer tt
answer_node (pending_nonce_at account) = answer 0
answer_node (balance_at account) = answer (pos 0)
answer_node (send_transaction tx) = answer tt
answer_node (transaction_by_hash hash) = answer (hash, false)
answer_node c = silent c

abbrev answer_call : (c : Call ℕ) → CallAnswer c
answer_call anvil_version = answer supported_version
answer_call free_port = answer 4242
answer_call close_client = tt
answer_call terminate_node = tt
answer_call exited_in_time = false
answer_call kill_node = tt
answer_call await_exit = tt
answer_call context_error = none
answer_call current_directory = answer []
answer_call foundry_file = answer tt
answer_call (start_node port hard_fork) = answer tt
answer_call (dial port) = answer tt
answer_call (sleep milliseconds) = tt
answer_call (node c) = answer_node c

abbrev good_world : World (Call ℕ) CallAnswer
good_world past c = answer_call c

abbrev one_balance : ℤ → NodeProgram ℕ Unit
one_balance chain = do reply ← ask (set_balance 1 (pos 100)); checked call_failed reply

run_succeeds : (exec good_world [] (run one_balance)).1 ≡ ok tt
unfolding exec run owned_session start_session node_session connected_session check_capabilities
    check_node await_chain poll_chain chain_or_retry stop kill_unless connected on_end contains
    has_prefix equal_fold to_lower lower equal_bytes
run_succeeds = refl

run-IsSettled_example : IsSettled (exec good_world [] (run one_balance)).0
run-IsSettled_example = run-IsSettled good_world one_balance

run-IsGuarded_example : IsGuarded (exec good_world [] (run one_balance)).0
run-IsGuarded_example = run-IsGuarded good_world one_balance
