-- ===== src/Local/Delegation/Owned.antt =====
-- The node that `run` of the delegation article starts:
-- evm/evm-tx-setcode-transactions-eip-7702/transaction-types/local/main.go
use blog_solutions.Prelude.{ℕ, ℤ, ok}
use blog_solutions.Local.Program.{done, ◌>>=◌, deferring}
use blog_solutions.Local.Calls.{
  NodeProgram, Session, ask, checked, require, connected, call_failed, layout_failed,
  capability_failed, wrong_anvil_version, unexpected_chain, not_prague, not_capable, node,
  node_info, client_version, anvil_version, current_directory, foundry_file, free_port, start_node,
  dial, close_client,
}
use blog_solutions.Local.Ethereum.{Ethereum}
use blog_solutions.Local.Startup.{
  is_local_chain, contains, equal_fold, to_lower, supported_version, anvil, await_chain, stop,
}
use blog_solutions.Local.Token.{trim_space}
use blog_solutions.Local.Delegation.{prague, Authorizer}
use blog_solutions.Local.Delegation.Native.{delegate}

module _ {Tx : Type 0} where
  -- The checks of what the node says of itself.
  unfoldable pub check_prague : ℤ → Session Tx ℤ
  check_prague chain = do
    known ← require (is_local_chain chain) unexpected_chain
    info ← ask (node node_info)
    hard_fork ← checked capability_failed info
    right_fork ← require (equal_fold hard_fork prague) not_prague
    reply ← ask (node client_version)
    version ← checked call_failed reply
    capable ← require (contains (to_lower version) anvil) not_capable
    done (ok chain)

  unfoldable pub connected_prague : (ℤ → NodeProgram Tx Unit) → Session Tx Unit
  connected_prague work = do
    chain ← await_chain 99
    checked_chain ← check_prague chain
    connected (work checked_chain)

  unfoldable pub node_prague : ℕ → (ℤ → NodeProgram Tx Unit) → Session Tx Unit
  node_prague port work = do
    reply ← ask (dial port)
    client ← checked call_failed reply
    deferring (connected_prague work) (ask close_client)

  unfoldable pub start_prague : ℕ → (ℤ → NodeProgram Tx Unit) → Session Tx Unit
  start_prague port work = do
    process ← ask (start_node port prague)
    started ← checked call_failed process
    deferring (node_prague port work) stop

  unfoldable pub run_prague : (ℤ → NodeProgram Tx Unit) → Session Tx Unit
  run_prague work = do
    output ← ask anvil_version
    version ← checked call_failed output
    supported ← require (contains (trim_space version) supported_version) wrong_anvil_version
    directory ← ask current_directory
    dir ← checked call_failed directory
    stat ← ask foundry_file
    found ← checked layout_failed stat
    listener ← ask free_port
    port ← checked call_failed listener
    start_prague port work

module _ {Tx Key Auth : Type 0} (lib : Ethereum Tx Key) (authorizer : Authorizer Tx Key Auth) where
  unfoldable pub run_set_code : Session Tx Unit
  run_set_code = run_prague (delegate lib authorizer)
