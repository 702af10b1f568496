-- ===== src/Local/Startup.antt =====
-- `run` and `stop` of the local reproductions, word for word the same in their articles but for
-- what follows the checks: evm/evm-tx-understanding-legacy-ethereum/transaction-types/local/main.go
use blog_solutions.Prelude.{
  ℕ, zero, suc, ◌+◌, ℤ, pos, negsuc, Bool, true, false, ◌&&◌, ◌||◌, List, [], ◌∷◌, map, ok, ◌==◌,
  leb, if◌then◌else◌,
}
use blog_solutions.Rlp.Item.{Bytes}
use blog_solutions.Blob.Packing.{equal_bytes}
use blog_solutions.Local.Program.{done, ◌>>=◌, deferring}
use blog_solutions.Local.Calls.{
  CallError, Reply, answer, failure, call_failed, readiness_failed, wrong_anvil_version,
  unexpected_chain, not_capable, chain_id, node_info, client_version, anvil_version, free_port,
  close_client, terminate_node, exited_in_time, kill_node, await_exit, context_error, start_node,
  dial, sleep, node, NodeProgram, Session, ask, fail, checked, require, unless_ended, connected,
}

-- The functions of `strings`, on texts of ASCII.
unfoldable pub has_prefix : Bytes → Bytes → Bool
has_prefix s [] = true
has_prefix [] (c ∷ prefix) = false
has_prefix (b ∷ s) (c ∷ prefix) = b == c && has_prefix s prefix

unfoldable pub contains : Bytes → Bytes → Bool
contains [] part = has_prefix [] part
contains (b ∷ s) part = has_prefix (b ∷ s) part || contains s part

unfoldable pub lower : ℕ → ℕ
lower b = if leb 0x41 b && leb b 0x5a then b + 32 else b

unfoldable pub to_lower : Bytes → Bytes
to_lower s = map lower s

unfoldable pub equal_fold : Bytes → Bytes → Bool
equal_fold s t = equal_bytes (to_lower s) (to_lower t)

abbrev pub cancun : Bytes
cancun = 0x63 ∷ 0x61 ∷ 0x6e ∷ 0x63 ∷ 0x75 ∷ 0x6e ∷ []

abbrev pub anvil : Bytes
anvil = 0x61 ∷ 0x6e ∷ 0x76 ∷ 0x69 ∷ 0x6c ∷ []

-- "1.4.4"
abbrev pub supported_version : Bytes
supported_version = 0x31 ∷ 0x2e ∷ 0x34 ∷ 0x2e ∷ 0x34 ∷ []

abbrev pub is_local_chain : ℤ → Bool
is_local_chain (pos n) = n == 31337
is_local_chain (negsuc n) = false

module _ {Tx : Type 0} where
  -- The `select` of `stop`: the node has ended within five seconds or is killed.
  unfoldable pub kill_unless : Bool → Session Tx Unit
  kill_unless true = done (ok tt)
  kill_unless false = do sent ← ask kill_node; ended ← ask await_exit; done (ok tt)

  unfoldable pub stop : Session Tx Unit
  stop = do sent ← ask terminate_node; in_time ← ask exited_in_time; kill_unless in_time

  -- What the node has said of its chain, and what follows a failure.
  unfoldable pub chain_or_retry : (CallError → Session Tx ℤ) → Reply ℤ → Session Tx ℤ
  chain_or_retry retry (answer chain) = done (ok chain)
  chain_or_retry retry (failure e) = do slept ← ask (sleep 50); retry e

  -- A round of the loop that waits for the node.
  unfoldable pub poll_chain : (CallError → Session Tx ℤ) → Session Tx ℤ
  poll_chain retry = do
    ended ← ask context_error
    going_on ← unless_ended ended
    reply ← ask (node chain_id)
    chain_or_retry retry reply

  -- The loop, with the rounds that may follow the first one.
  unfoldable pub await_chain : ℕ → Session Tx ℤ
  await_chain zero = poll_chain (λ e. fail (readiness_failed e))
  await_chain (suc rounds) = poll_chain (λ e. await_chain rounds)

  -- The checks of what the node says of itself.
  unfoldable pub check_node : ℤ → Session Tx ℤ
  check_node chain = do
    known ← require (is_local_chain chain) unexpected_chain
    info ← ask (node node_info)
    hard_fork ← checked call_failed info
    reply ← ask (node client_version)
    version ← checked call_failed reply
    capable ← require (equal_fold hard_fork cancun && contains (to_lower version) anvil) not_capable
    done (ok chain)

  -- The capabilities that are checked before anything else is asked of the node.
  unfoldable pub check_capabilities : Session Tx ℤ
  check_capabilities = do chain ← await_chain 99; check_node chain

  -- The loop over the kinds of transactions.
  unfoldable pub for_each :
      {Kind : Type 0} → (Kind → NodeProgram Tx Unit) → List Kind → NodeProgram Tx Unit
  for_each transact [] = done (ok tt)
  for_each transact (kind ∷ kinds) = do sent ← transact kind; for_each transact kinds

  -- What runs with the connection open, `work` being what follows the checks.
  unfoldable pub connected_session : (ℤ → NodeProgram Tx Unit) → Session Tx Unit
  connected_session work = do chain ← check_capabilities; connected (work chain)

  -- What runs with the node started.
  unfoldable pub node_session : ℕ → (ℤ → NodeProgram Tx Unit) → Session Tx Unit
  node_session port work = do
    reply ← ask (dial port)
    client ← checked call_failed reply
    deferring (connected_session work) (ask close_client)

  unfoldable pub start_session : ℕ → (ℤ → NodeProgram Tx Unit) → Session Tx Unit
  start_session port work = do
    process ← ask (start_node port cancun)
    started ← checked call_failed process
    deferring (node_session port work) stop

  unfoldable pub owned_session : (ℤ → NodeProgram Tx Unit) → Session Tx Unit
  owned_session work = do
    listener ← ask free_port
    port ← checked call_failed listener
    start_session port work

  unfoldable pub run : (ℤ → NodeProgram Tx Unit) → Session Tx Unit
  run work = do
    output ← ask anvil_version
    version ← checked call_failed output
    supported ← require (contains version supported_version) wrong_anvil_version
    owned_session work
