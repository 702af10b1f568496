-- ===== src/Local/Lifecycle.antt =====
-- The life of the node that `run` starts, as a state machine on the calls.
use blog_solutions.Prelude.{
  Bool, ℕ, zero, suc, ◌≡◌, refl, ◌∷◌, [], ◌⊎◌, inl, inr, ℤ, ◌&&◌, ok, true, false,
}
use blog_solutions.Local.Program.{done, Trace, World, exec, Ensures, on_end, exec-Ensures}
use blog_solutions.Local.Calls.{
  CallError, Reply, answer, failure, call_failed, unexpected_chain, not_capable,
  wrong_anvil_version, ask, Session, NodeProgram, Call, CallAnswer, node, node_info, client_version,
  anvil_version, free_port, close_client, terminate_node, exited_in_time, kill_node, await_exit,
  context_error, current_directory, foundry_file, start_node, dial, sleep,
}
use blog_solutions.Local.Rules.{
  Ensures-checked, Ensures-require, Ensures-unless_ended, Ends, Ensures-bind, Ensures-deferring,
  Ensures-weaken, Ensures-connected,
}
use blog_solutions.Local.Startup.{
  kill_unless, stop, chain_or_retry, poll_chain, await_chain, check_capabilities, check_node,
  connected_session, node_session, start_session, owned_session, run, contains, equal_fold,
  to_lower, supported_version, is_local_chain, cancun, anvil,
}

-- `overdue` has not ended in time, and `misused` has been dealt with out of turn.
pub data Phase : Type 0 where
  absent running online terminating overdue killed stopped misused : Phase

module _ {Tx : Type 0} where
  unfoldable pub advance : Phase → (c : Call Tx) → CallAnswer c → Phase
  advance absent anvil_version a = absent
  advance absent free_port a = absent
  advance absent current_directory a = absent
  advance absent foundry_file a = absent
  advance absent (start_node port hard_fork) (answer started) = running
  advance absent (start_node port hard_fork) (failure e) = absent
  advance running (dial port) (answer client) = online
  advance running (dial port) (failure e) = running
  advance running terminate_node a = terminating
  advance online (node c) a = online
  advance online context_error a = online
  advance online (sleep n) a = online
  advance online close_client a = running
  advance terminating exited_in_time true = stopped
  advance terminating exited_in_time false = overdue
  advance overdue kill_node a = killed
  advance killed await_exit a = stopped
  advance _ _ _ = misused

  unfoldable pub phase : Trace (Call Tx) CallAnswer → Phase
  phase [] = absent
  phase ((c, a) ∷ past) = advance (phase past) c a

  abbrev pub At : Phase → Trace (Call Tx) CallAnswer → Type 0
  At q t = phase t ≡ q

  kill_unless-At :
      (in_time : Bool) (past : Trace (Call Tx) CallAnswer)
      → At running past
      → Ensures
          (Ends (At stopped))
          ((exited_in_time, in_time) ∷ (terminate_node, tt) ∷ past)
          (kill_unless in_time)
  unfolding kill_unless Ensures on_end phase advance
  kill_unless-At true past h = rw h refl
  kill_unless-At false past h = λ a b. rw h refl

  pub stop-At :
      (past : Trace (Call Tx) CallAnswer) → At running past → Ensures (Ends (At stopped)) past stop
  unfolding stop Ensures on_end
  stop-At past h = λ sent in_time. kill_unless-At in_time past h

  chain_or_retry-At :
      (retry : CallError → Session Tx ℤ) (reply : Reply ℤ) (past : Trace (Call Tx) CallAnswer)
      → ((t : Trace (Call Tx) CallAnswer) (e : CallError)
          → At online t
          → Ensures (Ends (At online)) t (retry e))
      → At online past
      → Ensures (Ends (At online)) past (chain_or_retry retry reply)
  unfolding chain_or_retry Ensures on_end phase advance
  chain_or_retry-At retry (answer chain) past keep h = h
  chain_or_retry-At retry (failure e) past keep h = λ slept. keep _ e (rw h refl)

  poll_chain-At :
      (retry : CallError → Session Tx ℤ) (past : Trace (Call Tx) CallAnswer)
      → ((t : Trace (Call Tx) CallAnswer) (e : CallError)
          → At online t
          → Ensures (Ends (At online)) t (retry e))
      → At online past
      → Ensures (Ends (At online)) past (poll_chain retry)
  unfolding poll_chain Ensures on_end phase advance
  poll_chain-At retry past keep h = λ ended.
      Ensures-unless_ended (Ends (At online)) ((context_error, ended) ∷ past) ended _
        (λ e. rw h refl) (λ reply. chain_or_retry-At retry reply _ keep (rw h refl))

  pub await_chain-At :
      (rounds : ℕ) (past : Trace (Call Tx) CallAnswer)
      → At online past
      → Ensures (Ends (At online)) past (await_chain rounds)
  unfolding await_chain
  await_chain-At zero past h = poll_chain-At _ past (λ t e k. unfold Ensures in k) h
  await_chain-At (suc rounds) past h = poll_chain-At _ past (λ t e k. await_chain-At rounds t k) h

  check_capabilities-At :
      (past : Trace (Call Tx) CallAnswer)
      → At online past
      → Ensures (Ends (At online)) past check_capabilities
  unfolding check_capabilities check_node
  check_capabilities-At past h =
      Ensures-bind (At online) (At online) past (await_chain 99) _ (await_chain-At 99 past h)
        (λ t k. k)
        (λ t chain k.
          unfold Ensures on_end phase advance in
          Ensures-require (Ends (At online)) t (is_local_chain chain) unexpected_chain _ (λ e. k)
            (λ e info.
              Ensures-checked (Ends (At online)) ((node node_info, info) ∷ t) call_failed info _
                (λ x y. rw k refl)
                (λ hard_fork y reply.
                  Ensures-checked (Ends (At online))
                    ((node client_version, reply) ∷ (node node_info, info) ∷ t) call_failed reply _
                    (λ x y. rw k refl)
                    (λ version y.
                      Ensures-require (Ends (At online))
                        ((node client_version, reply) ∷ (node node_info, info) ∷ t)
                        (equal_fold hard_fork cancun && contains (to_lower version) anvil)
                        not_capable (λ u. done (ok chain)) (λ e. rw k refl) (λ e. rw k refl)))))

  -- Settled: the node was never started, or it has ended.
  abbrev pub IsSettled : Trace (Call Tx) CallAnswer → Type 0
  IsSettled t = (phase t ≡ absent) ⊎ (phase t ≡ stopped)

  connected_session-At :
      (work : ℤ → NodeProgram Tx Unit) (past : Trace (Call Tx) CallAnswer)
      → At online past
      → Ensures (Ends (At online)) past (connected_session work)
  unfolding connected_session
  connected_session-At work past h =
      Ensures-bind (At online) (At online) past check_capabilities _ (check_capabilities-At past h)
        (λ t k. k)
        (λ t chain k.
          Ensures-connected (At online) (λ t' c a k'. unfold phase advance in rw k' refl) t
            (work chain) k)

  node_session-At :
      (port : ℕ) (work : ℤ → NodeProgram Tx Unit) (past : Trace (Call Tx) CallAnswer)
      → At running past
      → Ensures (Ends (At running)) past (node_session port work)
  unfolding node_session Ensures on_end phase advance
  node_session-At port work past h = λ reply.
      Ensures-checked (Ends (At running)) ((dial port, reply) ∷ past) call_failed reply _
        (λ e y. rw (y, h) refl)
        (λ u y.
          Ensures-deferring (At online) (At running) ((dial port, reply) ∷ past)
            (connected_session work) (ask close_client)
            (connected_session-At work _ (rw (y, h) refl)) (λ t k closed. rw k refl))

  start_session-IsSettled :
      (port : ℕ) (work : ℤ → NodeProgram Tx Unit) (past : Trace (Call Tx) CallAnswer)
      → At absent past
      → Ensures (Ends IsSettled) past (start_session port work)
  unfolding start_session Ensures on_end phase advance
  start_session-IsSettled port work past h = λ process.
      Ensures-checked (Ends IsSettled) ((start_node port cancun, process) ∷ past) call_failed
        process _ (λ e y. inl (rw (y, h) refl))
        (λ u y.
          Ensures-deferring (At running) IsSettled ((start_node port cancun, process) ∷ past)
            (node_session port work) stop (node_session-At port work _ (rw (y, h) refl))
            (λ t k. Ensures-weaken (At stopped) IsSettled t stop (λ t' q. inr q) (stop-At t k)))

  owned_session-IsSettled :
      (work : ℤ → NodeProgram Tx Unit) (past : Trace (Call Tx) CallAnswer)
      → At absent past
      → Ensures (Ends IsSettled) past (owned_session work)
  unfolding owned_session Ensures on_end phase advance
  owned_session-IsSettled work past h = λ listener.
      Ensures-checked (Ends IsSettled) ((free_port, listener) ∷ past) call_failed listener _
        (λ e y. inl (rw h refl))
        (λ port y. start_session-IsSettled port work ((free_port, listener) ∷ past) (rw h refl))

  run-Ensures : (work : ℤ → NodeProgram Tx Unit) → Ensures (Ends IsSettled) [] (run work)
  unfolding run Ensures on_end phase advance
  run-Ensures work = λ output.
      let past = (anvil_version, output) ∷ [] in
      Ensures-checked (Ends IsSettled) past call_failed output _ (λ e y. inl refl)
        (λ version y.
          Ensures-require (Ends IsSettled) past (contains version supported_version)
            wrong_anvil_version (λ u. owned_session work) (λ e. inl refl)
            (λ e. owned_session-IsSettled work past refl))

  -- Whatever the world answers, and whatever is done with the connection, a run of `run` keeps to
  -- the order of the state machine, and at its end the node was never started or has ended: no
  -- path of errors or panics leaves it behind.
  pub run-IsSettled :
      (world : World (Call Tx) CallAnswer) (work : ℤ → NodeProgram Tx Unit)
      → IsSettled (exec world [] (run work)).0
  run-IsSettled world work = exec-Ensures world (Ends IsSettled) [] (run work) (run-Ensures work)
