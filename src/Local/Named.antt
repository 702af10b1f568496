-- ===== src/Local/Named.antt =====
-- What the node has said of its chain when the checks of `run` are passed.
use blog_solutions.Prelude.{ℕ, zero, suc, ℤ, ◌≡◌, refl, ◌∷◌, inl, inr, true, ok, ◌&&◌}
use blog_solutions.Local.Program.{Trace, Ensures, Happened, on_end, done}
use blog_solutions.Local.Calls.{
  CallError, Reply, answer, failure, call_failed, unexpected_chain, not_capable, Session, Call,
  CallAnswer, node, chain_id, node_info, client_version, context_error,
}
use blog_solutions.Local.Rules.{Ensures-unless_ended}
use blog_solutions.Local.Success.{OnSuccess, OnSuccess-bind, OnSuccess-checked, OnSuccess-require}
use blog_solutions.Local.Startup.{
  is_local_chain, contains, equal_fold, to_lower, cancun, anvil, chain_or_retry, poll_chain,
  await_chain, check_node, check_capabilities,
}

module _ {Tx : Type 0} where
  -- The node has named the chain.
  abbrev pub HasNamed : Trace (Call Tx) CallAnswer → ℤ → Type 0
  HasNamed t chain = Happened (node chain_id, answer chain) t

  -- It is the local one.
  abbrev pub HasNamedLocal : Trace (Call Tx) CallAnswer → ℤ → Type 0
  HasNamedLocal t chain = HasNamed t chain × (is_local_chain chain ≡ true)

  chain_or_retry-HasNamed :
      (retry : CallError → Session Tx ℤ) (reply : Reply ℤ) (past : Trace (Call Tx) CallAnswer)
      → ((t : Trace (Call Tx) CallAnswer) (e : CallError)
          → Ensures (OnSuccess HasNamed) t (retry e))
      → Ensures (OnSuccess HasNamed) ((node chain_id, reply) ∷ past) (chain_or_retry retry reply)
  unfolding chain_or_retry Ensures on_end
  chain_or_retry-HasNamed retry (answer chain) past keep = inl refl
  chain_or_retry-HasNamed retry (failure e) past keep = λ slept. keep _ e

  poll_chain-HasNamed :
      (retry : CallError → Session Tx ℤ) (past : Trace (Call Tx) CallAnswer)
      → ((t : Trace (Call Tx) CallAnswer) (e : CallError)
          → Ensures (OnSuccess HasNamed) t (retry e))
      → Ensures (OnSuccess HasNamed) past (poll_chain retry)
  unfolding poll_chain Ensures on_end
  poll_chain-HasNamed retry past keep = λ ended.
      Ensures-unless_ended (OnSuccess HasNamed) ((context_error, ended) ∷ past) ended _ (λ e. tt)
        (λ reply. chain_or_retry-HasNamed retry reply _ keep)

  pub await_chain-HasNamed :
      (rounds : ℕ) (past : Trace (Call Tx) CallAnswer)
      → Ensures (OnSuccess HasNamed) past (await_chain rounds)
  unfolding await_chain
  await_chain-HasNamed zero past = poll_chain-HasNamed _ past (λ t e. unfold Ensures in tt)
  await_chain-HasNamed (suc rounds) past =
      poll_chain-HasNamed _ past (λ t e. await_chain-HasNamed rounds t)

  -- The checks behind it keep the chain that the node has named.
  pub check_node-HasNamedLocal :
      (chain : ℤ) (past : Trace (Call Tx) CallAnswer)
      → HasNamed past chain
      → Ensures (OnSuccess HasNamedLocal) past (check_node chain)
  unfolding check_node Ensures on_end
  check_node-HasNamedLocal chain past n =
      OnSuccess-require HasNamedLocal past (is_local_chain chain) unexpected_chain _ λ known info.
        OnSuccess-checked HasNamedLocal _ call_failed info _ λ hard_fork y reply.
          OnSuccess-checked HasNamedLocal _ call_failed reply _ λ version z.
            OnSuccess-require HasNamedLocal
              ((node client_version, reply) ∷ (node node_info, info) ∷ past)
              (equal_fold hard_fork cancun && contains (to_lower version) anvil) not_capable
              (λ u. done (ok chain)) λ e. (inr (inr n), known)

  pub check_capabilities-HasNamedLocal :
      (past : Trace (Call Tx) CallAnswer)
      → Ensures (OnSuccess HasNamedLocal) past check_capabilities
  unfolding check_capabilities
  check_capabilities-HasNamedLocal past =
      OnSuccess-bind HasNamed HasNamedLocal past (await_chain 99) check_node
        (await_chain-HasNamed 99 past) (λ t chain w n. check_node-HasNamedLocal chain t n)
