-- ===== src/Local/Delegation/Whole.antt =====
-- The whole program of the delegation article.
use blog_solutions.Prelude.{inr, ℤ, ◌≡◌, [], ◌∷◌, ok}
use blog_solutions.Local.Program.{Trace, World, exec, Ensures, on_end, done}
use blog_solutions.Local.Calls.{
  NodeCall, NodeAnswer, Call, CallAnswer, NodeProgram, ask, call_failed, capability_failed,
  layout_failed, unexpected_chain, not_prague, not_capable, wrong_anvil_version, anvil_version,
  close_client, node, node_info, client_version,
}
use blog_solutions.Local.Ethereum.{Ethereum}
use blog_solutions.Local.Success.{
  OnSuccess, OnSuccess-bind, OnSuccess-checked, OnSuccess-require, OnSuccess-exec,
}
use blog_solutions.Local.Startup.{
  await_chain, stop, is_local_chain, contains, equal_fold, to_lower, supported_version, anvil,
}
use blog_solutions.Local.Named.{HasNamed, HasNamedLocal, await_chain-HasNamed}
use blog_solutions.Local.Sessions.{Reached, Reached-Extends, connected-Reached, OnSuccess-deferring}
use blog_solutions.Local.Token.{trim_space}
use blog_solutions.Local.Delegation.{prague, Authorizer}
use blog_solutions.Local.Delegation.Native.{delegate}
use blog_solutions.Local.Delegation.Owned.{
  check_prague, connected_prague, node_prague, start_prague, run_prague, run_set_code,
}
use blog_solutions.Local.Delegation.Delegated.{IsDelegated, delegate-IsDelegated}

module _ {Tx : Type 0} where
  check_prague_local :
      (chain : ℤ) (past : Trace (Call Tx) CallAnswer)
      → HasNamed past chain
      → Ensures (OnSuccess HasNamedLocal) past (check_prague chain)
  unfolding check_prague Ensures on_end
  check_prague_local chain past n =
      let R : Trace (Call Tx) CallAnswer → ℤ → Type 0 = HasNamedLocal in
      OnSuccess-require R past (is_local_chain chain) unexpected_chain _ λ known info.
        OnSuccess-checked R _ capability_failed info _ λ hard_fork e1.
          OnSuccess-require R ((node node_info, info) ∷ past) (equal_fold hard_fork prague)
            not_prague _
            λ e2 reply. OnSuccess-checked R _ call_failed reply _ λ version e3.
              OnSuccess-require R ((node client_version, reply) ∷ (node node_info, info) ∷ past)
                (contains (to_lower version) anvil) not_capable (λ u. done (ok chain))
                λ e4. (inr (inr n), known)

module _ {Tx : Type 0} (R : ℤ → Trace (NodeCall Tx) NodeAnswer → Type 0)
    (work : ℤ → NodeProgram Tx Unit)
    (works : (chain : ℤ) → Ensures (OnSuccess (λ t u. R chain t)) [] (work chain)) where
  connected_prague-Reached :
      (past : Trace (Call Tx) CallAnswer)
      → Ensures (OnSuccess (λ t u. Reached R t)) past (connected_prague work)
  unfolding connected_prague
  connected_prague-Reached past =
      let S : Trace (Call Tx) CallAnswer → Unit → Type 0 = λ t u. Reached R t in
      OnSuccess-bind HasNamed S past (await_chain 99) _ (await_chain-HasNamed 99 past)
        λ t chain w n.
          OnSuccess-bind HasNamedLocal S t (check_prague chain) _ (check_prague_local chain t n)
            λ t2 c w2 l. connected-Reached R work works c t2 l

  pub run_prague-Reached : Ensures (OnSuccess (λ t u. Reached R t)) [] (run_prague work)
  unfolding run_prague start_prague node_prague Ensures on_end
  run_prague-Reached = λ output.
      let S : Trace (Call Tx) CallAnswer → Unit → Type 0 = λ t u. Reached R t in
      OnSuccess-checked S _ call_failed output _ λ version e1.
        OnSuccess-require S ((anvil_version, output) ∷ [])
          (contains (trim_space version) supported_version) wrong_anvil_version _
          λ e2 directory. OnSuccess-checked S _ call_failed directory _ λ dir e3 stat.
            OnSuccess-checked S _ layout_failed stat _ λ found e4 listener.
              OnSuccess-checked S _ call_failed listener _ λ port e5 process.
                OnSuccess-checked S _ call_failed process _ λ started e6.
                  OnSuccess-deferring S (λ t u a w r. Reached-Extends R t u a w r) _
                    (node_prague port work) stop
                    (λ reply. OnSuccess-checked S _ call_failed reply _ λ client e7.
                      OnSuccess-deferring S (λ t u a w r. Reached-Extends R t u a w r) _
                        (connected_prague work) (ask close_client) (connected_prague-Reached _))

-- Whatever the world answers, when the program of the delegation article ends without an error then
-- the node has named the local chain and, by the calls that the program has made behind that: the
-- node runs what forge has built of both contracts; before the sending the accounts of keys 1 and 2
-- had nonce 0 and no code; each key has signed an authorization for the implementation, with nonces
-- 0 and 1; the transaction sent, with nonce 0, was signed with key 2, calls the invoker with both
-- addresses and carries both authorizations in this order; its receipt has status 1 and type 4 and
-- its mined transaction those nonces, that implementation and the chain 31337; behind the sending
-- the node has shown the designation of the implementation as the code of both accounts, with the
-- nonces 1 and 2; the logs are the five events of the calls; and the last of these calls made a
-- block and found both designations in place.
pub run_set_code_delegates :
    {Tx Key Auth : Type 0} (lib : Ethereum Tx Key) (authorizer : Authorizer Tx Key Auth)
    (world : World (Call Tx) CallAnswer)
    → (exec world [] (run_set_code lib authorizer)).1 ≡ ok tt
    → Reached (IsDelegated lib authorizer) (exec world [] (run_set_code lib authorizer)).0
unfolding run_set_code
run_set_code_delegates {Tx} lib authorizer world e =
    OnSuccess-exec (λ t u. Reached (IsDelegated lib authorizer) t) world [] _ tt
      (run_prague-Reached (IsDelegated lib authorizer) (delegate lib authorizer)
        (λ chain. delegate-IsDelegated lib authorizer chain []))
      e
