-- ===== src/Local/Guard/Checks.antt =====
-- What the checks of `run` establish.
use blog_solutions.Prelude.{
  ℕ, zero, suc, ◌≡◌, refl, ◌∷◌, inl, ℤ, ◌&&◌, Bool, true, false, Outcome, ok, err, panic,
  out_of_fuel,
}
use blog_solutions.Local.Program.{done, Trace, Ensures, on_end, next_step, Ensures-on_end}
use blog_solutions.Local.Calls.{
  CallError, Reply, answer, failure, Failure, call_failed, unexpected_chain, not_capable, Session,
  Call, CallAnswer, node, chain_id, node_info, client_version, context_error, sleep,
}
use blog_solutions.Local.Rules.{Ensures-checked, Ensures-require, Ensures-unless_ended}
use blog_solutions.Local.Startup.{
  chain_or_retry, poll_chain, await_chain, check_node, check_capabilities, contains, equal_fold,
  to_lower, is_local_chain, cancun, anvil,
}
use blog_solutions.Local.Guard.{is_mutating, Vetted, IsNamed, IsGuarded, Started, Started-cons}

and-left : (a b : Bool) → (a && b) ≡ true → a ≡ true
and-left true b e = refl
and-left false b e = e

and-right : (a b : Bool) → (a && b) ≡ true → b ≡ true
and-right true b e = e
and-right false b e = cc

module _ {Tx : Type 0} where
  -- What is known once the node has named its chain.
  Named : Trace (Call Tx) CallAnswer → Outcome Failure ℤ → Type 0
  Named t (ok chain) = IsNamed chain t
  Named t (err e) = Started t
  Named t (panic p) = Started t
  Named t out_of_fuel = Started t

  chain_or_retry-Named :
      (retry : CallError → Session Tx ℤ) (reply : Reply ℤ) (past : Trace (Call Tx) CallAnswer)
      → ((t : Trace (Call Tx) CallAnswer) (e : CallError) → Started t → Ensures Named t (retry e))
      → Started past
      → Ensures Named ((node chain_id, reply) ∷ past) (chain_or_retry retry reply)
  unfolding chain_or_retry Ensures on_end IsGuarded is_mutating Named
  chain_or_retry-Named retry (answer chain) past keep h = (
    Started-cons _ past ((λ e. cc), h.guarded) h,
    h.version,
    h.port,
    inl (refl, h.ordered),
    h.is_supported,
  )
  chain_or_retry-Named retry (failure e) past keep h = λ slept. keep _ e (
      Started-cons (sleep 50, slept) ((node chain_id, failure e) ∷ past) ((λ e. cc), h.guarded)
        (Started-cons _ past ((λ e. cc), h.guarded) h))

  poll_chain-Named :
      (retry : CallError → Session Tx ℤ) (past : Trace (Call Tx) CallAnswer)
      → ((t : Trace (Call Tx) CallAnswer) (e : CallError) → Started t → Ensures Named t (retry e))
      → Started past
      → Ensures Named past (poll_chain retry)
  unfolding poll_chain Ensures on_end IsGuarded Named
  poll_chain-Named retry past keep h = λ ended.
      let h' = Started-cons (context_error, ended) past h.guarded h in
      Ensures-unless_ended Named ((context_error, ended) ∷ past) ended _ (λ e. h')
        (λ reply. chain_or_retry-Named retry reply _ keep h')

  await_chain-Named :
      (rounds : ℕ) (past : Trace (Call Tx) CallAnswer)
      → Started past
      → Ensures Named past (await_chain rounds)
  unfolding await_chain
  await_chain-Named zero past h = poll_chain-Named _ past (λ t e k. unfold Ensures Named in k) h
  await_chain-Named (suc rounds) past h =
      poll_chain-Named _ past (λ t e k. await_chain-Named rounds t k) h

  -- What is known once the checks are made.
  unfoldable pub Checked : Trace (Call Tx) CallAnswer → Outcome Failure ℤ → Type 0
  Checked t (ok chain) = Vetted t × IsGuarded t
  Checked t (err e) = IsGuarded t
  Checked t (panic p) = IsGuarded t
  Checked t out_of_fuel = IsGuarded t

  check_node-Checked :
      (chain : ℤ) (past : Trace (Call Tx) CallAnswer)
      → IsNamed chain past
      → Ensures Checked past (check_node chain)
  unfolding check_node Ensures on_end Checked
  check_node-Checked chain past (h, supported, port, seen, v) =
      Ensures-require Checked past (is_local_chain chain) unexpected_chain _ (λ e. h.guarded)
        (λ known info.
          let h' =
            Started-cons (node node_info, info) past
              (unfold IsGuarded is_mutating in ((λ e. cc), h.guarded)) h in
          Ensures-checked Checked ((node node_info, info) ∷ past) call_failed info _
            (λ e y. h'.guarded)
            (λ hard_fork y reply.
              let t = (node client_version, reply) ∷ (node node_info, info) ∷ past in
              let h'' =
                Started-cons (node client_version, reply) ((node node_info, info) ∷ past)
                  (unfold IsGuarded is_mutating in ((λ e. cc), h'.guarded)) h' in
              Ensures-checked Checked t call_failed reply _ (λ e z. h''.guarded)
                (λ version z.
                  Ensures-require Checked t
                    (equal_fold hard_fork cancun && contains (to_lower version) anvil) not_capable
                    (λ u. done (ok chain)) (λ e. h''.guarded)
                    (λ e. (
                      record {
                        version = supported;
                        port = port;
                        chain = chain;
                        hard_fork = hard_fork;
                        client = version;
                        ordered = inl (rw z refl, inl (rw y refl, seen));
                        is_supported = v;
                        is_local = known;
                        is_cancun = and-left _ _ e;
                        is_anvil = and-right _ _ e;
                      },
                      h''.guarded,
                    )))))

  Named-Checked :
      (t : Trace (Call Tx) CallAnswer) (o : Outcome Failure ℤ)
      → Named t o
      → Ensures Checked t (next_step check_node o)
  unfolding Named
  Named-Checked t (ok chain) r = check_node-Checked chain t r
  Named-Checked t (err e) r = unfold Ensures Checked in r.guarded
  Named-Checked t (panic p) r = unfold Ensures Checked in r.guarded
  Named-Checked t out_of_fuel r = unfold Ensures Checked in r.guarded

  pub check_capabilities-Checked :
      (past : Trace (Call Tx) CallAnswer) → Started past → Ensures Checked past check_capabilities
  unfolding check_capabilities
  check_capabilities-Checked past h =
      Ensures-on_end Named Checked past (await_chain 99) (next_step check_node)
        (await_chain-Named 99 past h) Named-Checked
