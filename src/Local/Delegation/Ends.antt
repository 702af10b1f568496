-- ===== src/Local/Delegation/Ends.antt =====
-- How the runs of the delegation article end: the node that they start, and the wait for the
-- receipt.
use blog_solutions.Prelude.{
  arith, ◌≤◌, ◌+◌, ap, ◌<◌, ℕ, zero, suc, ◌≡◌, refl, [], ◌∷◌, inl, inr, ℤ, ok,
}
use blog_solutions.Local.Program.{done, Trace, World, exec, Ensures, on_end, exec-Ensures}
use blog_solutions.Local.Calls.{
  call_failed, capability_failed, layout_failed, unexpected_chain, not_prague, not_capable,
  wrong_anvil_version, ask, NodeProgram, Call, CallAnswer, node, node_info, client_version,
  anvil_version, current_directory, foundry_file, free_port, close_client, start_node, dial,
}
use blog_solutions.Local.Calls.{
  Reply, answer, failure, not_found, Receipt, NodeCall, NodeAnswer, pause, transaction_receipt,
  fail,
}
use blog_solutions.Local.Rules.{
  Ensures-checked, Ensures-require, Ends, Ensures-bind, Ensures-deferring, Ensures-weaken,
  Ensures-connected,
}
use blog_solutions.Local.Startup.{
  await_chain, stop, is_local_chain, contains, equal_fold, to_lower, supported_version, anvil,
}
use blog_solutions.Local.Lifecycle.{
  absent, running, online, stopped, advance, phase, At, IsSettled, stop-At, await_chain-At,
}
use blog_solutions.Local.Token.{trim_space}
use blog_solutions.Local.Delegation.{prague, mined_or_retry, wait_mined}
use blog_solutions.Local.Delegation.Owned.{
  check_prague, connected_prague, node_prague, start_prague, run_prague,
}

module _ {Tx : Type 0} where
  check_prague-At :
      (chain : ℤ) (past : Trace (Call Tx) CallAnswer)
      → At online past
      → Ensures (Ends (At online)) past (check_prague chain)
  unfolding check_prague Ensures on_end phase advance
  check_prague-At chain past h =
      Ensures-require (Ends (At online)) past (is_local_chain chain) unexpected_chain _ (λ e. h)
        λ e1 info.
          let t1 = (node node_info, info) ∷ past in
          Ensures-checked (Ends (At online)) t1 capability_failed info _ (λ x y. rw h refl)
            λ hard_fork y1.
              Ensures-require (Ends (At online)) t1 (equal_fold hard_fork prague) not_prague _
                (λ e. rw h refl)
                λ e2 reply.
                  let t2 = (node client_version, reply) ∷ t1 in
                  Ensures-checked (Ends (At online)) t2 call_failed reply _ (λ x y. rw h refl)
                    λ version y2.
                      Ensures-require (Ends (At online)) t2 (contains (to_lower version) anvil)
                        not_capable (λ u. done (ok chain)) (λ e. rw h refl) (λ e. rw h refl)

  -- The calls of the client leave the node as it is.
  still_online :
      (t : Trace (Call Tx) CallAnswer) (c : NodeCall Tx) (a : NodeAnswer c)
      → At online t
      → At online ((node c, a) ∷ t)
  unfolding phase advance
  still_online t c a k = rw k refl

  connected_prague-At :
      (work : ℤ → NodeProgram Tx Unit) (past : Trace (Call Tx) CallAnswer)
      → At online past
      → Ensures (Ends (At online)) past (connected_prague work)
  unfolding connected_prague
  connected_prague-At work past h =
      Ensures-bind (At online) (At online) past (await_chain 99) _ (await_chain-At 99 past h)
        (λ t k. k)
        λ t chain k.
          Ensures-bind (At online) (At online) t (check_prague chain) _ (check_prague-At chain t k)
            (λ u l. l) λ u c l. Ensures-connected (At online) still_online u (work c) l

  node_prague-At :
      (port : ℕ) (work : ℤ → NodeProgram Tx Unit) (past : Trace (Call Tx) CallAnswer)
      → At running past
      → Ensures (Ends (At running)) past (node_prague port work)
  unfolding node_prague Ensures on_end phase advance
  node_prague-At port work past h = λ reply.
      Ensures-checked (Ends (At running)) ((dial port, reply) ∷ past) call_failed reply _
        (λ e y. rw (y, h) refl)
        λ u y.
          Ensures-deferring (At online) (At running) ((dial port, reply) ∷ past)
            (connected_prague work) (ask close_client) (connected_prague-At work _ (rw (y, h) refl))
            (λ t k closed. rw k refl)

  start_prague-IsSettled :
      (port : ℕ) (work : ℤ → NodeProgram Tx Unit) (past : Trace (Call Tx) CallAnswer)
      → At absent past
      → Ensures (Ends IsSettled) past (start_prague port work)
  unfolding start_prague Ensures on_end phase advance
  start_prague-IsSettled port work past h = λ process.
      Ensures-checked (Ends IsSettled) ((start_node port prague, process) ∷ past) call_failed
        process _ (λ e y. inl (rw (y, h) refl))
        λ u y.
          Ensures-deferring (At running) IsSettled ((start_node port prague, process) ∷ past)
            (node_prague port work) stop (node_prague-At port work _ (rw (y, h) refl))
            (λ t k. Ensures-weaken (At stopped) IsSettled t stop (λ t' q. inr q) (stop-At t k))

  run_prague-Ensures :
      (work : ℤ → NodeProgram Tx Unit) → Ensures (Ends IsSettled) [] (run_prague work)
  unfolding run_prague Ensures on_end phase advance
  run_prague-Ensures work = λ output.
      let t1 = (anvil_version, output) ∷ [] in
      Ensures-checked (Ends IsSettled) t1 call_failed output _ (λ e y. inl refl)
        λ version y1.
          Ensures-require (Ends IsSettled) t1 (contains (trim_space version) supported_version)
            wrong_anvil_version _ (λ e. inl refl)
            λ e1 directory.
              let t2 = (current_directory, directory) ∷ t1 in
              Ensures-checked (Ends IsSettled) t2 call_failed directory _ (λ e y. inl refl)
                λ dir y2 stat.
                  let t3 = (foundry_file, stat) ∷ t2 in
                  Ensures-checked (Ends IsSettled) t3 layout_failed stat _ (λ e y. inl refl)
                    λ found y3 listener.
                      let t4 = (free_port, listener) ∷ t3 in
                      Ensures-checked (Ends IsSettled) t4 call_failed listener _ (λ e y. inl refl)
                        (λ port y4. start_prague-IsSettled port work t4 refl)

  -- Whatever the world answers, and whatever is done with the connection, a run of the delegation
  -- article keeps to the order of the state machine, and at its end the node was never started or
  -- has ended.
  pub run_prague-IsSettled :
      (world : World (Call Tx) CallAnswer) (work : ℤ → NodeProgram Tx Unit)
      → IsSettled (exec world [] (run_prague work)).0
  run_prague-IsSettled world work =
      exec-Ensures world (Ends IsSettled) [] (run_prague work) (run_prague-Ensures work)

module _ {Tx : Type 0} (world : World (NodeCall Tx) NodeAnswer) (hash : ℕ) where
  -- What a run of the wait has seen when it has asked `n` times: no receipt, and a pause after
  -- each.
  unfoldable pub after_misses : ℕ → Trace (NodeCall Tx) NodeAnswer
  after_misses zero = []
  after_misses (suc n) =
      (pause 50, world ((transaction_receipt hash, failure not_found) ∷ after_misses n) (pause 50))
      ∷ (transaction_receipt hash, failure not_found)
      ∷ after_misses n

  -- What follows a round without a receipt.
  unfoldable next_round : ℕ → NodeProgram Tx Receipt
  next_round zero = fail (call_failed not_found)
  next_round (suc rounds) = wait_mined rounds hash

  replied :
      (rounds n : ℕ) (reply : Reply Receipt)
      → world (after_misses n) (transaction_receipt hash) ≡ reply
      → (exec world (after_misses n) (wait_mined rounds hash)).1
        ≡ (exec world
            ((transaction_receipt hash, reply) ∷ after_misses n)
            (mined_or_retry (next_round rounds) reply)).1
  unfolding wait_mined exec on_end next_round
  replied zero n reply e =
      ap
        (λ (r : Reply Receipt).
          (exec world ((transaction_receipt hash, r) ∷ after_misses n)
            (mined_or_retry (next_round zero) r)).1)
        e
  replied (suc rounds) n reply e =
      ap
        (λ (r : Reply Receipt).
          (exec world ((transaction_receipt hash, r) ∷ after_misses n)
            (mined_or_retry (next_round (suc rounds)) r)).1)
        e

  missed_once :
      (rounds n : ℕ)
      → world (after_misses n) (transaction_receipt hash) ≡ failure not_found
      → (exec world (after_misses n) (wait_mined (suc rounds) hash)).1
        ≡ (exec world (after_misses (suc n)) (wait_mined rounds hash)).1
  missed_once rounds n e =
      rw (replied (suc rounds) n (failure not_found) e)
        (unfold mined_or_retry exec on_end after_misses next_round in refl)

  found_at :
      (rounds n : ℕ) (receipt : Receipt)
      → world (after_misses n) (transaction_receipt hash) ≡ answer receipt
      → (exec world (after_misses n) (wait_mined rounds hash)).1 ≡ ok receipt
  found_at rounds n receipt e =
      rw (replied rounds n (answer receipt) e) (unfold mined_or_retry exec in refl)

  found_from :
      (k n rounds : ℕ) (receipt : Receipt)
      → ((i : ℕ)
          → i < k + n
          → world (after_misses i) (transaction_receipt hash) ≡ failure not_found)
      → world (after_misses (k + n)) (transaction_receipt hash) ≡ answer receipt
      → k ≤ rounds
      → (exec world (after_misses n) (wait_mined rounds hash)).1 ≡ ok receipt
  found_from zero n rounds receipt m e h =
      let z : 0 + n ≡ n = omega arith in found_at rounds n receipt (rw z at e)
  found_from (suc k) n zero receipt m e h = absurd (omega (arith, h))
  found_from (suc k) n (suc rounds) receipt m e h =
      let shift : k + suc n ≡ suc k + n = omega arith in
      rw (missed_once rounds n (m n (omega arith))) (
        found_from k (suc n) rounds receipt (λ i l. m i (omega (arith, l))) (rw shift e)
          (omega (arith, h)))

  -- A node that knows of no receipt at first and then gives one is waited for: the wait returns the
  -- receipt when the node gives it to one of the 100 questions.
  pub wait_mined_returns :
      (k : ℕ) (receipt : Receipt)
      → k < 100
      → ((i : ℕ) → i < k → world (after_misses i) (transaction_receipt hash) ≡ failure not_found)
      → world (after_misses k) (transaction_receipt hash) ≡ answer receipt
      → (exec world [] (wait_mined 99 hash)).1 ≡ ok receipt
  wait_mined_returns k receipt h m e =
      let z : k + 0 ≡ k = omega arith in
      unfold after_misses in
      found_from k 0 99 receipt (λ i l. m i (omega (arith, l))) (rw z e) (omega (arith, h))
