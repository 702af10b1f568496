-- ===== src/Local/Transact/Waiting.antt =====
-- `waitReceipt` returns.
use blog_solutions.Prelude.{
  ℕ, zero, suc, ◌+◌, ◌≤◌, ◌<◌, ◌≡◌, ◌≢◌, refl, [], ◌∷◌, Option, none, some, Returns, arith,
}
use blog_solutions.Local.Program.{Trace, World, exec, on_end, ◌>>=◌}
use blog_solutions.Local.Calls.{
  CallError, not_found, other_error, Reply, answer, failure, Receipt, NodeCall, NodeAnswer,
  NodeProgram, wait_tick, transaction_receipt, unless_ended,
}
use blog_solutions.Local.Transact.{receipt_or_wait, wait_receipt}

module _ {Tx : Type 0} where
  abbrev is_miss : (c : NodeCall Tx) → NodeAnswer c → ℕ
  is_miss (transaction_receipt hash) (failure not_found) = 1
  is_miss _ _ = 0

  -- The polls that have found no receipt.
  unfoldable pub misses : Trace (NodeCall Tx) NodeAnswer → ℕ
  misses [] = 0
  misses ((c, a) ∷ past) = is_miss c a + misses past

module _ {Tx : Type 0} (hash : ℕ) where
  after_tick :
      (past : Trace (NodeCall Tx) NodeAnswer) (ended : Option CallError)
      → misses ((wait_tick, ended) ∷ (transaction_receipt hash, failure not_found) ∷ past)
        ≡ suc (misses past)
  unfolding misses
  after_tick past ended = omega arith

module _ {Tx : Type 0} (world : World (NodeCall Tx) NodeAnswer) (hash n : ℕ)
    (answers : (past : Trace (NodeCall Tx) NodeAnswer)
      → n ≤ misses past
      → world past (transaction_receipt hash) ≢ failure not_found) where
  -- After a miss: the context is done, or the rest of the loop goes on.
  tick-Returns :
      (retry : NodeProgram Tx Receipt) (ended : Option CallError)
      (past : Trace (NodeCall Tx) NodeAnswer)
      → Returns (exec world past retry).1
      → Returns (exec world past (unless_ended ended >>= λ u. retry)).1
  unfolding exec on_end
  tick-Returns retry none past h = h
  tick-Returns retry (some e) past h = tt

  reply-Returns :
      (k : ℕ) (past : Trace (NodeCall Tx) NodeAnswer) (reply : Reply Receipt)
      → world past (transaction_receipt hash) ≡ reply
      → n ≤ misses past + k
      → ((t : Trace (NodeCall Tx) NodeAnswer)
          → misses t ≡ suc (misses past)
          → 0 < k
          → Returns (exec world t (wait_receipt k hash)).1)
      → Returns
          (exec world
            ((transaction_receipt hash, reply) ∷ past)
            (receipt_or_wait (wait_receipt k hash) reply)).1
  unfolding receipt_or_wait on_end exec
  reply-Returns k past (answer r) e h rest = tt
  reply-Returns k past (failure (other_error x)) e h rest = tt
  reply-Returns zero past (failure not_found) e h rest =
      elim (answers past (omega (arith, h)) e) [ ]
  reply-Returns (suc k) past (failure not_found) e h rest =
      let missed = (transaction_receipt hash, failure not_found) ∷ past in
      let ticked = (wait_tick, world missed wait_tick) ∷ missed in
      tick-Returns (wait_receipt (suc k) hash) (world missed wait_tick) ticked
        (rest ticked (after_tick hash past (world missed wait_tick)) (omega arith))

  wait_receipt_from :
      (k : ℕ) (past : Trace (NodeCall Tx) NodeAnswer)
      → n ≤ misses past + k
      → Returns (exec world past (wait_receipt (suc k) hash)).1
  unfolding wait_receipt exec on_end
  wait_receipt_from zero past h = reply-Returns zero past _ refl h (λ t e p. elim p [ ])
  wait_receipt_from (suc k) past h =
      reply-Returns (suc k) past _ refl h (λ t e p. wait_receipt_from k t (omega (arith, h, e)))

  -- A node that has a receipt, or another error, once it has been asked often enough, ends the
  -- wait: one more poll than it misses is enough.
  pub wait_receipt-Returns : Returns (exec world [] (wait_receipt (suc n) hash)).1
  wait_receipt-Returns = wait_receipt_from n [] (omega arith)
