-- ===== src/Local/Transact/Once.antt =====
-- `transact` sends once.
use blog_solutions.Prelude.{
  ok, ℕ, zero, suc, ◌*◌, ◌^◌, ◌≤◌, ◌≡◌, refl, ap, [], ◌∷◌, ℤ, pos, Bool, true, false, arith,
}
use blog_solutions.Local.Program.{done, Trace, World, exec, Ensures, on_end, exec-Ensures}
use blog_solutions.Local.Calls.{
  Reply, answer, failure, not_found, other_error, Receipt, Failure, call_failed, submission_failed,
  recovery_mismatch, receipt_mismatch, fields_mismatch, nonce_not_advanced, value_mismatch,
  price_exceeds_cap, NodeCall, NodeAnswer, NodeProgram, wait_tick, set_balance, pending_nonce_at,
  balance_at, send_transaction, transaction_receipt, transaction_by_hash, suggest_gas_price,
  require,
}
use blog_solutions.Local.Ethereum.{Ethereum}
use blog_solutions.Local.Rules.{
  Ends, Ensures-checked, Ensures-require, Ensures-unless_ended, Ensures-bind,
}
use blog_solutions.Local.Transact.{
  Kind, legacy, access, dynamic, blob, other_kind, Account, Envelope, receipt_or_wait, wait_receipt,
  prepare, recipient, sign_kind, check_envelope, is_successful, is_as_signed, is_advanced,
  is_received, is_price_within_cap, check_effects, submit, transact,
}

module _ {Tx : Type 0} where
  -- The submissions of the trace.
  unfoldable pub sends : Trace (NodeCall Tx) NodeAnswer → ℕ
  sends [] = 0
  sends ((send_transaction tx, a) ∷ past) = suc (sends past)
  sends (e ∷ past) = sends past

  abbrev Sent : ℕ → Trace (NodeCall Tx) NodeAnswer → Type 0
  Sent n t = sends t ≡ n

  require-Sent :
      (n : ℕ) (past : Trace (NodeCall Tx) NodeAnswer) (test : Bool) (e : Failure)
      → Sent n past
      → Ensures (Ends (Sent n)) past (require test e)
  unfolding Ensures
  require-Sent n past true e h = h
  require-Sent n past false e h = h

  receipt_or_wait-Sent :
      (n hash : ℕ) (retry : NodeProgram Tx Receipt) (reply : Reply Receipt)
      (past : Trace (NodeCall Tx) NodeAnswer)
      → ((t : Trace (NodeCall Tx) NodeAnswer) → Sent n t → Ensures (Ends (Sent n)) t retry)
      → Sent n past
      → Ensures
          (Ends (Sent n))
          ((transaction_receipt hash, reply) ∷ past)
          (receipt_or_wait retry reply)
  unfolding receipt_or_wait Ensures on_end sends
  receipt_or_wait-Sent n hash retry (answer receipt) past k h = h
  receipt_or_wait-Sent n hash retry (failure not_found) past k h = λ ended.
      Ensures-unless_ended (Ends (Sent n))
        ((wait_tick, ended) ∷ (transaction_receipt hash, failure not_found) ∷ past) ended
        (λ u. retry) (λ e. h) (k _ h)
  receipt_or_wait-Sent n hash retry (failure (other_error e)) past k h = h

  wait_receipt-Sent :
      (n polls hash : ℕ) (past : Trace (NodeCall Tx) NodeAnswer)
      → Sent n past
      → Ensures (Ends (Sent n)) past (wait_receipt polls hash)
  unfolding wait_receipt Ensures on_end
  wait_receipt-Sent n zero hash past h = h
  wait_receipt-Sent n (suc polls) hash past h = λ reply.
      receipt_or_wait-Sent n hash (wait_receipt polls hash) reply past
        (wait_receipt-Sent n polls hash) h

module _ {Tx Key : Type 0} (lib : Ethereum Tx Key) where
  prepare-Sent :
      (n key_number : ℕ) (past : Trace (NodeCall Tx) NodeAnswer)
      → Sent n past
      → Ensures (Ends (Sent n)) past (prepare lib key_number)
  unfolding prepare Ensures on_end sends
  prepare-Sent n key_number past h =
      Ensures-checked (Ends (Sent n)) past call_failed (lib.key_of key_number) _ (λ e y. h)
        λ key y funded.
          let t1 = (set_balance (lib.address_of key) (pos (100 * 10 ^ 18)), funded) ∷ past in
          Ensures-checked (Ends (Sent n)) t1 call_failed funded _ (λ e z. h)
            λ u z reply.
              Ensures-checked (Ends (Sent n)) ((pending_nonce_at (lib.address_of key), reply) ∷ t1)
                call_failed reply _ (λ e w. h) (λ nonce w. h)

  sign_kind-Sent :
      (n : ℕ) (chain : ℤ) (account : Account Key) (kind : Kind)
      (past : Trace (NodeCall Tx) NodeAnswer)
      → Sent n past
      → Ensures (Ends (Sent n)) past (sign_kind lib chain account kind)
  unfolding sign_kind Ensures on_end sends
  sign_kind-Sent n chain account legacy past h = λ reply.
      Ensures-checked (Ends (Sent n)) ((suggest_gas_price, reply) ∷ past) call_failed reply _
        (λ e y. h)
        λ price y.
          Ensures-checked (Ends (Sent n)) ((suggest_gas_price, reply) ∷ past) call_failed
            (lib.sign_legacy chain account.key (record {
              nonce = account.nonce;
              gas_price = price;
              gas = 21000;
              to = recipient;
              value = pos 10000000000000000;
            }))
            _ (λ e z. h) (λ signed z. h)
  sign_kind-Sent n chain account access past h = h
  sign_kind-Sent n chain account dynamic past h = h
  sign_kind-Sent n chain account blob past h = h
  sign_kind-Sent n chain account other_kind past h = h

  check_envelope-Sent :
      (n : ℕ) (chain : ℤ) (account : Account Key) (envelope : Envelope Tx)
      (past : Trace (NodeCall Tx) NodeAnswer)
      → Sent n past
      → Ensures (Ends (Sent n)) past (check_envelope lib chain account envelope)
  unfolding check_envelope
  check_envelope-Sent n chain account envelope past h =
      Ensures-checked (Ends (Sent n)) past call_failed (lib.marshal_binary envelope.signed) _
        (λ e y. h)
        λ raw y.
          Ensures-checked (Ends (Sent n)) past call_failed (lib.unmarshal_binary raw) _ (λ e z. h)
            λ decoded z. require-Sent n past _ recovery_mismatch h

  check_effects-Sent :
      (n : ℕ) (account : Account Key) (envelope : Envelope Tx) (before : ℤ) (receipt : Receipt)
      (past : Trace (NodeCall Tx) NodeAnswer)
      → Sent n past
      → Ensures (Ends (Sent n)) past (check_effects lib account envelope before receipt)
  unfolding check_effects Ensures on_end sends
  check_effects-Sent n account envelope before receipt past h =
      Ensures-require (Ends (Sent n)) past (is_successful lib envelope.signed receipt)
        receipt_mismatch _ (λ e. h)
        λ e1 observed.
          let t1 = (transaction_by_hash (lib.hash envelope.signed), observed) ∷ past in
          Ensures-checked (Ends (Sent n)) t1 call_failed observed _ (λ e y. h)
            λ mined e2.
              Ensures-require (Ends (Sent n)) t1 (is_as_signed lib envelope mined) fields_mismatch _
                (λ e. h)
                λ e3 reply.
                  let t2 = (pending_nonce_at account.from, reply) ∷ t1 in
                  Ensures-require (Ends (Sent n)) t2 (is_advanced account.nonce reply)
                    nonce_not_advanced _ (λ e. h)
                    λ e4 balance.
                      let t3 = (balance_at envelope.to, balance) ∷ t2 in
                      Ensures-checked (Ends (Sent n)) t3 call_failed balance _ (λ e y. h)
                        λ after e5.
                          Ensures-require (Ends (Sent n)) t3
                            (is_received envelope.value before after) value_mismatch _ (λ e. h)
                            λ e6.
                              Ensures-require (Ends (Sent n)) t3
                                (is_price_within_cap lib envelope.signed receipt) price_exceeds_cap
                                (λ u. done (ok mined.0)) (λ e. h) (λ e. h)

  abbrev SentOnce : Trace (NodeCall Tx) NodeAnswer → Type 0
  SentOnce t = sends t ≤ 1

  submit-SentOnce :
      (polls : ℕ) (account : Account Key) (envelope : Envelope Tx)
      (past : Trace (NodeCall Tx) NodeAnswer)
      → Sent 0 past
      → Ensures (Ends SentOnce) past (submit lib polls account envelope)
  unfolding submit Ensures on_end sends
  submit-SentOnce polls account envelope past h = λ reply.
      let t1 = (balance_at envelope.to, reply) ∷ past in
      Ensures-checked (Ends SentOnce) t1 call_failed reply _ (λ e y. omega (arith, h))
        λ before y accepted.
          let t2 = (send_transaction envelope.signed, accepted) ∷ t1 in
          Ensures-checked (Ends SentOnce) t2 submission_failed accepted _ (λ e z. omega (arith, h))
            λ u z.
              Ensures-bind (Sent 1) SentOnce t2 (wait_receipt polls (lib.hash envelope.signed)) _
                (wait_receipt-Sent 1 polls (lib.hash envelope.signed) t2 (ap suc h))
                (λ t k. omega (arith, k))
                λ t receipt k.
                  Ensures-bind (Sent 1) SentOnce t
                    (check_effects lib account envelope before receipt) (λ observed. done (ok tt))
                    (check_effects-Sent 1 account envelope before receipt t k)
                    (λ t' k'. omega (arith, k')) (λ t' a k'. unfold Ensures in omega (arith, k'))

  transact-SentOnce :
      (polls : ℕ) (chain : ℤ) (kind : Kind) (past : Trace (NodeCall Tx) NodeAnswer)
      → Sent 0 past
      → Ensures (Ends SentOnce) past (transact lib polls chain kind)
  unfolding transact
  transact-SentOnce polls chain kind past h =
      Ensures-bind (Sent 0) SentOnce past (prepare lib 1) _ (prepare-Sent 0 1 past h) few
        λ t1 account h1.
          Ensures-bind (Sent 0) SentOnce t1 (sign_kind lib chain account kind) _
            (sign_kind-Sent 0 chain account kind t1 h1) few
            λ t2 envelope h2.
              Ensures-bind (Sent 0) SentOnce t2 (check_envelope lib chain account envelope)
                (λ recovered. submit lib polls account envelope)
                (check_envelope-Sent 0 chain account envelope t2 h2) few
                (λ t3 u h3. submit-SentOnce polls account envelope t3 h3)
    where
      few : (t : Trace (NodeCall Tx) NodeAnswer) → Sent 0 t → SentOnce t
      few t k = omega (arith, k)

  -- Whatever the node answers, and on every path of errors, `transact` submits one transaction at
  -- most: it does not send again what may have been accepted.
  pub transact-sends_once :
      (world : World (NodeCall Tx) NodeAnswer) (polls : ℕ) (chain : ℤ) (kind : Kind)
      → sends (exec world [] (transact lib polls chain kind)).0 ≤ 1
  transact-sends_once world polls chain kind =
      exec-Ensures world (Ends SentOnce) [] (transact lib polls chain kind)
        (transact-SentOnce polls chain kind [] (unfold sends in refl))
