-- ===== src/Local/Transact/Done.antt =====
-- What the submission of a successful `transact` has established.
use blog_solutions.Prelude.{
  ok, List, [], ℕ, ◌+◌, ◌%◌, ◌≡◌, refl, ap, ◌∷◌, inl, ℤ, Bool, true, not, ◌==◌, word,
}
use blog_solutions.Local.Program.{done, ◌>>=◌, Event, Trace, Ensures, InOrder, on_end}
use blog_solutions.Local.Calls.{
  Reply, answer, failure, Receipt, call_failed, submission_failed, receipt_mismatch,
  fields_mismatch, nonce_not_advanced, value_mismatch, price_exceeds_cap, NodeCall, NodeAnswer,
  NodeProgram, ask, checked, pending_nonce_at, balance_at, send_transaction, transaction_by_hash,
  transaction_receipt,
}
use blog_solutions.Local.Ethereum.{Ethereum}
use blog_solutions.Local.Success.{
  Extends, OnSuccess, OnSuccess-bind, OnSuccess-checked, OnSuccess-require, OnSuccess-weaken,
}
use blog_solutions.Local.Transact.{
  Account, Envelope, wait_receipt, is_some, is_successful, is_as_signed, is_advanced, is_received,
  is_price_within_cap, check_effects, submit,
}
use blog_solutions.Local.Transact.Effects.{
  equal-eq, and_both, GivenBehind, wait_receipt-GivenBehind,
}

module _ {Tx Key : Type 0} (lib : Ethereum Tx Key) where
  -- The receipt of a success, as the program reads it.
  pub record IsConfirmed (signed : Tx) (receipt : Receipt) : Type 0 where
    pub status : receipt.status ≡ 1
    pub type : receipt.type ≡ lib.type signed
    pub tx_hash : receipt.tx_hash ≡ lib.hash signed

  successful-IsConfirmed :
      (signed : Tx) (receipt : Receipt)
      → is_successful lib signed receipt ≡ true
      → IsConfirmed signed receipt
  unfolding is_successful
  successful-IsConfirmed signed receipt e =
      let used = and_both _ (not (receipt.gas_used == 0)) e in
      let block = and_both _ (is_some receipt.block_number) used.0 in
      let identity = and_both _ (receipt.tx_hash == lib.hash signed) block.0 in
      let kind = and_both (receipt.status == 1) (receipt.type == lib.type signed) identity.0 in
      record {
        status = equal-eq _ _ kind.0;
        type = equal-eq _ _ kind.1;
        tx_hash = equal-eq _ _ identity.1;
      }

  -- The submission: the balance of the recipient, the transaction sent, and its receipt.
  abbrev pub submitted : Envelope Tx → ℤ → Receipt → List (Event (NodeCall Tx) NodeAnswer)
  submitted envelope before receipt =
      (transaction_receipt (lib.hash envelope.signed), answer receipt)
      ∷ (send_transaction envelope.signed, answer tt)
      ∷ (balance_at envelope.to, answer before)
      ∷ []

  -- What the node has said behind the submission, in the order of the calls.
  pub record IsEffective (account : Account Key) (envelope : Envelope Tx) (before : ℤ)
      (receipt : Receipt) (observed : Tx) (t : Trace (NodeCall Tx) NodeAnswer) : Type 0 where
    pub pending : Bool
    pub after : ℤ
    pub ordered :
        InOrder
          ((balance_at envelope.to, answer after)
            ∷ (pending_nonce_at account.from, answer ((account.nonce + 1) % word))
            ∷ (transaction_by_hash (lib.hash envelope.signed), answer (observed, pending))
            ∷ submitted envelope before receipt)
          t
    pub as_signed : is_as_signed lib envelope (observed, pending) ≡ true
    pub confirmed : IsConfirmed envelope.signed receipt
    pub received : is_received envelope.value before after ≡ true
    pub price : is_price_within_cap lib envelope.signed receipt ≡ true

  advanced-eq :
      (nonce : ℕ) (reply : Reply ℕ)
      → is_advanced nonce reply ≡ true
      → reply ≡ answer ((nonce + 1) % word)
  unfolding is_advanced
  advanced-eq nonce (answer after) e = ap answer (equal-eq _ _ e)
  advanced-eq nonce (failure x) e = cc

  check_effects-IsEffective :
      (account : Account Key) (envelope : Envelope Tx) (before : ℤ) (receipt : Receipt)
      (past : Trace (NodeCall Tx) NodeAnswer)
      → InOrder (submitted envelope before receipt) past
      → Ensures
          (OnSuccess (λ t observed. IsEffective account envelope before receipt observed t))
          past
          (check_effects lib account envelope before receipt)
  unfolding check_effects Ensures on_end
  check_effects-IsEffective account envelope before receipt past b =
      let R : Trace (NodeCall Tx) NodeAnswer → Tx → Type 0 =
        λ t observed. IsEffective account envelope before receipt observed t in
      OnSuccess-require R past (is_successful lib envelope.signed receipt) receipt_mismatch _
        λ e1 observed.
          let t1 = (transaction_by_hash (lib.hash envelope.signed), observed) ∷ past in
          OnSuccess-checked R t1 call_failed observed _ λ mined e2.
            OnSuccess-require R t1 (is_as_signed lib envelope mined) fields_mismatch _ λ e3 reply.
              let t2 = (pending_nonce_at account.from, reply) ∷ t1 in
              OnSuccess-require R t2 (is_advanced account.nonce reply) nonce_not_advanced _
                λ e4 balance.
                  let t3 = (balance_at envelope.to, balance) ∷ t2 in
                  OnSuccess-checked R t3 call_failed balance _ λ after e5.
                    OnSuccess-require R t3 (is_received envelope.value before after) value_mismatch
                      _
                      λ e6.
                        OnSuccess-require R t3 (is_price_within_cap lib envelope.signed receipt)
                          price_exceeds_cap (λ u. done (ok mined.0))
                          λ e7. record {
                            pending = mined.1;
                            after = after;
                            ordered = inl (
                              rw e5 refl,
                              inl (
                                rw (advanced-eq account.nonce reply e4) refl,
                                inl (rw e2 refl, b),
                              ),
                            );
                            as_signed = e3;
                            confirmed = successful-IsConfirmed envelope.signed receipt e1;
                            received = e6;
                            price = e7;
                          }

  -- The submission of the envelope and all that the node has said of it.
  abbrev pub IsDone :
      Account Key → Envelope Tx → Trace (NodeCall Tx) NodeAnswer → Receipt → Tx → Type 0
  IsDone account envelope t receipt observed =
      (before : ℤ) × IsEffective account envelope before receipt observed t

  pub check_effects-IsDone :
      (account : Account Key) (envelope : Envelope Tx) (before : ℤ) (receipt : Receipt)
      (past : Trace (NodeCall Tx) NodeAnswer)
      → InOrder (submitted envelope before receipt) past
      → Ensures
          (OnSuccess (λ t observed. IsDone account envelope t receipt observed))
          past
          (check_effects lib account envelope before receipt)
  check_effects-IsDone account envelope before receipt past b =
      OnSuccess-weaken (λ t observed. IsEffective account envelope before receipt observed t)
        (λ t observed. IsDone account envelope t receipt observed) past _
        (check_effects-IsEffective account envelope before receipt past b)
        (λ t observed w r. (before, r))

  -- The same in a longer trace.
  pub IsDone-Extends :
      (account : Account Key) (envelope : Envelope Tx) (t u : Trace (NodeCall Tx) NodeAnswer)
      (receipt : Receipt) (observed : Tx)
      → Extends t u
      → IsDone account envelope t receipt observed
      → IsDone account envelope u receipt observed
  IsDone-Extends account envelope t u receipt observed w (before, d) = (
    before,
    record {
      pending = d.pending;
      after = d.after;
      ordered = w _ d.ordered;
      as_signed = d.as_signed;
      confirmed = d.confirmed;
      received = d.received;
      price = d.price;
    },
  )

  -- The submission and its checks, with what an article goes on with.
  pub submission-IsDone :
      (polls : ℕ) (account : Account Key) (envelope : Envelope Tx)
      (rest : Receipt → Tx → NodeProgram Tx Unit)
      (S : Trace (NodeCall Tx) NodeAnswer → Unit → Type 0) (past : Trace (NodeCall Tx) NodeAnswer)
      → ((t : Trace (NodeCall Tx) NodeAnswer) (receipt : Receipt) (observed : Tx)
          → IsDone account envelope t receipt observed
          → Ensures (OnSuccess S) t (rest receipt observed))
      → Ensures (OnSuccess S) past (do
        reply ← ask (balance_at envelope.to)
        before ← checked call_failed reply
        accepted ← ask (send_transaction envelope.signed)
        sent ← checked submission_failed accepted
        receipt ← wait_receipt polls (lib.hash envelope.signed)
        observed ← check_effects lib account envelope before receipt
        rest receipt observed)
  unfolding Ensures on_end
  submission-IsDone polls account envelope rest S past continue = λ reply.
      let t1 = (balance_at envelope.to, reply) ∷ past in
      OnSuccess-checked S t1 call_failed reply _ λ before e1 accepted.
        let t2 = (send_transaction envelope.signed, accepted) ∷ t1 in
        OnSuccess-checked S t2 submission_failed accepted _ λ u e2.
          let es : List (Event (NodeCall Tx) NodeAnswer) =
            (send_transaction envelope.signed, answer tt)
            ∷ (balance_at envelope.to, answer before)
            ∷ [] in
          OnSuccess-bind (GivenBehind es (lib.hash envelope.signed)) S t2
            (wait_receipt polls (lib.hash envelope.signed)) _
            (wait_receipt-GivenBehind es polls (lib.hash envelope.signed) t2
              (inl (rw e2 refl, inl (rw e1 refl))))
            λ t3 receipt w given.
              OnSuccess-bind (λ t observed. IsDone account envelope t receipt observed) S t3
                (check_effects lib account envelope before receipt) _
                (check_effects-IsDone account envelope before receipt t3 given)
                λ t4 observed w4 d. continue t4 receipt observed d

  pub submit-IsDone :
      (polls : ℕ) (account : Account Key) (envelope : Envelope Tx)
      (past : Trace (NodeCall Tx) NodeAnswer)
      → Ensures
          (OnSuccess (λ t u.
            (receipt : Receipt) × (observed : Tx) × IsDone account envelope t receipt observed))
          past
          (submit lib polls account envelope)
  unfolding submit
  submit-IsDone polls account envelope past =
      submission-IsDone polls account envelope (λ receipt observed. done (ok tt))
        (λ t u. (receipt : Receipt) × (observed : Tx) × IsDone account envelope t receipt observed)
        past (λ t receipt observed d. unfold Ensures in (receipt, observed, d))
