-- ===== src/Local/Delegation/Submitted.antt =====
-- The submission of the delegation article, and its effects.
use blog_solutions.Prelude.{
  append-nil, ◌++◌, sym, subst, ◌∙◌, ℕ, ◌+◌, ◌*◌, ◌%◌, ◌^◌, ◌≡◌, refl, ℤ, pos, List, [], ◌∷◌, inl,
  length, ◌==◌, word,
}
use blog_solutions.Rlp.Item.{Bytes}
use blog_solutions.Local.Program.{
  Event, Trace, Ensures, Happened, InOrder, InOrder-now, InOrder-cons, on_end, ◌>>=◌,
}
use blog_solutions.Local.Calls.{
  checked, ask, require, answer, Receipt, Log, call_failed, submission_failed, event_count_mismatch,
  event_mismatch, NodeCall, NodeAnswer, send_transaction, set_balance,
}
use blog_solutions.Local.Ethereum.{Ethereum}
use blog_solutions.Local.Success.{
  OnSuccess, OnSuccess-bind, OnSuccess-checked, OnSuccess-require, OnSuccess-weaken,
  require-OnSuccess,
}
use blog_solutions.Local.Transact.Effects.{equal-eq}
use blog_solutions.Local.Delegation.{
  ping_success, pinged, trigger_pings, Signature, ping_start, Authorizer, Authority, Grants,
  check_account, persist,
}
use blog_solutions.Local.Delegation.Native.{
  address_words, manual_data, trigger_data, authorize, sign, check_mined, designation,
  expected_events, are_events, check_events, check_effects, submit,
}
use blog_solutions.Local.Delegation.Accounts.{
  IsDelegate, IsDelegate-Extends, check_account-IsDelegate, IsPersistent, persist-IsPersistent,
}
use blog_solutions.Local.Delegation.Signed.{
  trigger_data-manual, AreGrants, authorize-AreGrants, IsCarrier, sign-IsCarrier,
}
use blog_solutions.Local.Delegation.Settled.{
  IsIncluded, IsIncluded-Extends, check_mined-IsIncluded, events-eq,
}

module _ {Tx Key Auth : Type 0} (lib : Ethereum Tx Key) (authorizer : Authorizer Tx Key Auth) where
  -- The code of an account that delegates to the contract.
  abbrev pub delegated_code : ℕ → Bytes
  delegated_code implementation = 0xef ∷ 0x01 ∷ 0x00 ∷ authorizer.address_bytes implementation

  -- The call of the invoker with the two accounts: an array of two words.
  abbrev pub trigger_call : ℕ → ℕ → Bytes
  trigger_call a b =
      lib.selector trigger_pings
      ++ lib.word_of 32
      ++ lib.word_of 2
      ++ (lib.word_of a ++ lib.word_of b)

  abbrev pub log_of : ℕ → Signature → ℕ → Log
  log_of emitter name value = record {
    address = emitter;
    topics = lib.event_hash name ∷ [];
    data_of = lib.word_of value;
  }

  -- Behind the sending the accounts have the designation and their next nonces, the events are
  -- those of both calls, and the designations are still there in the next block.
  pub record IsEffected (implementation invoker : ℕ) (a b : Authority Key) (nonce_a nonce_b : ℕ)
      (receipt : Receipt) (earlier : Event (NodeCall Tx) NodeAnswer)
      (t : Trace (NodeCall Tx) NodeAnswer) : Type 0 where
    pub other :
        IsDelegate earlier (delegated_code implementation) a.address ((nonce_a + 1) % word) t
    pub sender :
        IsDelegate earlier (delegated_code implementation) b.address ((nonce_b + 2) % word) t
    pub logs :
        receipt.logs
        ≡ log_of invoker ping_start b.address
          ∷ log_of implementation pinged invoker
          ∷ log_of invoker ping_success a.address
          ∷ log_of implementation pinged invoker
          ∷ log_of invoker ping_success b.address
          ∷ []
    pub persistent : IsPersistent (delegated_code implementation) a.address b.address t

  pub check_events-eq :
      (implementation invoker a b : ℕ) (logs : List Log) (past : Trace (NodeCall Tx) NodeAnswer)
      → Ensures
          (OnSuccess (λ t u. logs ≡ expected_events lib authorizer implementation invoker a b))
          past
          (check_events lib authorizer
            (expected_events lib authorizer implementation invoker a b)
            logs)
  unfolding check_events
  check_events-eq implementation invoker a b logs past =
      let events = expected_events lib authorizer implementation invoker a b in
      let R : Trace (NodeCall Tx) NodeAnswer → Unit → Type 0 = λ t u. logs ≡ events in
      OnSuccess-require R past (length logs == 5) event_count_mismatch
        (λ u. require (are_events lib authorizer logs events) event_mismatch)
        λ e1.
          require-OnSuccess past R (are_events lib authorizer logs events) event_mismatch
            λ e2. events-eq lib authorizer logs events e2 (equal-eq (length logs) 5 e1)

  pub check_effects-IsEffected :
      (implementation invoker : ℕ) (a b : Authority Key) (nonce_a nonce_b : ℕ) (receipt : Receipt)
      (earlier : Event (NodeCall Tx) NodeAnswer) (past : Trace (NodeCall Tx) NodeAnswer)
      → Happened earlier past
      → Ensures
          (OnSuccess
            (λ t u. IsEffected implementation invoker a b nonce_a nonce_b receipt earlier t))
          past
          (check_effects lib authorizer implementation invoker a b nonce_a nonce_b receipt)
  unfolding check_effects designation
  check_effects-IsEffected implementation invoker a b nonce_a nonce_b receipt earlier past h =
      let R : Trace (NodeCall Tx) NodeAnswer → Unit → Type 0 =
        λ t u. IsEffected implementation invoker a b nonce_a nonce_b receipt earlier t in
      let d = designation lib authorizer implementation in
      let events = expected_events lib authorizer implementation invoker a.address b.address in
      OnSuccess-bind (λ t u. IsDelegate earlier d a.address ((nonce_a + 1) % word) t) R past
        (check_account d a.address ((nonce_a + 1) % word)) _
        (check_account-IsDelegate earlier d a.address ((nonce_a + 1) % word) past h)
        λ t1 u1 w1 o.
          OnSuccess-bind (λ t u. IsDelegate earlier d b.address ((nonce_b + 2) % word) t) R t1
            (check_account d b.address ((nonce_b + 2) % word)) _
            (check_account-IsDelegate earlier d b.address ((nonce_b + 2) % word) t1 (w1 _ h))
            λ t2 u2 w2 s.
              OnSuccess-bind (λ t u. receipt.logs ≡ events) R t2
                (check_events lib authorizer events receipt.logs) _
                (check_events-eq implementation invoker a.address b.address receipt.logs t2)
                λ t3 u3 w3 l.
                  OnSuccess-weaken (λ t u. IsPersistent d a.address b.address t) R t3
                    (persist d a.address b.address) (persist-IsPersistent d a.address b.address t3)
                    λ t4 u4 w4 p. record {
                      other =
                          IsDelegate-Extends earlier d a.address ((nonce_a + 1) % word) t1 t4
                            (λ e x. w4 e (w3 e (w2 e x))) o;
                      sender =
                          IsDelegate-Extends earlier d b.address ((nonce_b + 2) % word) t2 t4
                            (λ e x. w4 e (w3 e x)) s;
                      logs = l;
                      persistent = p;
                    }

  -- The submission of a carrier of two authorizations, and its effects.
  pub record IsSubmitted (chain : ℤ) (implementation invoker : ℕ) (a b : Authority Key)
      (nonce_a nonce_b : ℕ) (earlier : List (Event (NodeCall Tx) NodeAnswer))
      (t : Trace (NodeCall Tx) NodeAnswer) : Type 0 where
    pub grants : Grants Auth
    pub signed : Tx
    pub receipt : Receipt
    pub granted : AreGrants lib authorizer implementation a b nonce_a nonce_b grants
    pub carrier :
        IsCarrier lib authorizer chain b nonce_b invoker
          (trigger_call a.address b.address)
          grants
          signed
    pub sent : InOrder ((send_transaction signed, answer tt) ∷ earlier) t
    pub included :
        IsIncluded lib authorizer implementation
          (trigger_call a.address b.address)
          grants
          (lib.hash signed)
          receipt
          t
    pub effected :
        IsEffected implementation invoker a b nonce_a nonce_b receipt
          (send_transaction signed, answer tt)
          t

  -- The part of the submission that has the call's data.
  pub carried :
      (chain : ℤ) (implementation invoker : ℕ) (a b : Authority Key) (nonce_a nonce_b : ℕ)
      (data_of : Bytes) (earlier : List (Event (NodeCall Tx) NodeAnswer))
      (past : Trace (NodeCall Tx) NodeAnswer)
      → InOrder earlier past
      → data_of ≡ trigger_call a.address b.address
      → Ensures
          (OnSuccess
            (λ t u. IsSubmitted chain implementation invoker a b nonce_a nonce_b earlier t))
          past
          (do
            grants ← authorize lib authorizer implementation a b nonce_a nonce_b
            signed ← sign lib authorizer chain b nonce_b invoker data_of grants
            accepted ← ask (send_transaction signed)
            sent ← checked submission_failed accepted
            receipt ← check_mined lib authorizer implementation data_of grants (lib.hash signed)
            check_effects lib authorizer implementation invoker a b nonce_a nonce_b receipt)
  unfolding Ensures on_end
  carried chain implementation invoker a b nonce_a nonce_b data_of earlier past h m =
      let R : Trace (NodeCall Tx) NodeAnswer → Unit → Type 0 =
        λ t u. IsSubmitted chain implementation invoker a b nonce_a nonce_b earlier t in
      OnSuccess-bind
        (λ t grants. AreGrants lib authorizer implementation a b nonce_a nonce_b grants) R past
        (authorize lib authorizer implementation a b nonce_a nonce_b) _
        (authorize-AreGrants lib authorizer implementation a b nonce_a nonce_b past)
        λ t1 grants w1 g.
          OnSuccess-bind
            (λ t signed. IsCarrier lib authorizer chain b nonce_b invoker data_of grants signed) R
            t1 (sign lib authorizer chain b nonce_b invoker data_of grants) _
            (sign-IsCarrier lib authorizer chain b nonce_b invoker data_of grants t1)
            λ t2 signed w2 c accepted.
              let t3 = (send_transaction signed, accepted) ∷ t2 in
              OnSuccess-checked R t3 submission_failed accepted _ λ u e3.
                OnSuccess-bind
                  (λ t receipt.
                    IsIncluded lib authorizer implementation data_of grants (lib.hash signed)
                      receipt t)
                  R t3 (check_mined lib authorizer implementation data_of grants (lib.hash signed))
                  _
                  (check_mined-IsIncluded lib authorizer implementation data_of grants
                    (lib.hash signed) t3)
                  λ t4 receipt w4 i.
                    OnSuccess-weaken
                      (λ t u.
                        IsEffected implementation invoker a b nonce_a nonce_b receipt
                          (send_transaction signed, answer tt) t)
                      R t4
                      (check_effects lib authorizer implementation invoker a b nonce_a nonce_b
                        receipt)
                      (check_effects-IsEffected implementation invoker a b nonce_a nonce_b receipt
                        (send_transaction signed, answer tt) t4 (w4 _ (inl (rw e3 refl))))
                      λ t5 u5 w5 f. record {
                        grants = grants;
                        signed = signed;
                        receipt = receipt;
                        granted = g;
                        carrier = rw m at c;
                        sent = w5 _ (
                            w4 _ (
                              subst
                                (λ reply.
                                  InOrder ((send_transaction signed, answer tt) ∷ earlier)
                                    ((send_transaction signed, reply) ∷ t2))
                                (sym e3)
                                (InOrder-now earlier (send_transaction signed, answer tt) t2
                                  (w2 earlier (w1 earlier h)))));
                        included =
                            let still : IsIncluded lib authorizer implementation data_of grants
                                (lib.hash signed) receipt t5 =
                              IsIncluded-Extends lib authorizer implementation data_of grants
                                (lib.hash signed) receipt t4 t5 w5 i in
                            rw m at still;
                        effected = f;
                      }

  trigger_call-eq : (a b : ℕ) → manual_data lib authorizer (a ∷ b ∷ []) ≡ trigger_call a b
  unfolding manual_data address_words
  trigger_call-eq a b = rw append-nil

  pub submit-IsSubmitted :
      (chain : ℤ) (implementation invoker : ℕ) (a b : Authority Key) (nonce_a nonce_b : ℕ)
      (earlier : List (Event (NodeCall Tx) NodeAnswer)) (past : Trace (NodeCall Tx) NodeAnswer)
      → InOrder earlier past
      → Ensures
          (OnSuccess
            (λ t u. IsSubmitted chain implementation invoker a b nonce_a nonce_b earlier t))
          past
          (submit lib authorizer chain implementation invoker a b nonce_a nonce_b)
  unfolding submit Ensures on_end
  submit-IsSubmitted chain implementation invoker a b nonce_a nonce_b earlier past h = λ funding.
      let R : Trace (NodeCall Tx) NodeAnswer → Unit → Type 0 =
        λ t u. IsSubmitted chain implementation invoker a b nonce_a nonce_b earlier t in
      let t1 = (set_balance b.address (pos (100 * 10 ^ 18)), funding) ∷ past in
      OnSuccess-checked R t1 call_failed funding _ λ u e1.
        OnSuccess-bind
          (λ t packed. packed ≡ manual_data lib authorizer (a.address ∷ b.address ∷ [])) R t1
          (trigger_data lib authorizer (a.address ∷ b.address ∷ [])) _
          (trigger_data-manual lib authorizer (a.address ∷ b.address ∷ []) t1)
          λ t2 data_of w2 m.
            carried chain implementation invoker a b nonce_a nonce_b data_of earlier t2
              (w2 earlier (InOrder-cons earlier _ past h)) (m ∙ trigger_call-eq a.address b.address)
