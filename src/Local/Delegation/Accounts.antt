-- ===== src/Local/Delegation/Accounts.antt =====
-- What the delegation article reads of the accounts: fresh before, delegated afterwards.
use blog_solutions.Prelude.{
  ap, ◌∙◌, sym, subst, arith, ℕ, zero, suc, ◌≡◌, refl, true, ◌&&◌, [], ◌∷◌, inl, ok, length, ◌==◌,
}
use blog_solutions.Rlp.Item.{Bytes}
use blog_solutions.Blob.Packing.{equal_bytes}
use blog_solutions.Local.Program.{
  InOrder-now, InOrder, Event, Trace, Ensures, Happened, on_end, done,
}
use blog_solutions.Local.Calls.{
  Reply, answer, failure, not_found, other_error, Receipt, call_failed, stale_authority,
  account_mismatch, designation_lost, NodeCall, NodeAnswer, NodeProgram, pending_nonce_at, code_at,
  nonce_at, evm_mine, transaction_receipt,
}
use blog_solutions.Local.Success.{
  OnSuccess, Extends, OnSuccess-bind, OnSuccess-checked, OnSuccess-require, OnSuccess-weaken,
  require-OnSuccess,
}
use blog_solutions.Local.Transact.Effects.{equal-eq, and_both, IsGiven}
use blog_solutions.Local.Token.Moved.{equal_bytes-eq}
use blog_solutions.Local.Delegation.{
  List, mined_or_retry, wait_mined, authority_with, fresh_nonce, check_account, check_persistent,
  persist,
}

no_bytes : (s : Bytes) → (length s == 0) ≡ true → s ≡ []
no_bytes [] e = refl
no_bytes (b ∷ s) e =
    let z : suc (length s) ≡ 0 = equal-eq (suc (length s)) 0 e in absurd (omega (arith, z))

module _ {Tx : Type 0} where
  -- The account had no transactions and no code, behind the events.
  pub record IsFresh (es : List (Event (NodeCall Tx) NodeAnswer)) (account : ℕ) (nonce : ℕ)
      (t : Trace (NodeCall Tx) NodeAnswer) : Type 0 where
    pub zero_nonce : nonce ≡ 0
    pub ordered :
        InOrder ((code_at account, answer []) ∷ (pending_nonce_at account, answer 0) ∷ es) t

  pub fresh_nonce-IsFresh :
      (es : List (Event (NodeCall Tx) NodeAnswer)) (account : ℕ)
      (past : Trace (NodeCall Tx) NodeAnswer)
      → InOrder es past
      → Ensures
          (OnSuccess (λ t nonce. IsFresh es account nonce t))
          past
          (fresh_nonce {Tx = Tx} account)
  unfolding fresh_nonce Ensures on_end
  fresh_nonce-IsFresh es account past b = λ reply.
      let R : Trace (NodeCall Tx) NodeAnswer → ℕ → Type 0 = λ t nonce. IsFresh es account nonce t in
      let t1 = (pending_nonce_at account, reply) ∷ past in
      OnSuccess-checked R t1 call_failed reply _ λ nonce e1 found.
        let t2 = (code_at account, found) ∷ t1 in
        OnSuccess-checked R t2 call_failed found _ λ code e2.
          OnSuccess-require R t2 (nonce == 0 && length code == 0) stale_authority
            (λ u. done (ok nonce))
            λ e3.
              let both = and_both (nonce == 0) (length code == 0) e3 in
              let z = equal-eq nonce 0 both.0 in
              record {
                zero_nonce = z;
                ordered = inl (
                  rw (e2, no_bytes code both.1) refl,
                  subst
                      (λ r.
                        InOrder ((pending_nonce_at account, answer 0) ∷ es)
                          ((pending_nonce_at account, r) ∷ past))
                      (sym (e1 ∙ ap answer z))
                      (InOrder-now es (pending_nonce_at account, answer 0) past b),
                );
              }

  -- The node has shown this code and this nonce behind the event.
  pub record IsDelegate (earlier : Event (NodeCall Tx) NodeAnswer) (designation : Bytes)
      (account nonce : ℕ) (t : Trace (NodeCall Tx) NodeAnswer) : Type 0 where
    pub ordered :
        InOrder
          ((nonce_at account, answer nonce) ∷ (code_at account, answer designation) ∷ earlier ∷ [])
          t

  pub IsDelegate-Extends :
      (earlier : Event (NodeCall Tx) NodeAnswer) (designation : Bytes) (account nonce : ℕ)
      (t u : Trace (NodeCall Tx) NodeAnswer)
      → Extends t u
      → IsDelegate earlier designation account nonce t
      → IsDelegate earlier designation account nonce u
  IsDelegate-Extends earlier designation account nonce t u w d = record { ordered = w _ d.ordered }

  pub check_account-IsDelegate :
      (earlier : Event (NodeCall Tx) NodeAnswer) (designation : Bytes) (account expected : ℕ)
      (past : Trace (NodeCall Tx) NodeAnswer)
      → Happened earlier past
      → Ensures
          (OnSuccess (λ t u. IsDelegate earlier designation account expected t))
          past
          (check_account {Tx = Tx} designation account expected)
  unfolding check_account Ensures on_end
  check_account-IsDelegate earlier designation account expected past b = λ found.
      let R : Trace (NodeCall Tx) NodeAnswer → Unit → Type 0 =
        λ t u. IsDelegate earlier designation account expected t in
      let t1 = (code_at account, found) ∷ past in
      OnSuccess-checked R t1 call_failed found _ λ code e1 reply.
        let t2 = (nonce_at account, reply) ∷ t1 in
        OnSuccess-checked R t2 call_failed reply _ λ nonce e2.
          require-OnSuccess t2 R (equal_bytes code designation && nonce == expected)
            account_mismatch
            λ e3.
              let both = and_both (equal_bytes code designation) (nonce == expected) e3 in
              record {
                ordered = inl (
                  rw (e2, equal-eq nonce expected both.1) refl,
                  inl (rw (e1, equal_bytes-eq code designation both.0) refl, b),
                );
              }

  -- The last calls: another block, and the designations in it.
  abbrev pub IsPersistent : Bytes → ℕ → ℕ → Trace (NodeCall Tx) NodeAnswer → Type 0
  IsPersistent designation a b t =
      (earlier : Trace (NodeCall Tx) NodeAnswer) × (t
        ≡ (code_at b, answer designation)
          ∷ (code_at a, answer designation)
          ∷ (evm_mine, answer tt)
          ∷ earlier)

  check_persistent-last :
      (designation : Bytes) (account : ℕ) (past : Trace (NodeCall Tx) NodeAnswer)
      → Ensures
          (OnSuccess (λ t u. t ≡ (code_at account, answer designation) ∷ past))
          past
          (check_persistent {Tx = Tx} designation account)
  unfolding check_persistent Ensures on_end
  check_persistent-last designation account past = λ found.
      let R : Trace (NodeCall Tx) NodeAnswer → Unit → Type 0 =
        λ t u. t ≡ (code_at account, answer designation) ∷ past in
      let t1 = (code_at account, found) ∷ past in
      OnSuccess-checked R t1 call_failed found _ λ code e1.
        require-OnSuccess t1 R (equal_bytes code designation) designation_lost
          λ e2. rw (e1, equal_bytes-eq code designation e2) refl

  pub persist-IsPersistent :
      (designation : Bytes) (a b : ℕ) (past : Trace (NodeCall Tx) NodeAnswer)
      → Ensures
          (OnSuccess (λ t u. IsPersistent designation a b t))
          past
          (persist {Tx = Tx} designation a b)
  unfolding persist Ensures on_end
  persist-IsPersistent designation a b past = λ reply.
      let R : Trace (NodeCall Tx) NodeAnswer → Unit → Type 0 =
        λ t u. IsPersistent designation a b t in
      let t1 : Trace (NodeCall Tx) NodeAnswer = (evm_mine, reply) ∷ past in
      OnSuccess-checked R t1 call_failed reply _ λ u e1.
        OnSuccess-bind (λ t u. t ≡ (code_at a, answer designation) ∷ t1) R t1
          (check_persistent designation a) _ (check_persistent-last designation a t1)
          λ t2 v w p.
            OnSuccess-weaken (λ t u. t ≡ (code_at b, answer designation) ∷ t2) R t2
              (check_persistent designation b) (check_persistent-last designation b t2)
              λ t x y q. (past, rw (q, p, e1) refl)

  mined_or_retry-IsGiven :
      (hash : ℕ) (retry : NodeProgram Tx Receipt) (reply : Reply Receipt)
      (past : Trace (NodeCall Tx) NodeAnswer)
      → ((t : Trace (NodeCall Tx) NodeAnswer) → Ensures (OnSuccess (IsGiven hash)) t retry)
      → Ensures
          (OnSuccess (IsGiven hash))
          ((transaction_receipt hash, reply) ∷ past)
          (mined_or_retry retry reply)
  unfolding mined_or_retry Ensures on_end
  mined_or_retry-IsGiven hash retry (answer receipt) past h = inl refl
  mined_or_retry-IsGiven hash retry (failure not_found) past h = λ slept. h _
  mined_or_retry-IsGiven hash retry (failure (other_error e)) past h = tt

  pub wait_mined-IsGiven :
      (rounds hash : ℕ) (past : Trace (NodeCall Tx) NodeAnswer)
      → Ensures (OnSuccess (IsGiven hash)) past (wait_mined rounds hash)
  unfolding wait_mined Ensures on_end
  wait_mined-IsGiven zero hash past = λ reply. mined_or_retry-IsGiven hash _ reply past (λ t. tt)
  wait_mined-IsGiven (suc rounds) hash past =
      λ reply. mined_or_retry-IsGiven hash _ reply past (wait_mined-IsGiven rounds hash)

  pub authority_with-key :
      {Key : Type 0} (address_of : Key → ℕ) (reply : Reply Key)
      (past : Trace (NodeCall Tx) NodeAnswer)
      → Ensures
          (OnSuccess (λ t a. (reply ≡ answer a.key) × (a.address ≡ address_of a.key)))
          past
          (authority_with {Tx = Tx} address_of reply)
  unfolding authority_with Ensures
  authority_with-key address_of (answer key) past = (refl, refl)
  authority_with-key address_of (failure e) past = tt
