-- ===== src/Local/Delegation/Settled.antt =====
-- A successful run of the delegation article, behind the checks of the node.
use blog_solutions.Prelude.{
  arith, ℕ, ◌≡◌, refl, Bool, true, ◌&&◌, List, [], ◌∷◌, inl, inr, ok, length, ◌==◌,
}
use blog_solutions.Rlp.Item.{Bytes}
use blog_solutions.Blob.Packing.{equal_bytes}
use blog_solutions.Local.Program.{Trace, Ensures, Happened, on_end, done}
use blog_solutions.Local.Calls.{
  answer, Receipt, Log, call_failed, receipt_mismatch, fields_mismatch, authorization_mismatch,
  NodeCall, NodeAnswer, transaction_by_hash,
}
use blog_solutions.Local.Ethereum.{Ethereum}
use blog_solutions.Local.Success.{
  OnSuccess, Extends, OnSuccess-bind, OnSuccess-checked, OnSuccess-require,
}
use blog_solutions.Local.Transact.Effects.{equal-eq, and_both, IsGiven}
use blog_solutions.Local.Token.{same_topics}
use blog_solutions.Local.Token.Moved.{equal_bytes-eq, same_topics-eq}
use blog_solutions.Local.Delegation.{not, false, Authorizer, Grants, wait_mined, is_receipt}
use blog_solutions.Local.Delegation.Native.{
  is_granted, are_granted, is_mined, check_mined, is_event, are_events,
}
use blog_solutions.Local.Delegation.Accounts.{wait_mined-IsGiven}

module _ {Tx Key Auth : Type 0} (lib : Ethereum Tx Key) (authorizer : Authorizer Tx Key Auth) where
  -- An authorization of the mined transaction.
  pub record IsGranted (implementation nonce : ℕ) (auth : Auth) : Type 0 where
    pub nonce_of : authorizer.nonce_of auth ≡ nonce
    pub address_of : authorizer.address_of auth ≡ implementation
    pub chain_of : authorizer.chain_of auth ≡ 31337

  granted :
      (implementation nonce : ℕ) (auth : Auth)
      → is_granted lib authorizer implementation auth nonce ≡ true
      → IsGranted implementation nonce auth
  unfolding is_granted
  granted implementation nonce auth e =
      let all =
        and_both (authorizer.nonce_of auth == nonce && authorizer.address_of auth == implementation)
          (authorizer.chain_of auth == 31337) e in
      let two =
        and_both (authorizer.nonce_of auth == nonce) (authorizer.address_of auth == implementation)
          all.0 in
      record {
        nonce_of = equal-eq _ _ two.0;
        address_of = equal-eq _ _ two.1;
        chain_of = equal-eq _ _ all.1;
      }

  pub record AreMined (implementation : ℕ) (grants : Grants Auth) (auths : List Auth) : Type 0 where
    pub first : Auth
    pub second : Auth
    pub both : auths ≡ first ∷ second ∷ []
    pub first_granted : IsGranted implementation grants.first_nonce first
    pub second_granted : IsGranted implementation grants.second_nonce second

  are_granted-AreMined :
      (implementation : ℕ) (grants : Grants Auth) (auths : List Auth)
      → are_granted lib authorizer implementation grants auths ≡ true
      → AreMined implementation grants auths
  unfolding are_granted
  are_granted-AreMined implementation grants [] e = absurd cc
  are_granted-AreMined implementation grants (a ∷ []) e = absurd cc
  are_granted-AreMined implementation grants (a ∷ b ∷ []) e =
      let two =
        and_both (is_granted lib authorizer implementation a grants.first_nonce)
          (is_granted lib authorizer implementation b grants.second_nonce) e in
      record {
        first = a;
        second = b;
        both = refl;
        first_granted = granted implementation grants.first_nonce a two.0;
        second_granted = granted implementation grants.second_nonce b two.1;
      }
  are_granted-AreMined implementation grants (a ∷ b ∷ c ∷ auths) e = absurd cc

  -- The receipt, and the transaction as it is mined.
  pub record IsIncluded (implementation : ℕ) (data_of : Bytes) (grants : Grants Auth) (hash : ℕ)
      (receipt : Receipt) (t : Trace (NodeCall Tx) NodeAnswer) : Type 0 where
    pub given : IsGiven hash t receipt
    pub status : receipt.status ≡ 1
    pub type : receipt.type ≡ 4
    pub observed : Tx
    pub pending : Bool
    pub mined : Happened (transaction_by_hash hash, answer (observed, pending)) t
    pub settled : pending ≡ false
    pub mined_type : lib.type observed ≡ 4
    pub mined_data : lib.data_of observed ≡ data_of
    pub mined_count : length (authorizer.authorizations observed) ≡ 2
    pub authorizations : AreMined implementation grants (authorizer.authorizations observed)

  pub IsIncluded-Extends :
      (implementation : ℕ) (data_of : Bytes) (grants : Grants Auth) (hash : ℕ) (receipt : Receipt)
      (t u : Trace (NodeCall Tx) NodeAnswer)
      → Extends t u
      → IsIncluded implementation data_of grants hash receipt t
      → IsIncluded implementation data_of grants hash receipt u
  IsIncluded-Extends implementation data_of grants hash receipt t u w i = record {
    given = w _ i.given;
    status = i.status;
    type = i.type;
    observed = i.observed;
    pending = i.pending;
    mined = w _ i.mined;
    settled = i.settled;
    mined_type = i.mined_type;
    mined_data = i.mined_data;
    mined_count = i.mined_count;
    authorizations = i.authorizations;
  }

  receipt-eq :
      (receipt : Receipt) → is_receipt receipt ≡ true → (receipt.status ≡ 1) × (receipt.type ≡ 4)
  unfolding is_receipt
  receipt-eq receipt e =
      let two = and_both (receipt.status == 1) (receipt.type == 4) e in
      (equal-eq _ _ two.0, equal-eq _ _ two.1)

  negated : (b : Bool) → not b ≡ true → b ≡ false
  negated true e = cc
  negated false e = refl

  mined-eq :
      (data_of : Bytes) (observed : Tx) (pending : Bool)
      → is_mined lib authorizer data_of (observed, pending) ≡ true
      → (pending ≡ false)
        × (lib.type observed ≡ 4)
        × (lib.data_of observed ≡ data_of)
        × (length (authorizer.authorizations observed) ≡ 2)
  unfolding is_mined
  mined-eq data_of observed pending e =
      let count = and_both _ (length (authorizer.authorizations observed) == 2) e in
      let same = and_both _ (equal_bytes (lib.data_of observed) data_of) count.0 in
      let kind = and_both (not pending) (lib.type observed == 4) same.0 in
      (negated pending kind.0, equal-eq _ _ kind.1, equal_bytes-eq _ _ same.1, equal-eq _ _ count.1)

  pub check_mined-IsIncluded :
      (implementation : ℕ) (data_of : Bytes) (grants : Grants Auth) (hash : ℕ)
      (past : Trace (NodeCall Tx) NodeAnswer)
      → Ensures
          (OnSuccess (λ t receipt. IsIncluded implementation data_of grants hash receipt t))
          past
          (check_mined lib authorizer implementation data_of grants hash)
  unfolding check_mined Ensures on_end
  check_mined-IsIncluded implementation data_of grants hash past =
      let R : Trace (NodeCall Tx) NodeAnswer → Receipt → Type 0 =
        λ t receipt. IsIncluded implementation data_of grants hash receipt t in
      OnSuccess-bind (IsGiven hash) R past (wait_mined 99 hash) _ (wait_mined-IsGiven 99 hash past)
        λ t1 receipt w1 g.
          OnSuccess-require R t1 (is_receipt receipt) receipt_mismatch _ λ e1 reply.
            let t2 = (transaction_by_hash hash, reply) ∷ t1 in
            OnSuccess-checked R t2 call_failed reply _ λ mined e2.
              OnSuccess-require R t2 (is_mined lib authorizer data_of mined) fields_mismatch _ λ e3.
                OnSuccess-require R t2
                  (are_granted lib authorizer implementation grants
                    (authorizer.authorizations mined.0))
                  authorization_mismatch (λ u. done (ok receipt))
                  λ e4. record {
                    given = inr g;
                    status = (receipt-eq receipt e1).0;
                    type = (receipt-eq receipt e1).1;
                    observed = mined.0;
                    pending = mined.1;
                    mined = inl (rw e2 refl);
                    settled = (mined-eq data_of mined.0 mined.1 e3).0;
                    mined_type = (mined-eq data_of mined.0 mined.1 e3).1;
                    mined_data = (mined-eq data_of mined.0 mined.1 e3).2;
                    mined_count = (mined-eq data_of mined.0 mined.1 e3).3;
                    authorizations = are_granted-AreMined implementation grants _ e4;
                  }

  event-eq : (l expected : Log) → is_event lib authorizer l expected ≡ true → l ≡ expected
  unfolding is_event
  event-eq l expected e =
      let all =
        and_both (l.address == expected.address && same_topics l.topics expected.topics)
          (equal_bytes l.data_of expected.data_of) e in
      let two =
        and_both (l.address == expected.address) (same_topics l.topics expected.topics) all.0 in
      cc (
        equal-eq l.address expected.address two.0,
        same_topics-eq l.topics expected.topics two.1,
        equal_bytes-eq l.data_of expected.data_of all.1,
      )

  pub events-eq :
      (logs events : List Log)
      → are_events lib authorizer logs events ≡ true
      → length logs ≡ length events
      → logs ≡ events
  unfolding are_events
  events-eq [] [] e h = refl
  events-eq [] (x ∷ events) e h = absurd (omega (arith, h))
  events-eq (l ∷ logs) [] e h = absurd (omega (arith, h))
  events-eq (l ∷ logs) (x ∷ events) e h =
      let both = and_both (is_event lib authorizer l x) (are_events lib authorizer logs events) e in
      cc (event-eq l x both.0, events-eq logs events both.1 (omega (arith, h)))
