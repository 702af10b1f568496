-- ===== src/Local/Delegation/Signed.antt =====
-- The contracts, the authorizations and the transaction of the delegation article.
use blog_solutions.Prelude.{
  ℕ, ◌+◌, ◌%◌, ◌≡◌, refl, ap, ℤ, ◌+ℤ◌, true, not, ◌&&◌, List, [], ◌∷◌, inl, inr, ok, length, ◌==◌,
  word,
}
use blog_solutions.Rlp.Item.{Bytes}
use blog_solutions.Blob.Packing.{equal_bytes}
use blog_solutions.Local.Program.{Trace, Ensures, Happened, on_end, done}
use blog_solutions.Local.Calls.{
  checked, Reply, answer, failure, Contract, call_failed, deploy_failed, runtime_mismatch,
  abi_mismatch, signer_mismatch, NodeCall, NodeAnswer, code_at, forge_create_of, forge_inspect_of,
}
use blog_solutions.Local.Ethereum.{Ethereum}
use blog_solutions.Local.Success.{
  OnSuccess, Extends, OnSuccess-bind, OnSuccess-checked, OnSuccess-require, OnSuccess-always,
}
use blog_solutions.Local.Transact.Effects.{equal-eq, and_both}
use blog_solutions.Local.Token.{trim_space, deployed_address}
use blog_solutions.Local.Token.Moved.{equal_bytes-eq}
use blog_solutions.Local.Blobs.{must}
use blog_solutions.Local.Delegation.{Authorizer, Authority, Grants}
use blog_solutions.Local.Delegation.Native.{
  deploy, manual_data, trigger_data, is_authority, authorize, sign,
}

module _ {Tx Key Auth : Type 0} (lib : Ethereum Tx Key) (authorizer : Authorizer Tx Key Auth) where
  -- The node runs what forge has built of the contract.
  pub record IsDeployed (name : Contract) (account : ℕ) (t : Trace (NodeCall Tx) NodeAnswer)
      : Type 0 where
    pub built : Bytes
    pub inspected : Happened (forge_inspect_of name, answer built) t
    pub runtime : Happened (code_at account, answer (lib.from_hex (trim_space built))) t

  pub IsDeployed-Extends :
      (name : Contract) (account : ℕ) (t u : Trace (NodeCall Tx) NodeAnswer)
      → Extends t u
      → IsDeployed name account t
      → IsDeployed name account u
  IsDeployed-Extends name account t u w d = record {
    built = d.built;
    inspected = w _ d.inspected;
    runtime = w _ d.runtime;
  }

  pub deploy-IsDeployed :
      (name : Contract) (past : Trace (NodeCall Tx) NodeAnswer)
      → Ensures
          (OnSuccess (λ t account. IsDeployed name account t))
          past
          (deploy lib authorizer name)
  unfolding deploy Ensures on_end
  deploy-IsDeployed name past = λ created.
      let R : Trace (NodeCall Tx) NodeAnswer → ℕ → Type 0 =
        λ t account. IsDeployed name account t in
      let t1 = (forge_create_of name, created) ∷ past in
      OnSuccess-checked R t1 deploy_failed created _ λ out e1.
        OnSuccess-checked R t1 call_failed (lib.deployed_to (trim_space out)) _ λ hex e2.
          OnSuccess-bind (λ t account. Unit) R t1 (deployed_address lib (lib.hex_address hex)) _
            (OnSuccess-always t1 (deployed_address lib (lib.hex_address hex)))
            λ t2 account w u inspected.
              let t3 = (forge_inspect_of name, inspected) ∷ t2 in
              OnSuccess-checked R t3 call_failed inspected _ λ expected e3 found.
                let t4 = (code_at account, found) ∷ t3 in
                OnSuccess-checked R t4 call_failed found _ λ code e4.
                  OnSuccess-require R t4
                    (not (length code == 0)
                      && equal_bytes code (lib.from_hex (trim_space expected)))
                    runtime_mismatch (λ u. done (ok account))
                    λ e5.
                      let both =
                        and_both (not (length code == 0))
                          (equal_bytes code (lib.from_hex (trim_space expected))) e5 in
                      record {
                        built = expected;
                        inspected = inr (inl (rw e3 refl));
                        runtime = inl (rw (e4, equal_bytes-eq code _ both.1) refl);
                      }

  pub trigger_data-manual :
      (accounts : List ℕ) (past : Trace (NodeCall Tx) NodeAnswer)
      → Ensures
          (OnSuccess (λ t packed. packed ≡ manual_data lib authorizer accounts))
          past
          (trigger_data lib authorizer accounts)
  unfolding trigger_data Ensures
  trigger_data-manual accounts past =
      let R : Trace (NodeCall Tx) NodeAnswer → Bytes → Type 0 =
        λ t packed. packed ≡ manual_data lib authorizer accounts in
      OnSuccess-checked R past call_failed (authorizer.pack_trigger accounts) _ λ packed e1.
        OnSuccess-require R past (equal_bytes packed (manual_data lib authorizer accounts))
          abi_mismatch (λ u. done (ok packed)) λ e2. equal_bytes-eq packed _ e2

  -- An authorization of the account for the implementation, which the account's key has signed.
  pub record IsGrant (implementation : ℕ) (a : Authority Key) (nonce : ℕ) (auth : Auth)
      : Type 0 where
    pub signed :
        authorizer.sign_grant a.key
          (record { chain = 31337; address = implementation; nonce = nonce })
        ≡ answer auth
    pub signer : authorizer.authority auth ≡ answer a.address

  pub record AreGrants (implementation : ℕ) (a b : Authority Key) (nonce_a nonce_b : ℕ)
      (grants : Grants Auth) : Type 0 where
    pub first : IsGrant implementation a nonce_a grants.first
    pub second : IsGrant implementation b ((nonce_b + 1) % word) grants.second
    pub first_nonce : grants.first_nonce ≡ nonce_a
    pub second_nonce : grants.second_nonce ≡ (nonce_b + 1) % word

  authority-eq :
      (account : ℕ) (reply : Reply ℕ)
      → is_authority lib authorizer account reply ≡ true
      → reply ≡ answer account
  unfolding is_authority
  authority-eq account (answer who) e = ap answer (equal-eq who account e)
  authority-eq account (failure x) e = cc

  pub authorize-AreGrants :
      (implementation : ℕ) (a b : Authority Key) (nonce_a nonce_b : ℕ)
      (past : Trace (NodeCall Tx) NodeAnswer)
      → Ensures
          (OnSuccess (λ t grants. AreGrants implementation a b nonce_a nonce_b grants))
          past
          (authorize lib authorizer implementation a b nonce_a nonce_b)
  unfolding authorize Ensures
  authorize-AreGrants implementation a b nonce_a nonce_b past =
      let R : Trace (NodeCall Tx) NodeAnswer → Grants Auth → Type 0 =
        λ t grants. AreGrants implementation a b nonce_a nonce_b grants in
      let next = (nonce_b + 1) % word in
      OnSuccess-checked R past call_failed
        (authorizer.sign_grant a.key
          (record { chain = 31337; address = implementation; nonce = nonce_a }))
        _
        λ first e1.
          OnSuccess-checked R past call_failed
            (authorizer.sign_grant b.key
              (record { chain = 31337; address = implementation; nonce = next }))
            _
            λ second e2.
              OnSuccess-require R past
                (is_authority lib authorizer a.address (authorizer.authority first)) signer_mismatch
                _
                λ e3.
                  OnSuccess-require R past
                    (is_authority lib authorizer b.address (authorizer.authority second))
                    signer_mismatch
                    (λ u. done (
                      ok (record {
                        first = first;
                        second = second;
                        first_nonce = nonce_a;
                        second_nonce = next;
                      })))
                    λ e4. record {
                      first = record { signed = e1; signer = authority-eq a.address _ e3 };
                      second = record { signed = e2; signer = authority-eq b.address _ e4 };
                      first_nonce = refl;
                      second_nonce = refl;
                    }

  -- A transaction that calls the invoker and carries both authorizations.
  pub record IsCarrier (chain : ℤ) (sender : Authority Key) (nonce invoker : ℕ) (data_of : Bytes)
      (grants : Grants Auth) (signed : Tx) : Type 0 where
    pub tip : ℕ
    pub fee_cap : ℕ
    pub is_signed :
        authorizer.sign_set_code chain sender.key (record {
          chain = 31337;
          nonce = nonce;
          gas_tip_cap = tip;
          gas_fee_cap = fee_cap;
          gas = 120000;
          to = invoker;
          data_of = data_of;
          auth_list = grants.first ∷ grants.second ∷ [];
        })
        ≡ answer signed

  signed-IsCarrier :
      (chain : ℤ) (sender : Authority Key) (nonce invoker : ℕ) (data_of : Bytes)
      (grants : Grants Auth) (tip fee_cap : ℕ) (reply : Reply Tx)
      (past : Trace (NodeCall Tx) NodeAnswer)
      → authorizer.sign_set_code chain sender.key (record {
        chain = 31337;
        nonce = nonce;
        gas_tip_cap = tip;
        gas_fee_cap = fee_cap;
        gas = 120000;
        to = invoker;
        data_of = data_of;
        auth_list = grants.first ∷ grants.second ∷ [];
      })
        ≡ reply
      → Ensures
          (OnSuccess (λ t signed. IsCarrier chain sender nonce invoker data_of grants signed))
          past
          (checked call_failed reply)
  unfolding Ensures
  signed-IsCarrier chain sender nonce invoker data_of grants tip fee_cap (answer signed) past e =
      record { tip = tip; fee_cap = fee_cap; is_signed = e }
  signed-IsCarrier chain sender nonce invoker data_of grants tip fee_cap (failure x) past e = tt

  pub sign-IsCarrier :
      (chain : ℤ) (sender : Authority Key) (nonce invoker : ℕ) (data_of : Bytes)
      (grants : Grants Auth) (past : Trace (NodeCall Tx) NodeAnswer)
      → Ensures
          (OnSuccess (λ t signed. IsCarrier chain sender nonce invoker data_of grants signed))
          past
          (sign lib authorizer chain sender nonce invoker data_of grants)
  unfolding sign Ensures on_end
  sign-IsCarrier chain sender nonce invoker data_of grants past = λ tip_reply.
      let R : Trace (NodeCall Tx) NodeAnswer → Tx → Type 0 =
        λ t signed. IsCarrier chain sender nonce invoker data_of grants signed in
      OnSuccess-checked R _ call_failed tip_reply _ λ tip e1 price_reply.
        OnSuccess-checked R _ call_failed price_reply _ λ price e2.
          OnSuccess-bind (λ t n. Unit) R _ (must (lib.from_big tip)) _
            (OnSuccess-always _ (must (lib.from_big tip)))
            λ t1 tip_word w1 u1.
              OnSuccess-bind (λ t n. Unit) R t1 (must (lib.from_big (price +ℤ tip))) _
                (OnSuccess-always t1 (must (lib.from_big (price +ℤ tip))))
                λ t2 cap_word w2 u2.
                  signed-IsCarrier chain sender nonce invoker data_of grants tip_word cap_word _ t2
                    refl
