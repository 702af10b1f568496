-- ===== src/Local/Delegation/Delegated.antt =====
-- The whole of a successful run of the delegation article, behind the checks of the node.
use blog_solutions.Prelude.{List, [], ◌∷◌, ℕ, ◌≡◌, ℤ}
use blog_solutions.Local.Program.{Event, Trace, Ensures, InOrder-nil}
use blog_solutions.Local.Calls.{
  code_at, pending_nonce_at, answer, invoked, multi_delegation_invoker, NodeCall, NodeAnswer,
}
use blog_solutions.Local.Ethereum.{Ethereum}
use blog_solutions.Local.Success.{OnSuccess, OnSuccess-bind, OnSuccess-weaken}
use blog_solutions.Local.Delegation.{Authorizer, Authority, authority_with, fresh_nonce}
use blog_solutions.Local.Delegation.Native.{deploy, submit, delegate}
use blog_solutions.Local.Delegation.Accounts.{IsFresh, fresh_nonce-IsFresh, authority_with-key}
use blog_solutions.Local.Delegation.Signed.{IsDeployed, IsDeployed-Extends, deploy-IsDeployed}
use blog_solutions.Local.Delegation.Submitted.{IsSubmitted, submit-IsSubmitted}

module _ {Tx Key Auth : Type 0} (lib : Ethereum Tx Key) (authorizer : Authorizer Tx Key Auth) where
  -- Neither account had transactions or code.
  abbrev pub were_fresh : ℕ → ℕ → List (Event (NodeCall Tx) NodeAnswer)
  were_fresh a b =
      (code_at b, answer [])
      ∷ (pending_nonce_at b, answer 0)
      ∷ (code_at a, answer [])
      ∷ (pending_nonce_at a, answer 0)
      ∷ []

  -- Two fresh accounts delegate to the contract, and each has been called through its designation.
  pub record IsDelegated (chain : ℤ) (t : Trace (NodeCall Tx) NodeAnswer) : Type 0 where
    pub implementation : ℕ
    pub invoker : ℕ
    pub a : Authority Key
    pub b : Authority Key
    pub deployed : IsDeployed lib authorizer invoked implementation t
    pub invoker_deployed : IsDeployed lib authorizer multi_delegation_invoker invoker t
    pub key_a : lib.key_of 1 ≡ answer a.key
    pub key_b : lib.key_of 2 ≡ answer b.key
    pub address_a : a.address ≡ lib.address_of a.key
    pub address_b : b.address ≡ lib.address_of b.key
    pub submitted :
        IsSubmitted lib authorizer chain implementation invoker a b 0 0
          (were_fresh a.address b.address)
          t

  pub delegate-IsDelegated :
      (chain : ℤ) (past : Trace (NodeCall Tx) NodeAnswer)
      → Ensures (OnSuccess (λ t u. IsDelegated chain t)) past (delegate lib authorizer chain)
  unfolding delegate
  delegate-IsDelegated chain past =
      let R : Trace (NodeCall Tx) NodeAnswer → Unit → Type 0 = λ t u. IsDelegated chain t in
      OnSuccess-bind (λ t account. IsDeployed lib authorizer invoked account t) R past
        (deploy lib authorizer invoked) _ (deploy-IsDeployed lib authorizer invoked past)
        λ t1 implementation w1 d1.
          OnSuccess-bind (λ t account. IsDeployed lib authorizer multi_delegation_invoker account t)
            R t1 (deploy lib authorizer multi_delegation_invoker) _
            (deploy-IsDeployed lib authorizer multi_delegation_invoker t1)
            λ t2 invoker w2 d2.
              OnSuccess-bind
                (λ t a. (lib.key_of 1 ≡ answer a.key) × (a.address ≡ lib.address_of a.key)) R t2
                (authority_with lib.address_of (lib.key_of 1)) _
                (authority_with-key lib.address_of (lib.key_of 1) t2)
                λ t3 a w3 k1.
                  OnSuccess-bind
                    (λ t b. (lib.key_of 2 ≡ answer b.key) × (b.address ≡ lib.address_of b.key)) R t3
                    (authority_with lib.address_of (lib.key_of 2)) _
                    (authority_with-key lib.address_of (lib.key_of 2) t3)
                    λ t4 b w4 k2.
                      OnSuccess-bind (λ t nonce. IsFresh [] a.address nonce t) R t4
                        (fresh_nonce a.address) _
                        (fresh_nonce-IsFresh [] a.address t4 (InOrder-nil t4))
                        λ t5 nonce_a w5 f1.
                          let first : List (Event (NodeCall Tx) NodeAnswer) =
                            (code_at a.address, answer [])
                            ∷ (pending_nonce_at a.address, answer 0)
                            ∷ [] in
                          OnSuccess-bind (λ t nonce. IsFresh first b.address nonce t) R t5
                            (fresh_nonce b.address) _
                            (fresh_nonce-IsFresh first b.address t5 f1.ordered)
                            λ t6 nonce_b w6 f2.
                              OnSuccess-weaken
                                (λ t u.
                                  IsSubmitted lib authorizer chain implementation invoker a b
                                    nonce_a nonce_b (were_fresh a.address b.address) t)
                                R t6
                                (submit lib authorizer chain implementation invoker a b nonce_a
                                  nonce_b)
                                (submit-IsSubmitted lib authorizer chain implementation invoker a b
                                  nonce_a nonce_b (were_fresh a.address b.address) t6 f2.ordered)
                                λ t7 u7 w7 s. record {
                                  implementation = implementation;
                                  invoker = invoker;
                                  a = a;
                                  b = b;
                                  deployed =
                                      IsDeployed-Extends lib authorizer invoked implementation t1 t7
                                        (λ e x. w7 e (w6 e (w5 e (w4 e (w3 e (w2 e x)))))) d1;
                                  invoker_deployed =
                                      IsDeployed-Extends lib authorizer multi_delegation_invoker
                                        invoker t2 t7 (λ e x. w7 e (w6 e (w5 e (w4 e (w3 e x)))))
                                        d2;
                                  key_a = k1.0;
                                  address_a = k1.1;
                                  key_b = k2.0;
                                  address_b = k2.1;
                                  submitted = rw (f1.zero_nonce, f2.zero_nonce) at s;
                                }
