-- ===== src/Public/Granted.antt =====
-- What the set-code program for the public test network has sent when it ends.
use blog_solutions.Prelude.{some, ℕ, ℤ, pos, ◌+ℤ◌, ◌≡◌, refl, [], ◌∷◌, inl, inr, Option}
use blog_solutions.Local.Program.{Trace, Ensures, Happened, on_end}
use blog_solutions.Local.Calls.{
  answer, Receipt, NodeCall, NodeAnswer, call_failed, connect, pending_nonce_at, suggest_gas_price,
  suggest_gas_tip_cap,
}
use blog_solutions.Local.Ethereum.{Ethereum}
use blog_solutions.Local.Success.{OnSuccess, OnSuccess-bind, OnSuccess-checked, OnSuccess-weaken}
use blog_solutions.Public.{Bytes, Holder, amoy_chain_id, broadcast}
use blog_solutions.Public.Listed.{IsBroadcast, broadcast-IsBroadcast}
use blog_solutions.Local.Blobs.{must}
use blog_solutions.Local.Blobs.Seals.{must-ok}
use blog_solutions.Prelude.{◌+◌, ◌%◌, word}
use blog_solutions.Local.Calls.{suggest_gas_price}
use blog_solutions.Public.{amoy_chain_id}
use blog_solutions.Public.SetCode.{
  invoker_address, SignedGrant, Batch, grant_of, sign_delegation, send_grants, eip7702_main,
}
use blog_solutions.Public.Signed.{
  grant_of-IsGrantOf, IsGrantOf, IsDelegationSig, sign_delegation-IsDelegationSig,
}

module _ {Tx Key : Type 0} (lib : Ethereum Tx Key) (batch : Batch Tx Key) where
  -- The transaction with both authorizations.
  pub record AreGrantsSent (acc1 acc2 : Holder Key) (data_of : Bytes) (base_nonce2 nonce1 : ℕ)
      (tip fee_cap : ℤ) (t : Trace (NodeCall Tx) NodeAnswer) (o : Option Receipt) : Type 0 where
    pub sig1 : Bytes
    pub sig2 : Bytes
    pub first : SignedGrant
    pub second : SignedGrant
    pub tip_word : ℕ
    pub cap_word : ℕ
    pub signed : Tx
    pub by_first : IsDelegationSig lib batch acc1.key nonce1 sig1
    pub by_second : IsDelegationSig lib batch acc2.key ((base_nonce2 + 1) % word) sig2
    pub first_grant : IsGrantOf nonce1 sig1 first
    pub second_grant : IsGrantOf ((base_nonce2 + 1) % word) sig2 second
    pub is_tip : lib.from_big tip ≡ some tip_word
    pub is_cap : lib.from_big fee_cap ≡ some cap_word
    pub is_signed :
        batch.sign_set_code (pos 80002) acc2.key (record {
          chain = 80002;
          nonce = base_nonce2;
          gas_tip_cap = tip_word;
          gas_fee_cap = cap_word;
          gas = 120000;
          to = 0x87581c71b3693062f4d3e34617c3919ec1abf39b;
          data_of = data_of;
          auth_list = first ∷ second ∷ [];
        })
        ≡ answer signed
    pub is_broadcast : IsBroadcast lib signed t o

  send_grants-AreGrantsSent :
      (acc1 acc2 : Holder Key) (data_of : Bytes) (base_nonce2 nonce1 : ℕ) (tip fee_cap : ℤ)
      (past : Trace (NodeCall Tx) NodeAnswer)
      → Ensures
          (OnSuccess (λ t o. AreGrantsSent acc1 acc2 data_of base_nonce2 nonce1 tip fee_cap t o))
          past
          (send_grants lib batch acc1 acc2 data_of base_nonce2 nonce1 tip fee_cap)
  unfolding send_grants
  send_grants-AreGrantsSent acc1 acc2 data_of base_nonce2 nonce1 tip fee_cap past =
      let R : Trace (NodeCall Tx) NodeAnswer → Option Receipt → Type 0 =
        λ t o. AreGrantsSent acc1 acc2 data_of base_nonce2 nonce1 tip fee_cap t o in
      let nonce2 = (base_nonce2 + 1) % word in
      OnSuccess-bind (λ t sig. IsDelegationSig lib batch acc2.key nonce2 sig) R past
        (sign_delegation lib batch acc2.key nonce2) _
        (sign_delegation-IsDelegationSig lib batch acc2.key nonce2 past)
        λ t1 sig2 w1 s2.
          OnSuccess-bind (λ t sig. IsDelegationSig lib batch acc1.key nonce1 sig) R t1
            (sign_delegation lib batch acc1.key nonce1) _
            (sign_delegation-IsDelegationSig lib batch acc1.key nonce1 t1)
            λ t2 sig1 w2 s1.
              OnSuccess-bind (λ t grant. IsGrantOf nonce2 sig2 grant) R t2 (grant_of nonce2 sig2) _
                (grant_of-IsGrantOf lib batch nonce2 sig2 t2)
                λ t3 second w3 g2.
                  OnSuccess-bind (λ t grant. IsGrantOf nonce1 sig1 grant) R t3
                    (grant_of nonce1 sig1) _ (grant_of-IsGrantOf lib batch nonce1 sig1 t3)
                    λ t4 first w4 g1.
                      OnSuccess-bind (λ t n. lib.from_big tip ≡ some n) R t4
                        (must (lib.from_big tip)) _ (must-ok (lib.from_big tip) t4)
                        λ t5 tip_word w5 i.
                          OnSuccess-bind (λ t n. lib.from_big fee_cap ≡ some n) R t5
                            (must (lib.from_big fee_cap)) _ (must-ok (lib.from_big fee_cap) t5)
                            λ t6 cap_word w6 c.
                              OnSuccess-checked R t6 call_failed
                                (batch.sign_set_code (pos amoy_chain_id) acc2.key (record {
                                  chain = amoy_chain_id;
                                  nonce = base_nonce2;
                                  gas_tip_cap = tip_word;
                                  gas_fee_cap = cap_word;
                                  gas = 120000;
                                  to = invoker_address;
                                  data_of = data_of;
                                  auth_list = first ∷ second ∷ [];
                                }))
                                _
                                λ signed e.
                                  OnSuccess-weaken (λ t o. IsBroadcast lib signed t o) R t6
                                    (broadcast lib signed) (broadcast-IsBroadcast lib signed t6)
                                    λ t o w b. record {
                                      sig1 = sig1;
                                      sig2 = sig2;
                                      first = first;
                                      second = second;
                                      tip_word = tip_word;
                                      cap_word = cap_word;
                                      signed = signed;
                                      by_first = s1;
                                      by_second = s2;
                                      first_grant = g1;
                                      second_grant = g2;
                                      is_tip = i;
                                      is_cap = c;
                                      is_signed = e;
                                      is_broadcast = b;
                                    }

  pub record AreGranted (acc1 acc2 : Holder Key) (t : Trace (NodeCall Tx) NodeAnswer)
      (o : Option Receipt) : Type 0 where
    pub data_of : Bytes
    pub base_nonce2 : ℕ
    pub nonce1 : ℕ
    pub tip : ℤ
    pub price : ℤ
    pub packed : batch.pack_trigger (acc1.address ∷ acc2.address ∷ []) ≡ answer data_of
    pub base_given : Happened (pending_nonce_at acc2.address, answer base_nonce2) t
    pub nonce_given : Happened (pending_nonce_at acc1.address, answer nonce1) t
    pub tip_given : Happened (suggest_gas_tip_cap, answer tip) t
    pub price_given : Happened (suggest_gas_price, answer price) t
    pub grants_sent : AreGrantsSent acc1 acc2 data_of base_nonce2 nonce1 tip (price +ℤ tip) t o

  pub eip7702_main-AreGranted :
      (acc1 acc2 : Holder Key) (past : Trace (NodeCall Tx) NodeAnswer)
      → Ensures
          (OnSuccess (λ t o. AreGranted acc1 acc2 t o))
          past
          (eip7702_main lib batch acc1 acc2)
  unfolding eip7702_main Ensures on_end
  eip7702_main-AreGranted acc1 acc2 past = λ dialled.
      let R : Trace (NodeCall Tx) NodeAnswer → Option Receipt → Type 0 =
        λ t o. AreGranted acc1 acc2 t o in
      let t1 = (connect, dialled) ∷ past in
      OnSuccess-checked R t1 call_failed dialled _ λ client e1.
        OnSuccess-checked R t1 call_failed (batch.pack_trigger (acc1.address ∷ acc2.address ∷ [])) _
          λ data_of p base_reply.
            let t2 = (pending_nonce_at acc2.address, base_reply) ∷ t1 in
            OnSuccess-checked R t2 call_failed base_reply _ λ base_nonce2 e2 nonce_reply.
              let t3 = (pending_nonce_at acc1.address, nonce_reply) ∷ t2 in
              OnSuccess-checked R t3 call_failed nonce_reply _ λ nonce1 e3 tip_reply.
                let t4 = (suggest_gas_tip_cap, tip_reply) ∷ t3 in
                OnSuccess-checked R t4 call_failed tip_reply _ λ tip e4 price_reply.
                  let t5 = (suggest_gas_price, price_reply) ∷ t4 in
                  OnSuccess-checked R t5 call_failed price_reply _ λ price e5.
                    OnSuccess-weaken
                      (λ t o.
                        AreGrantsSent acc1 acc2 data_of base_nonce2 nonce1 tip (price +ℤ tip) t o)
                      R t5
                      (send_grants lib batch acc1 acc2 data_of base_nonce2 nonce1 tip
                        (price +ℤ tip))
                      (send_grants-AreGrantsSent acc1 acc2 data_of base_nonce2 nonce1 tip
                        (price +ℤ tip) t5)
                      λ t o w g. record {
                        data_of = data_of;
                        base_nonce2 = base_nonce2;
                        nonce1 = nonce1;
                        tip = tip;
                        price = price;
                        packed = p;
                        base_given = w _ (inr (inr (inr (inl (rw e2 refl)))));
                        nonce_given = w _ (inr (inr (inl (rw e3 refl))));
                        tip_given = w _ (inr (inl (rw e4 refl)));
                        price_given = w _ (inl (rw e5 refl));
                        grants_sent = g;
                      }
