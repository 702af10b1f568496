-- ===== src/Public/Listed.antt =====
-- What the legacy and the EIP-2930 programs have sent when they end.
use blog_solutions.Prelude.{none, [], ℕ, ℤ, pos, ◌≡◌, refl, ◌∷◌, inl, inr, Option}
use blog_solutions.Local.Program.{Trace, Ensures, Happened, InOrder, on_end}
use blog_solutions.Local.Calls.{
  Reply, answer, Receipt, NodeCall, NodeAnswer, call_failed, submission_failed, connect,
  pending_nonce_at, suggest_gas_price, estimate_gas, send_transaction, transaction_receipt,
}
use blog_solutions.Local.Ethereum.{Ethereum}
use blog_solutions.Local.Success.{OnSuccess, OnSuccess-checked, OnSuccess-weaken}
use blog_solutions.Local.Token.{article_transfer}
use blog_solutions.Local.Submission.Paid.{IsTransfer, article_transfer-IsTransfer}
use blog_solutions.Public.Terms.{IsPrinted, reported-IsPrinted, call_of}
use blog_solutions.Public.{
  Bytes, Holder, amoy_chain_id, gas_limit, value_to_send, token_address, fixed_access_list, message,
  broadcast, legacy_main, eip2930_main,
}

module _ {Tx Key : Type 0} (lib : Ethereum Tx Key) where
  -- The node has taken the transaction, and has said of its receipt what is printed.
  pub record IsBroadcast (signed : Tx) (t : Trace (NodeCall Tx) NodeAnswer) (o : Option Receipt)
      : Type 0 where
    pub reply : Reply Receipt
    pub sent_and_asked :
        InOrder
          ((transaction_receipt (lib.hash signed), reply)
            ∷ (send_transaction signed, answer tt)
            ∷ [])
          t
    pub printed : IsPrinted reply o

  pub broadcast-IsBroadcast :
      (signed : Tx) (past : Trace (NodeCall Tx) NodeAnswer)
      → Ensures (OnSuccess (λ t o. IsBroadcast signed t o)) past (broadcast lib signed)
  unfolding broadcast Ensures on_end
  broadcast-IsBroadcast signed past = λ accepted.
      OnSuccess-checked (λ t o. IsBroadcast signed t o) ((send_transaction signed, accepted) ∷ past)
        submission_failed accepted _
        λ u e waited receipt. record {
          reply = receipt;
          sent_and_asked = inl (refl, inr (inl (rw e refl)));
          printed = reported-IsPrinted receipt;
        }

  -- A transfer of the value to the second account.
  pub record IsLegacySent (acc1 acc2 : Holder Key) (t : Trace (NodeCall Tx) NodeAnswer)
      (o : Option Receipt) : Type 0 where
    pub nonce : ℕ
    pub price : ℤ
    pub signed : Tx
    pub nonce_given : Happened (pending_nonce_at acc1.address, answer nonce) t
    pub price_given : Happened (suggest_gas_price, answer price) t
    pub is_signed :
        lib.sign_legacy (pos 80002) acc1.key (record {
          nonce = nonce;
          gas_price = price;
          gas = 21000;
          to = acc2.address;
          value = pos 10000000000000000;
        })
        ≡ answer signed
    pub is_broadcast : IsBroadcast signed t o

  pub legacy_main-IsLegacySent :
      (acc1 acc2 : Holder Key) (past : Trace (NodeCall Tx) NodeAnswer)
      → Ensures (OnSuccess (λ t o. IsLegacySent acc1 acc2 t o)) past (legacy_main lib acc1 acc2)
  unfolding legacy_main Ensures on_end
  legacy_main-IsLegacySent acc1 acc2 past = λ dialled.
      let R : Trace (NodeCall Tx) NodeAnswer → Option Receipt → Type 0 =
        λ t o. IsLegacySent acc1 acc2 t o in
      OnSuccess-checked R _ call_failed dialled _ λ client e1 nonce_reply.
        let t2 = (pending_nonce_at acc1.address, nonce_reply) ∷ (connect, dialled) ∷ past in
        OnSuccess-checked R t2 call_failed nonce_reply _ λ nonce e2 price_reply.
          let t3 = (suggest_gas_price, price_reply) ∷ t2 in
          OnSuccess-checked R t3 call_failed price_reply _ λ price e3.
            OnSuccess-checked R t3 call_failed
              (lib.sign_legacy (pos amoy_chain_id) acc1.key (record {
                nonce = nonce;
                gas_price = price;
                gas = gas_limit;
                to = acc2.address;
                value = value_to_send;
              }))
              _
              λ signed e4.
                OnSuccess-weaken (λ t o. IsBroadcast signed t o) R t3 (broadcast lib signed)
                  (broadcast-IsBroadcast signed t3)
                  λ t o w b. record {
                    nonce = nonce;
                    price = price;
                    signed = signed;
                    nonce_given = w _ (inr (inl (rw e2 refl)));
                    price_given = w _ (inl (rw e3 refl));
                    is_signed = e4;
                    is_broadcast = b;
                  }

  -- The transfer of the token, with the access list.
  pub record IsListSent (acc2 : Holder Key) (t : Trace (NodeCall Tx) NodeAnswer)
      (o : Option Receipt) : Type 0 where
    pub nonce : ℕ
    pub gas : ℕ
    pub price : ℤ
    pub payload : Bytes
    pub signed : Tx
    pub transfers : IsTransfer payload
    pub nonce_given : Happened (pending_nonce_at acc2.address, answer nonce) t
    pub price_given : Happened (suggest_gas_price, answer price) t
    pub gas_given :
        Happened
          (
            estimate_gas (
                call_of acc2.address 0x0fd9e8d3af1aaee056eb9e802c3a762a667b1904 none payload
                  fixed_access_list),
            answer gas,
          )
          t
    pub is_signed :
        lib.sign_access_list (pos 80002) acc2.key (record {
          chain = pos 80002;
          nonce = nonce;
          gas_price = price;
          gas = gas;
          to = 0x0fd9e8d3af1aaee056eb9e802c3a762a667b1904;
          value = pos 0;
          data_of = payload;
          access_list = fixed_access_list;
        })
        ≡ answer signed
    pub is_broadcast : IsBroadcast signed t o

  pub eip2930_main-IsListSent :
      (acc2 : Holder Key) (past : Trace (NodeCall Tx) NodeAnswer)
      → Ensures (OnSuccess (λ t o. IsListSent acc2 t o)) past (eip2930_main lib acc2)
  unfolding eip2930_main Ensures on_end
  eip2930_main-IsListSent acc2 past = λ dialled.
      let R : Trace (NodeCall Tx) NodeAnswer → Option Receipt → Type 0 =
        λ t o. IsListSent acc2 t o in
      OnSuccess-checked R _ call_failed dialled _ λ client e1 nonce_reply.
        let t2 = (pending_nonce_at acc2.address, nonce_reply) ∷ (connect, dialled) ∷ past in
        OnSuccess-checked R t2 call_failed nonce_reply _ λ nonce e2 price_reply.
          let t3 = (suggest_gas_price, price_reply) ∷ t2 in
          OnSuccess-checked R t3 call_failed price_reply _ λ price e3 gas_reply.
            let t4 = (estimate_gas (message acc2.address fixed_access_list), gas_reply) ∷ t3 in
            OnSuccess-checked R t4 call_failed gas_reply _ λ gas e4.
              OnSuccess-checked R t4 call_failed
                (lib.sign_access_list (pos amoy_chain_id) acc2.key (record {
                  chain = pos amoy_chain_id;
                  nonce = nonce;
                  gas_price = price;
                  gas = gas;
                  to = token_address;
                  value = pos 0;
                  data_of = article_transfer;
                  access_list = fixed_access_list;
                }))
                _
                λ signed e5.
                  OnSuccess-weaken (λ t o. IsBroadcast signed t o) R t4 (broadcast lib signed)
                    (broadcast-IsBroadcast signed t4)
                    λ t o w b. record {
                      nonce = nonce;
                      gas = gas;
                      price = price;
                      payload = article_transfer;
                      signed = signed;
                      transfers = article_transfer-IsTransfer;
                      nonce_given = w _ (inr (inr (inl (rw e2 refl))));
                      price_given = w _ (inr (inl (rw e3 refl)));
                      gas_given = w _ (inl (rw e4 refl));
                      is_signed = e5;
                      is_broadcast = b;
                    }
