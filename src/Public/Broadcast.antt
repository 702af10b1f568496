-- ===== src/Public/Broadcast.antt =====
-- What the dynamic-fee program has sent when it ends.
use blog_solutions.Prelude.{
  none, ℕ, ℤ, pos, ◌+ℤ◌, ◌≡◌, refl, List, [], ◌∷◌, inl, inr, Option, Outcome, ok, err, panic,
  out_of_fuel,
}
use blog_solutions.Local.Program.{Trace, Ensures, Happened, on_end, done}
use blog_solutions.Local.Calls.{
  Failure, answer, Receipt, NodeCall, NodeAnswer, call_failed, connect, pending_nonce_at,
  suggest_gas_tip_cap, fee_history, estimate_gas,
}
use blog_solutions.Local.Ethereum.{Ethereum}
use blog_solutions.Local.Success.{OnSuccess, OnSuccess-bind, OnSuccess-checked, OnSuccess-weaken}
use blog_solutions.Local.Token.{article_transfer}
use blog_solutions.Fees.Caps.{buffered, last_fee}
use blog_solutions.Local.Submission.Paid.{IsTransfer, article_transfer-IsTransfer}
use blog_solutions.Public.Terms.{
  call_of, IsHundredths, buffered-IsHundredths, IsLast, last_fee-IsLast,
}
use blog_solutions.Public.{
  Bytes, Holder, amoy_chain_id, token_address, message, broadcast, send_dynamic, eip1559_main,
}
use blog_solutions.Public.Listed.{IsBroadcast, broadcast-IsBroadcast}

module _ {Tx Key : Type 0} (lib : Ethereum Tx Key) where
  -- The transfer of the token, with the tip of the node and 112 hundredths of its last base fee.
  pub record IsDynamicSent (acc2 : Holder Key) (t : Trace (NodeCall Tx) NodeAnswer)
      (o : Option Receipt) : Type 0 where
    pub nonce : ℕ
    pub gas : ℕ
    pub tip : ℤ
    pub fees : List ℤ
    pub latest : ℤ
    pub hundredths : ℤ
    pub payload : Bytes
    pub signed : Tx
    pub transfers : IsTransfer payload
    pub nonce_given : Happened (pending_nonce_at acc2.address, answer nonce) t
    pub fees_given : Happened (fee_history, answer fees) t
    pub tip_given : Happened (suggest_gas_tip_cap, answer tip) t
    pub gas_given :
        Happened
          (
            estimate_gas
                (call_of acc2.address 0x0fd9e8d3af1aaee056eb9e802c3a762a667b1904 none payload []),
            answer gas,
          )
          t
    pub last : IsLast fees latest
    pub is_hundredths : IsHundredths latest hundredths
    pub is_signed :
        lib.sign_dynamic_fee (pos 80002) acc2.key (record {
          chain = pos 80002;
          nonce = nonce;
          gas_tip_cap = tip;
          gas_fee_cap = hundredths +ℤ tip;
          gas = gas;
          to = 0x0fd9e8d3af1aaee056eb9e802c3a762a667b1904;
          value = pos 0;
          data_of = payload;
        })
        ≡ answer signed
    pub is_broadcast : IsBroadcast lib signed t o

  pub done-ok :
      {A : Type 0} (o : Outcome Failure A) (past : Trace (NodeCall Tx) NodeAnswer)
      → Ensures (OnSuccess (λ t a. o ≡ ok a)) past (done o)
  unfolding Ensures
  done-ok (ok a) past = refl
  done-ok (err e) past = tt
  done-ok (panic p) past = tt
  done-ok out_of_fuel past = tt

  -- The part behind the fees.
  record IsDynamicSigned (acc2 : Holder Key) (nonce : ℕ) (tip fee_cap : ℤ)
      (t : Trace (NodeCall Tx) NodeAnswer) (o : Option Receipt) : Type 0 where
    gas : ℕ
    signed : Tx
    gas_given : Happened (estimate_gas (message acc2.address []), answer gas) t
    is_signed :
        lib.sign_dynamic_fee (pos amoy_chain_id) acc2.key (record {
          chain = pos amoy_chain_id;
          nonce = nonce;
          gas_tip_cap = tip;
          gas_fee_cap = fee_cap;
          gas = gas;
          to = token_address;
          value = pos 0;
          data_of = article_transfer;
        })
        ≡ answer signed
    is_broadcast : IsBroadcast lib signed t o

  send_dynamic-IsDynamicSigned :
      (acc2 : Holder Key) (nonce : ℕ) (tip fee_cap : ℤ) (past : Trace (NodeCall Tx) NodeAnswer)
      → Ensures
          (OnSuccess (λ t o. IsDynamicSigned acc2 nonce tip fee_cap t o))
          past
          (send_dynamic lib acc2 nonce tip fee_cap)
  unfolding send_dynamic Ensures on_end
  send_dynamic-IsDynamicSigned acc2 nonce tip fee_cap past = λ gas_reply.
      let R : Trace (NodeCall Tx) NodeAnswer → Option Receipt → Type 0 =
        λ t o. IsDynamicSigned acc2 nonce tip fee_cap t o in
      let t1 = (estimate_gas (message acc2.address []), gas_reply) ∷ past in
      OnSuccess-checked R t1 call_failed gas_reply _ λ gas e1.
        OnSuccess-checked R t1 call_failed
          (lib.sign_dynamic_fee (pos amoy_chain_id) acc2.key (record {
            chain = pos amoy_chain_id;
            nonce = nonce;
            gas_tip_cap = tip;
            gas_fee_cap = fee_cap;
            gas = gas;
            to = token_address;
            value = pos 0;
            data_of = article_transfer;
          }))
          _
          λ signed e2.
            OnSuccess-weaken (λ t o. IsBroadcast lib signed t o) R t1 (broadcast lib signed)
              (broadcast-IsBroadcast lib signed t1)
              λ t o w b. record {
                gas = gas;
                signed = signed;
                gas_given = w _ (inl (rw e1 refl));
                is_signed = e2;
                is_broadcast = b;
              }

  pub eip1559_main-IsDynamicSent :
      (acc2 : Holder Key) (past : Trace (NodeCall Tx) NodeAnswer)
      → Ensures (OnSuccess (λ t o. IsDynamicSent acc2 t o)) past (eip1559_main lib acc2)
  unfolding eip1559_main Ensures on_end
  eip1559_main-IsDynamicSent acc2 past = λ dialled.
      let R : Trace (NodeCall Tx) NodeAnswer → Option Receipt → Type 0 =
        λ t o. IsDynamicSent acc2 t o in
      OnSuccess-checked R _ call_failed dialled _ λ client e1 nonce_reply.
        let t2 = (pending_nonce_at acc2.address, nonce_reply) ∷ (connect, dialled) ∷ past in
        OnSuccess-checked R t2 call_failed nonce_reply _ λ nonce e2 history.
          let t3 = (fee_history, history) ∷ t2 in
          OnSuccess-checked R t3 call_failed history _ λ fees e3 tip_reply.
            let t4 = (suggest_gas_tip_cap, tip_reply) ∷ t3 in
            OnSuccess-checked R t4 call_failed tip_reply _ λ tip e4.
              OnSuccess-bind (λ t latest. last_fee {E = Failure} fees ≡ ok latest) R t4
                (done (last_fee fees)) _ (done-ok (last_fee fees) t4)
                λ t5 latest w5 l.
                  OnSuccess-weaken
                    (λ t o. IsDynamicSigned acc2 nonce tip (buffered latest +ℤ tip) t o) R t5
                    (send_dynamic lib acc2 nonce tip (buffered latest +ℤ tip))
                    (send_dynamic-IsDynamicSigned acc2 nonce tip (buffered latest +ℤ tip) t5)
                    λ t o w b. record {
                      nonce = nonce;
                      gas = b.gas;
                      tip = tip;
                      fees = fees;
                      latest = latest;
                      hundredths = buffered latest;
                      payload = article_transfer;
                      signed = b.signed;
                      transfers = article_transfer-IsTransfer;
                      nonce_given = w _ (w5 _ (inr (inr (inl (rw e2 refl)))));
                      fees_given = w _ (w5 _ (inr (inl (rw e3 refl))));
                      tip_given = w _ (w5 _ (inl (rw e4 refl)));
                      gas_given = b.gas_given;
                      last = last_fee-IsLast fees latest l;
                      is_hundredths = buffered-IsHundredths latest;
                      is_signed = b.is_signed;
                      is_broadcast = b.is_broadcast;
                    }
