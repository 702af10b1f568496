-- ===== src/Public/Sealed.antt =====
-- What the blob program for the public test network has sent when it ends.
use blog_solutions.Prelude.{
  [], arith, true, ◌≤◌, ltb, some, length, not, ℕ, ℤ, pos, ◌+ℤ◌, ◌≡◌, refl, List, ◌∷◌, inl, inr,
  Option, ok,
}
use blog_solutions.Local.Program.{Trace, Ensures, Happened, on_end, done}
use blog_solutions.Local.Calls.{
  content_too_large, Failure, Reply, answer, Receipt, NodeCall, NodeAnswer, call_failed, connect,
  pending_nonce_at, suggest_gas_tip_cap, fee_history, estimate_gas,
}
use blog_solutions.Local.Ethereum.{Ethereum}
use blog_solutions.Local.Success.{
  OnSuccess-require, OnSuccess, OnSuccess-bind, OnSuccess-checked, OnSuccess-weaken,
}
use blog_solutions.Fees.Caps.{buffered, last_fee}
use blog_solutions.Public.Terms.{
  call_of, IsHundredths, buffered-IsHundredths, IsLast, last_fee-IsLast, IsTextBlob,
  raw_blob-IsTextBlob,
}
use blog_solutions.Public.{Bytes, Holder, broadcast}
use blog_solutions.Public.Broadcast.{done-ok}
use blog_solutions.Public.Listed.{IsBroadcast, broadcast-IsBroadcast}
use blog_solutions.Local.Blobs.{content, blob_value, must}
use blog_solutions.Local.Blobs.Seals.{must-ok}
use blog_solutions.Public.Blobs.{
  sepolia_chain_id, value_message, raw_blob, blob_fields, send_sealed, send_blob, eip4844_main,
}

module _ {Tx Key : Type 0} (lib : Ethereum Tx Key) where
  -- A transaction with the text as its blob, on the terms of the node.
  pub record IsSealedSent (acc2 : Holder Key) (nonce : ℕ) (tip fee_cap : ℤ)
      (payload commitment proof : Bytes) (t : Trace (NodeCall Tx) NodeAnswer) (o : Option Receipt)
      : Type 0 where
    pub gas : ℕ
    pub tip_word : ℕ
    pub cap_word : ℕ
    pub value_word : ℕ
    pub signed : Tx
    pub gas_given :
        Happened
          (
            estimate_gas (
                call_of acc2.address 0x7F8b1ca29F95274E06367b60fC4a539E4910FD0c
                  (some (pos 100000000000000))
                  []
                  []),
            answer gas,
          )
          t
    pub is_tip : lib.from_big tip ≡ some tip_word
    pub is_cap : lib.from_big fee_cap ≡ some cap_word
    pub is_value : lib.from_big (pos 100000000000000) ≡ some value_word
    pub is_signed :
        lib.sign_blob (pos 11155111) acc2.key (record {
          chain = 11155111;
          nonce = nonce;
          gas_tip_cap = tip_word;
          gas_fee_cap = cap_word;
          gas = gas;
          to = 0x7F8b1ca29F95274E06367b60fC4a539E4910FD0c;
          value = value_word;
          blob_fee_cap = 2000000;
          blob_hashes = lib.blob_hash commitment ∷ [];
          sidecar = record { blob = payload; commitment = commitment; proof = proof };
        })
        ≡ answer signed
    pub is_broadcast : IsBroadcast lib signed t o

  send_sealed-IsSealedSent :
      (acc2 : Holder Key) (nonce : ℕ) (tip fee_cap : ℤ) (payload commitment proof : Bytes)
      (past : Trace (NodeCall Tx) NodeAnswer)
      → Ensures
          (OnSuccess (λ t o. IsSealedSent acc2 nonce tip fee_cap payload commitment proof t o))
          past
          (send_sealed lib acc2 nonce tip fee_cap payload commitment proof)
  unfolding send_sealed Ensures on_end
  send_sealed-IsSealedSent acc2 nonce tip fee_cap payload commitment proof past =
      let R : Trace (NodeCall Tx) NodeAnswer → Option Receipt → Type 0 =
        λ t o. IsSealedSent acc2 nonce tip fee_cap payload commitment proof t o in
      OnSuccess-bind (λ t n. lib.from_big blob_value ≡ some n) R past
        (must (lib.from_big blob_value)) _ (must-ok (lib.from_big blob_value) past)
        λ t1 value w1 v gas_reply.
          let t2 = (estimate_gas (value_message acc2.address), gas_reply) ∷ t1 in
          OnSuccess-checked R t2 call_failed gas_reply _ λ gas e1.
            OnSuccess-bind (λ t n. lib.from_big tip ≡ some n) R t2 (must (lib.from_big tip)) _
              (must-ok (lib.from_big tip) t2)
              λ t3 tip_word w3 i.
                OnSuccess-bind (λ t n. lib.from_big fee_cap ≡ some n) R t3
                  (must (lib.from_big fee_cap)) _ (must-ok (lib.from_big fee_cap) t3)
                  λ t4 cap_word w4 c.
                    OnSuccess-checked R t4 call_failed
                      (lib.sign_blob (pos sepolia_chain_id) acc2.key (
                        blob_fields lib nonce tip_word cap_word gas value payload commitment proof))
                      _
                      λ signed e2.
                        OnSuccess-weaken (λ t o. IsBroadcast lib signed t o) R t4
                          (broadcast lib signed) (broadcast-IsBroadcast lib signed t4)
                          λ t o w b. record {
                            gas = gas;
                            tip_word = tip_word;
                            cap_word = cap_word;
                            value_word = value;
                            signed = signed;
                            gas_given = w _ (w4 _ (w3 _ (inl (rw e1 refl))));
                            is_tip = i;
                            is_cap = c;
                            is_value = v;
                            is_signed = e2;
                            is_broadcast = b;
                          }

  pub record IsBlobSent (size : ℕ) (acc2 : Holder Key) (t : Trace (NodeCall Tx) NodeAnswer)
      (o : Option Receipt) : Type 0 where
    pub nonce : ℕ
    pub tip : ℤ
    pub latest : ℤ
    pub fees : List ℤ
    pub hundredths : ℤ
    pub payload : Bytes
    pub commitment : Bytes
    pub proof : Bytes
    pub nonce_given : Happened (pending_nonce_at acc2.address, answer nonce) t
    pub tip_given : Happened (suggest_gas_tip_cap, answer tip) t
    pub fees_given : Happened (fee_history, answer fees) t
    pub last : IsLast fees latest
    pub is_hundredths : IsHundredths latest hundredths
    pub fits : length content ≤ size
    pub is_text : IsTextBlob size payload
    pub committed : lib.blob_to_commitment payload ≡ answer commitment
    pub proved : lib.compute_blob_proof payload commitment ≡ answer proof
    pub sealed_sent : IsSealedSent acc2 nonce tip (hundredths +ℤ tip) payload commitment proof t o

  record IsProved (size : ℕ) (acc2 : Holder Key) (nonce : ℕ) (tip fee_cap : ℤ)
      (t : Trace (NodeCall Tx) NodeAnswer) (o : Option Receipt) : Type 0 where
    commitment : Bytes
    proof : Bytes
    fits : length content ≤ size
    committed : lib.blob_to_commitment (raw_blob size) ≡ answer commitment
    proved : lib.compute_blob_proof (raw_blob size) commitment ≡ answer proof
    sealed_sent : IsSealedSent acc2 nonce tip fee_cap (raw_blob size) commitment proof t o

  fits-le : (m n : ℕ) → not (ltb n m) ≡ true → m ≤ n
  fits-le m n e = ground arith

  send_blob-IsProved :
      (size : ℕ) (acc2 : Holder Key) (nonce : ℕ) (tip fee_cap : ℤ)
      (past : Trace (NodeCall Tx) NodeAnswer)
      → Ensures
          (OnSuccess (λ t o. IsProved size acc2 nonce tip fee_cap t o))
          past
          (send_blob lib size acc2 nonce tip fee_cap)
  unfolding send_blob
  send_blob-IsProved size acc2 nonce tip fee_cap past =
      let R : Trace (NodeCall Tx) NodeAnswer → Option Receipt → Type 0 =
        λ t o. IsProved size acc2 nonce tip fee_cap t o in
      OnSuccess-require R past (not (ltb size (length content))) content_too_large _ λ f.
        OnSuccess-checked R past call_failed (lib.blob_to_commitment (raw_blob size)) _
          λ commitment c.
            OnSuccess-checked R past call_failed (lib.compute_blob_proof (raw_blob size) commitment)
              _
              λ proof p.
                OnSuccess-weaken
                  (λ t o. IsSealedSent acc2 nonce tip fee_cap (raw_blob size) commitment proof t o)
                  R past (send_sealed lib acc2 nonce tip fee_cap (raw_blob size) commitment proof)
                  (send_sealed-IsSealedSent acc2 nonce tip fee_cap (raw_blob size) commitment proof
                    past)
                  λ t o w s. record {
                    commitment = commitment;
                    proof = proof;
                    fits = fits-le (length content) size f;
                    committed = c;
                    proved = p;
                    sealed_sent = s;
                  }

  pub eip4844_main-IsBlobSent :
      (size : ℕ) (setup : Reply Unit) (acc2 : Holder Key) (past : Trace (NodeCall Tx) NodeAnswer)
      → Ensures
          (OnSuccess (λ t o. IsBlobSent size acc2 t o))
          past
          (eip4844_main lib size setup acc2)
  unfolding eip4844_main Ensures on_end
  eip4844_main-IsBlobSent size setup acc2 past =
      let R : Trace (NodeCall Tx) NodeAnswer → Option Receipt → Type 0 =
        λ t o. IsBlobSent size acc2 t o in
      OnSuccess-checked R past call_failed setup _ λ loaded e0 dialled.
        OnSuccess-checked R _ call_failed dialled _ λ client e1 nonce_reply.
          let t2 = (pending_nonce_at acc2.address, nonce_reply) ∷ (connect, dialled) ∷ past in
          OnSuccess-checked R t2 call_failed nonce_reply _ λ nonce e2 tip_reply.
            let t3 = (suggest_gas_tip_cap, tip_reply) ∷ t2 in
            OnSuccess-checked R t3 call_failed tip_reply _ λ tip e3 history.
              let t4 = (fee_history, history) ∷ t3 in
              OnSuccess-checked R t4 call_failed history _ λ fees e4.
                OnSuccess-bind (λ t latest. last_fee {E = Failure} fees ≡ ok latest) R t4
                  (done (last_fee fees)) _ (done-ok lib (last_fee fees) t4)
                  λ t5 latest w5 l.
                    OnSuccess-weaken
                      (λ t o. IsProved size acc2 nonce tip (buffered latest +ℤ tip) t o) R t5
                      (send_blob lib size acc2 nonce tip (buffered latest +ℤ tip))
                      (send_blob-IsProved size acc2 nonce tip (buffered latest +ℤ tip) t5)
                      λ t o w b. record {
                        nonce = nonce;
                        tip = tip;
                        latest = latest;
                        fees = fees;
                        hundredths = buffered latest;
                        payload = raw_blob size;
                        commitment = b.commitment;
                        proof = b.proof;
                        nonce_given = w _ (w5 _ (inr (inr (inl (rw e2 refl)))));
                        tip_given = w _ (w5 _ (inr (inl (rw e3 refl))));
                        fees_given = w _ (w5 _ (inl (rw e4 refl)));
                        last = last_fee-IsLast fees latest l;
                        is_hundredths = buffered-IsHundredths latest;
                        fits = b.fits;
                        is_text = raw_blob-IsTextBlob size b.fits;
                        committed = b.committed;
                        proved = b.proved;
                        sealed_sent = b.sealed_sent;
                      }
