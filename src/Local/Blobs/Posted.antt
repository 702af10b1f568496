-- ===== src/Local/Blobs/Posted.antt =====
-- A successful transaction of the blob article.
use blog_solutions.Prelude.{length, ◌-◌, ◌++◌, ◌*◌, ℕ, ℤ, ◌≡◌, [], ok, ◌==◌}
use blog_solutions.Local.Program.{Trace, World, exec, Ensures}
use blog_solutions.Local.Calls.{Receipt, blob_receipt_mismatch, NodeCall, NodeAnswer}
use blog_solutions.Local.Ethereum.{Ethereum}
use blog_solutions.Local.Success.{
  OnSuccess, OnSuccess-bind, OnSuccess-require, OnSuccess-weaken, OnSuccess-exec,
}
use blog_solutions.Local.Transact.{Kind, Account, Envelope, prepare, check_envelope}
use blog_solutions.Local.Transact.Effects.{
  equal-eq, IsPrepared, prepare-IsPrepared, IsRecovered, check_envelope-IsRecovered,
}
use blog_solutions.Local.Transact.Done.{IsDone-Extends, IsDone, submission-IsDone}
use blog_solutions.Local.Blobs.{content, is_priced, sign_kind, check_blob, submit, transact}
use blog_solutions.Blob.FieldElements.{zeros}
use blog_solutions.Blob.Unpacking.{unpack, unpack-pack_blob}
use blog_solutions.Local.Blobs.Seals.{
  check_hashes-IsSameHash, IsSameHash, IsPriced, is_priced-IsPriced, IsSealed, sign_kind-IsSealed,
}

module _ {Tx Key : Type 0} (lib : Ethereum Tx Key) where
  -- What the program has read of the blob behind the submission.
  pub record IsCharged (signed observed : Tx) (receipt : Receipt) : Type 0 where
    pub used : receipt.blob_gas_used ≡ 131072
    pub price : IsPriced (lib.blob_gas_fee_cap signed) receipt.blob_gas_price
    pub hash : IsSameHash (lib.blob_hashes observed) (lib.blob_hashes signed)

  check_blob-IsCharged :
      (signed observed : Tx) (receipt : Receipt) (past : Trace (NodeCall Tx) NodeAnswer)
      → Ensures
          (OnSuccess (λ t u. IsCharged signed observed receipt))
          past
          (check_blob lib signed receipt observed)
  unfolding check_blob
  check_blob-IsCharged signed observed receipt past =
      let R : Trace (NodeCall Tx) NodeAnswer → Unit → Type 0 =
        λ t u. IsCharged signed observed receipt in
      OnSuccess-require R past (receipt.blob_gas_used == 131072) blob_receipt_mismatch _ λ e1.
        OnSuccess-require R past (is_priced (lib.blob_gas_fee_cap signed) receipt.blob_gas_price)
          blob_receipt_mismatch _
          λ e2.
            OnSuccess-weaken (λ t u. IsSameHash (lib.blob_hashes observed) (lib.blob_hashes signed))
              R past _
              (check_hashes-IsSameHash (lib.blob_hashes observed) (lib.blob_hashes signed) past)
              λ t u w h. record {
                used = equal-eq receipt.blob_gas_used 131072 e1;
                price = is_priced-IsPriced _ receipt.blob_gas_price e2;
                hash = h;
              }

  -- What the program has established of the blob.
  pub record IsPosted (size : ℕ) (chain : ℤ) (t : Trace (NodeCall Tx) NodeAnswer) : Type 0 where
    pub account : Account Key
    pub envelope : Envelope Tx
    pub receipt : Receipt
    pub observed : Tx
    pub prepared : IsPrepared lib 1 t account
    pub seal : IsSealed lib size chain account envelope
    pub recovered : IsRecovered lib chain account envelope.signed
    pub is_done : IsDone lib account envelope t receipt observed
    pub charged : IsCharged envelope.signed observed receipt

  submit-IsCharged :
      (polls : ℕ) (account : Account Key) (envelope : Envelope Tx)
      (past : Trace (NodeCall Tx) NodeAnswer)
      → Ensures
          (OnSuccess (λ t u.
            (receipt : Receipt) × (observed : Tx) × IsDone lib account envelope t receipt observed
            × IsCharged envelope.signed observed receipt))
          past
          (submit lib polls account envelope)
  unfolding submit
  submit-IsCharged polls account envelope past =
      let R : Trace (NodeCall Tx) NodeAnswer → Unit → Type 0 = λ t u.
        (receipt : Receipt) × (observed : Tx) × IsDone lib account envelope t receipt observed
        × IsCharged envelope.signed observed receipt in
      submission-IsDone lib polls account envelope
        (λ receipt observed. check_blob lib envelope.signed receipt observed) R past
        λ t receipt observed d.
          OnSuccess-weaken (λ u v. IsCharged envelope.signed observed receipt) R t _
            (check_blob-IsCharged envelope.signed observed receipt t)
            λ u v w c.
              (receipt, observed, IsDone-Extends lib account envelope t u receipt observed w d, c)

  transact-IsPosted :
      (polls size : ℕ) (chain : ℤ) (kind : Kind) (past : Trace (NodeCall Tx) NodeAnswer)
      → Ensures (OnSuccess (λ t u. IsPosted size chain t)) past (transact lib polls size chain kind)
  unfolding transact
  transact-IsPosted polls size chain kind past =
      let R : Trace (NodeCall Tx) NodeAnswer → Unit → Type 0 = λ t u. IsPosted size chain t in
      OnSuccess-bind (IsPrepared lib 1) R past (prepare lib 1) _ (prepare-IsPrepared lib 1 past)
        λ t1 account w1 p.
          OnSuccess-bind (λ t envelope. IsSealed lib size chain account envelope) R t1
            (sign_kind lib size chain account kind) _
            (sign_kind-IsSealed lib size chain account kind t1)
            λ t2 envelope w2 s.
              OnSuccess-bind (λ t u. IsRecovered lib chain account envelope.signed) R t2
                (check_envelope lib chain account envelope) _
                (check_envelope-IsRecovered lib chain account envelope t2)
                λ t3 u w3 r.
                  OnSuccess-weaken
                    (λ t u.
                      (receipt : Receipt) × (observed : Tx) × IsDone lib account envelope t receipt
                        observed
                      × IsCharged envelope.signed observed receipt)
                    R t3 _ (submit-IsCharged polls account envelope t3)
                    λ t v w4 d. record {
                      account = account;
                      envelope = envelope;
                      receipt = d.0;
                      observed = d.1;
                      seal = s;
                      recovered = r;
                      is_done = d.2;
                      charged = d.3;
                      prepared = record {
                        key = p.key;
                        from = p.from;
                        nonce = w4 _ (w3 _ (w2 _ p.nonce));
                      };
                    }

  -- Whatever the node answers, when `transact` of the blob article returns no error, for a blob of
  -- `n` field elements, then: a transaction was sent that reads back as signed by the account of
  -- key 1 with the nonce that the node had given; its sidecar has a blob from which the text is
  -- read back whole, a commitment to it and a proof that go-ethereum has verified, and its one blob
  -- hash is that of the commitment; its receipt has status 1, its type and its hash, 131072 of blob
  -- gas and a blob gas price above zero and not above the transaction's cap; and the mined
  -- transaction has one blob hash, the first of the one sent.
  pub transact_posts :
      (world : World (NodeCall Tx) NodeAnswer) (polls n : ℕ) (chain : ℤ) (kind : Kind)
      → (exec world [] (transact lib polls (32 * n) chain kind)).1 ≡ ok tt
      → (p : IsPosted (32 * n) chain (exec world [] (transact lib polls (32 * n) chain kind)).0)
        × (unpack n p.seal.payload ≡ content ++ zeros (31 * n - length content))
  transact_posts world polls n chain kind e =
      let p =
        OnSuccess-exec (λ t u. IsPosted (32 * n) chain t) world [] _ tt
          (transact-IsPosted polls (32 * n) chain kind []) e in
      (p, unpack-pack_blob n content p.seal.payload p.seal.packing)
