-- ===== src/Local/Blobs/Seals.antt =====
-- What the signing of a blob transaction establishes.
use blog_solutions.Prelude.{
  ℕ, ℤ, pos, ◌≡◌, refl, true, false, not, less_int, List, [], ◌∷◌, Option, none, some, Outcome, ok,
  err, panic, out_of_fuel, ◌==◌,
}
use blog_solutions.Rlp.Item.{Bytes}
use blog_solutions.Blob.Packing.{PackError, pack_blob}
use blog_solutions.Local.Program.{done, Trace, Ensures, on_end}
use blog_solutions.Local.Calls.{answer, call_failed, blob_receipt_mismatch, NodeCall, NodeAnswer}
use blog_solutions.Local.Ethereum.{Ethereum, BlobTx}
use blog_solutions.Local.Success.{
  OnSuccess, OnSuccess-bind, OnSuccess-checked, OnSuccess-always, require-OnSuccess,
}
use blog_solutions.Local.Transact.{
  Kind, legacy, access, dynamic, blob, other_kind, Account, Envelope,
}
use blog_solutions.Local.Transact.Effects.{equal-eq, and_both}
use blog_solutions.Local.Blobs.{
  filled, panic, err, Outcome, content, blob_recipient, blob_value, packed, must, check_hashes,
  is_priced, blob_tx, sign_payload, sign_blob, sign_kind,
}
use blog_solutions.Fees.Caps.{fee_caps}

-- One hash is observed, and it is the first of the signed transaction.
pub record IsSameHash (observed signed : List ℕ) : Type 0 where
  pub hash : ℕ
  pub others : List ℕ
  pub mined : observed ≡ hash ∷ []
  pub sent : signed ≡ hash ∷ others

module _ {Tx : Type 0} where
  pub packed-ok :
      (o : Outcome PackError Bytes) (past : Trace (NodeCall Tx) NodeAnswer)
      → Ensures (OnSuccess (λ t payload. o ≡ ok payload)) past (packed {Tx = Tx} o)
  unfolding packed Ensures
  packed-ok (ok payload) past = refl
  packed-ok (err e) past = tt
  packed-ok (panic p) past = tt
  packed-ok out_of_fuel past = tt

  pub must-ok :
      (o : Option ℕ) (past : Trace (NodeCall Tx) NodeAnswer)
      → Ensures (OnSuccess (λ t n. o ≡ some n)) past (must {Tx = Tx} o)
  unfolding must Ensures
  must-ok none past = tt
  must-ok (some n) past = refl

  pub check_hashes-IsSameHash :
      (observed signed : List ℕ) (past : Trace (NodeCall Tx) NodeAnswer)
      → Ensures
          (OnSuccess (λ t u. IsSameHash observed signed))
          past
          (check_hashes {Tx = Tx} observed signed)
  unfolding check_hashes Ensures
  check_hashes-IsSameHash [] signed past = tt
  check_hashes-IsSameHash (h ∷ []) [] past = tt
  check_hashes-IsSameHash (h ∷ []) (k ∷ ks) past =
      require-OnSuccess past (λ t u. IsSameHash (h ∷ []) (k ∷ ks)) (h == k) blob_receipt_mismatch
        λ e. record { hash = h; others = ks; mined = refl; sent = rw (equal-eq h k e) refl }
  check_hashes-IsSameHash (h ∷ i ∷ hs) signed past = tt

-- A price above zero and not above the cap.
pub record IsPriced (fee_cap : ℤ) (o : Option ℤ) : Type 0 where
  pub price : ℤ
  pub named : o ≡ some price
  pub positive : less_int (pos 0) price ≡ true
  pub within : not (less_int fee_cap price) ≡ true

pub is_priced-IsPriced :
    (fee_cap : ℤ) (o : Option ℤ) → is_priced fee_cap o ≡ true → IsPriced fee_cap o
unfolding is_priced
is_priced-IsPriced fee_cap none e = absurd cc
is_priced-IsPriced fee_cap (some price) e =
    let both = and_both (less_int (pos 0) price) (not (less_int fee_cap price)) e in
    record { price = price; named = refl; positive = both.0; within = both.1 }

module _ {Tx Key : Type 0} (lib : Ethereum Tx Key) where
  -- A transaction whose blob holds the text and has a proof that go-ethereum verifies.
  pub record IsSealed (size : ℕ) (chain : ℤ) (account : Account Key) (envelope : Envelope Tx)
      : Type 0 where
    pub payload : Bytes
    pub commitment : Bytes
    pub proof : Bytes
    pub tx : BlobTx
    pub to : envelope.to ≡ blob_recipient
    pub value : envelope.value ≡ blob_value
    pub packing : pack_blob size content ≡ ok payload
    pub committed : lib.blob_to_commitment payload ≡ answer commitment
    pub verified : lib.verify_blob_proof payload commitment proof ≡ answer tt
    pub nonce : tx.nonce ≡ account.nonce
    pub hashes : tx.blob_hashes ≡ lib.blob_hash commitment ∷ []
    pub sidecar : tx.sidecar ≡ record { blob = payload; commitment = commitment; proof = proof }
    pub signed : lib.sign_blob chain account.key tx ≡ answer envelope.signed

  -- The fields of the transaction that do not come from the node.
  pub record IsFilled (nonce : ℕ) (payload commitment proof : Bytes) (tx : BlobTx) : Type 0 where
    nonce_of : tx.nonce ≡ nonce
    hashes : tx.blob_hashes ≡ lib.blob_hash commitment ∷ []
    sidecar : tx.sidecar ≡ record { blob = payload; commitment = commitment; proof = proof }

  pub blob_tx-IsFilled :
      (chain : ℤ) (nonce : ℕ) (tip fee_cap : ℤ) (gas : ℕ) (payload commitment proof : Bytes)
      (past : Trace (NodeCall Tx) NodeAnswer)
      → Ensures
          (OnSuccess (λ t tx. IsFilled nonce payload commitment proof tx))
          past
          (blob_tx lib chain nonce tip fee_cap gas payload commitment proof)
  unfolding blob_tx
  blob_tx-IsFilled chain nonce tip fee_cap gas payload commitment proof past =
      let R : Trace (NodeCall Tx) NodeAnswer → BlobTx → Type 0 =
        λ t tx. IsFilled nonce payload commitment proof tx in
      OnSuccess-bind (λ t n. Unit) R past (must (lib.from_big chain)) _
        (OnSuccess-always past (must (lib.from_big chain)))
        λ t1 c w1 u1.
          OnSuccess-bind (λ t n. Unit) R t1 (must (lib.from_big tip)) _
            (OnSuccess-always t1 (must (lib.from_big tip)))
            λ t2 i w2 u2.
              OnSuccess-bind (λ t n. Unit) R t2 (must (lib.from_big fee_cap)) _
                (OnSuccess-always t2 (must (lib.from_big fee_cap)))
                λ t3 f w3 u3.
                  OnSuccess-bind (λ t n. Unit) R t3 (must (lib.from_big blob_value))
                    (λ v. done (ok (filled lib c nonce i f gas v payload commitment proof)))
                    (OnSuccess-always t3 (must (lib.from_big blob_value)))
                    λ t4 v w4 u4.
                      unfold Ensures in record { nonce_of = refl; hashes = refl; sidecar = refl }

  pub sign_payload-IsSealed :
      (size : ℕ) (chain : ℤ) (account : Account Key) (payload commitment proof : Bytes)
      (past : Trace (NodeCall Tx) NodeAnswer)
      → pack_blob size content ≡ ok payload
      → lib.blob_to_commitment payload ≡ answer commitment
      → lib.verify_blob_proof payload commitment proof ≡ answer tt
      → Ensures
          (OnSuccess (λ t envelope. IsSealed size chain account envelope))
          past
          (sign_payload lib chain account payload commitment proof)
  unfolding sign_payload Ensures on_end
  sign_payload-IsSealed size chain account payload commitment proof past p c v =
      let R : Trace (NodeCall Tx) NodeAnswer → Envelope Tx → Type 0 =
        λ t envelope. IsSealed size chain account envelope in
      OnSuccess-bind (λ t caps. Unit) R past fee_caps _ (OnSuccess-always past fee_caps)
        λ t1 caps w1 u1 estimated. OnSuccess-checked R _ call_failed estimated _ λ gas e1.
          OnSuccess-bind (λ t tx. IsFilled account.nonce payload commitment proof tx) R _
            (blob_tx lib chain account.nonce caps.0 caps.1 gas payload commitment proof) _
            (blob_tx-IsFilled chain account.nonce caps.0 caps.1 gas payload commitment proof _)
            λ t2 tx w2 f.
              OnSuccess-checked R t2 call_failed (lib.sign_blob chain account.key tx) _ λ signed e2.
                record {
                  payload = payload;
                  commitment = commitment;
                  proof = proof;
                  tx = tx;
                  to = refl;
                  value = refl;
                  packing = p;
                  committed = c;
                  verified = v;
                  nonce = f.nonce_of;
                  hashes = f.hashes;
                  sidecar = f.sidecar;
                  signed = e2;
                }

  pub sign_blob-IsSealed :
      (size : ℕ) (chain : ℤ) (account : Account Key) (past : Trace (NodeCall Tx) NodeAnswer)
      → Ensures
          (OnSuccess (λ t envelope. IsSealed size chain account envelope))
          past
          (sign_blob lib size chain account)
  unfolding sign_blob
  sign_blob-IsSealed size chain account past =
      let R : Trace (NodeCall Tx) NodeAnswer → Envelope Tx → Type 0 =
        λ t envelope. IsSealed size chain account envelope in
      OnSuccess-checked R past call_failed (lib.use_ckzg false) _ λ chosen e1.
        OnSuccess-bind (λ t payload. pack_blob size content ≡ ok payload) R past
          (packed (pack_blob size content)) _ (packed-ok (pack_blob size content) past)
          λ t payload w p.
            OnSuccess-checked R t call_failed (lib.blob_to_commitment payload) _ λ commitment c.
              OnSuccess-checked R t call_failed (lib.compute_blob_proof payload commitment) _
                λ proof e2.
                  OnSuccess-checked R t call_failed (lib.verify_blob_proof payload commitment proof)
                    _
                    λ u v. sign_payload-IsSealed size chain account payload commitment proof t p c v

  pub sign_kind-IsSealed :
      (size : ℕ) (chain : ℤ) (account : Account Key) (kind : Kind)
      (past : Trace (NodeCall Tx) NodeAnswer)
      → Ensures
          (OnSuccess (λ t envelope. IsSealed size chain account envelope))
          past
          (sign_kind lib size chain account kind)
  unfolding sign_kind
  sign_kind-IsSealed size chain account blob past = sign_blob-IsSealed size chain account past
  sign_kind-IsSealed size chain account legacy past = unfold Ensures in tt
  sign_kind-IsSealed size chain account access past = unfold Ensures in tt
  sign_kind-IsSealed size chain account dynamic past = unfold Ensures in tt
  sign_kind-IsSealed size chain account other_kind past = unfold Ensures in tt
