-- ===== src/Local/Transact/Transfer.antt =====
-- A successful `transact` of the legacy article.
use blog_solutions.Prelude.{Bool, ◌∷◌, ℕ, ◌+◌, ◌%◌, ◌≡◌, refl, [], ℤ, pos, ◌-ℤ◌, true, ok, word}
use blog_solutions.Local.Program.{Trace, World, exec, Ensures, InOrder, on_end}
use blog_solutions.Local.Calls.{
  answer, Receipt, call_failed, NodeCall, NodeAnswer, pending_nonce_at, balance_at,
  send_transaction, transaction_receipt, transaction_by_hash,
}
use blog_solutions.Local.Ethereum.{Ethereum}
use blog_solutions.Local.Success.{
  OnSuccess, OnSuccess-bind, OnSuccess-checked, OnSuccess-weaken, OnSuccess-exec,
}
use blog_solutions.Local.Transact.{
  Kind, legacy, access, dynamic, blob, other_kind, Account, Envelope, prepare, recipient, sign_kind,
  check_envelope, is_received, transact,
}
use blog_solutions.Local.Transact.Effects.{
  equal_int_eq, IsPrepared, prepare-IsPrepared, IsRecovered, check_envelope-IsRecovered,
}
use blog_solutions.Local.Transact.Done.{IsConfirmed, IsDone, submit-IsDone}

module _ {Tx Key : Type 0} (lib : Ethereum Tx Key) where
  -- What the envelope of the article says.
  record IsOrdered (chain : ℤ) (account : Account Key) (envelope : Envelope Tx) : Type 0 where
    price : ℤ
    to : envelope.to ≡ recipient
    value : envelope.value ≡ pos 10000000000000000
    signed :
        lib.sign_legacy chain account.key (record {
          nonce = account.nonce;
          gas_price = price;
          gas = 21000;
          to = recipient;
          value = pos 10000000000000000;
        })
        ≡ answer envelope.signed

  sign_kind-IsOrdered :
      (chain : ℤ) (account : Account Key) (kind : Kind) (past : Trace (NodeCall Tx) NodeAnswer)
      → Ensures
          (OnSuccess (λ t envelope. IsOrdered chain account envelope))
          past
          (sign_kind lib chain account kind)
  unfolding sign_kind Ensures on_end
  sign_kind-IsOrdered chain account legacy past = λ reply.
      OnSuccess-checked (λ t envelope. IsOrdered chain account envelope) _ call_failed reply _
        λ price e.
          OnSuccess-checked (λ t envelope. IsOrdered chain account envelope) _ call_failed
            (lib.sign_legacy chain account.key (record {
              nonce = account.nonce;
              gas_price = price;
              gas = 21000;
              to = recipient;
              value = pos 10000000000000000;
            }))
            _ λ signed f. record { price = price; to = refl; value = refl; signed = f }
  sign_kind-IsOrdered chain account access past = tt
  sign_kind-IsOrdered chain account dynamic past = tt
  sign_kind-IsOrdered chain account blob past = tt
  sign_kind-IsOrdered chain account other_kind past = tt

  -- What the node has said of a transfer of the article.
  pub record IsTransferred (chain : ℤ) (t : Trace (NodeCall Tx) NodeAnswer) : Type 0 where
    pub account : Account Key
    pub signed : Tx
    pub receipt : Receipt
    pub before : ℤ
    pub after : ℤ
    pub prepared : IsPrepared lib 1 t account
    pub recovered : IsRecovered lib chain account signed
    pub observed : Tx
    pub pending : Bool
    pub ordered :
        InOrder
          ((balance_at recipient, answer after)
            ∷ (pending_nonce_at account.from, answer ((account.nonce + 1) % word))
            ∷ (transaction_by_hash (lib.hash signed), answer (observed, pending))
            ∷ (transaction_receipt (lib.hash signed), answer receipt)
            ∷ (send_transaction signed, answer tt)
            ∷ (balance_at recipient, answer before)
            ∷ [])
          t
    pub confirmed : IsConfirmed lib signed receipt
    pub price : ℤ
    pub is_signed :
        lib.sign_legacy chain account.key (record {
          nonce = account.nonce;
          gas_price = price;
          gas = 21000;
          to = recipient;
          value = pos 10000000000000000;
        })
        ≡ answer signed
    pub moved : after -ℤ before ≡ pos 10000000000000000

  received-eq :
      (before after : ℤ)
      → is_received (pos 10000000000000000) before after ≡ true
      → after -ℤ before ≡ pos 10000000000000000
  unfolding is_received
  received-eq before after e = equal_int_eq (after -ℤ before) (pos 10000000000000000) e

  transfer :
      (chain : ℤ) (account : Account Key) (envelope : Envelope Tx)
      (t : Trace (NodeCall Tx) NodeAnswer) (receipt : Receipt) (observed : Tx)
      → IsPrepared lib 1 t account
      → IsOrdered chain account envelope
      → IsRecovered lib chain account envelope.signed
      → IsDone lib account envelope t receipt observed
      → IsTransferred chain t
  transfer chain account envelope t receipt observed p o r d = record {
    account = account;
    signed = envelope.signed;
    receipt = receipt;
    before = d.0;
    after = d.1.after;
    prepared = p;
    recovered = r;
    observed = observed;
    pending = d.1.pending;
    ordered = rw o.to at d.1.ordered;
    confirmed = d.1.confirmed;
    price = o.price;
    is_signed = o.signed;
    moved = received-eq d.0 d.1.after (rw o.value at d.1.received);
  }

  pub transact-IsTransferred :
      (polls : ℕ) (chain : ℤ) (kind : Kind) (past : Trace (NodeCall Tx) NodeAnswer)
      → Ensures (OnSuccess (λ t u. IsTransferred chain t)) past (transact lib polls chain kind)
  unfolding transact
  transact-IsTransferred polls chain kind past =
      let R : Trace (NodeCall Tx) NodeAnswer → Unit → Type 0 = λ t u. IsTransferred chain t in
      OnSuccess-bind (IsPrepared lib 1) R past (prepare lib 1) _ (prepare-IsPrepared lib 1 past)
        λ t1 account w1 p.
          OnSuccess-bind (λ t envelope. IsOrdered chain account envelope) R t1
            (sign_kind lib chain account kind) _ (sign_kind-IsOrdered chain account kind t1)
            λ t2 envelope w2 o.
              OnSuccess-bind (λ t u. IsRecovered lib chain account envelope.signed) R t2
                (check_envelope lib chain account envelope) _
                (check_envelope-IsRecovered lib chain account envelope t2)
                λ t3 u w3 r.
                  OnSuccess-weaken
                    (λ t u.
                      (receipt : Receipt) × (observed : Tx) × IsDone lib account envelope t receipt
                        observed)
                    R t3 _ (submit-IsDone lib polls account envelope t3)
                    λ t v w4 d.
                      transfer chain account envelope t d.0 d.1
                        (record { key = p.key; from = p.from; nonce = w4 _ (w3 _ (w2 _ p.nonce)) })
                        o r d.2

  -- Whatever the node answers, when `transact` returns no error then: the transaction sent is the
  -- legacy one of the account of key 1 with the nonce that the node had given, for the recipient
  -- and the amount of the article, and it reads back as signed by that account; the node has named
  -- a balance of the recipient before the sending, and behind it, in this order, the receipt for
  -- the hash, which has status 1, its type and its hash, the transaction, the next nonce for the
  -- account, and a balance of the recipient that is greater than the first by the amount.
  pub transact_transfers :
      (world : World (NodeCall Tx) NodeAnswer) (polls : ℕ) (chain : ℤ) (kind : Kind)
      → (exec world [] (transact lib polls chain kind)).1 ≡ ok tt
      → IsTransferred chain (exec world [] (transact lib polls chain kind)).0
  transact_transfers world polls chain kind e =
      OnSuccess-exec (λ t u. IsTransferred chain t) world [] _ tt
        (transact-IsTransferred polls chain kind []) e
