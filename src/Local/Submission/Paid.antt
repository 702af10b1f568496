-- ===== src/Local/Submission/Paid.antt =====
-- A successful transaction of the token articles.
use blog_solutions.Prelude.{
  subst, length, take, drop, [], ◌∷◌, inl, ℕ, ℤ, pos, ◌≡◌, refl, Option, some, true, ok,
}
use blog_solutions.Local.Program.{Event, Happened, InOrder-nil, Trace, Ensures, on_end, done, ◌>>=◌}
use blog_solutions.Local.Calls.{
  AccessList, Receipt, answer, call_failed, submission_failed, NodeCall, NodeAnswer, NodeProgram,
  balance_at, send_transaction,
}
use blog_solutions.Local.Ethereum.{Ethereum}
use blog_solutions.Local.Success.{
  Extends, OnSuccess, OnSuccess-bind, OnSuccess-checked, OnSuccess-weaken,
}
use blog_solutions.Local.Transact.{
  Kind, legacy, access, dynamic, blob, other_kind, Account, Envelope, prepare, check_envelope,
  wait_receipt, check_effects,
}
use blog_solutions.Local.Transact.Effects.{
  GivenBehind, wait_receipt-GivenBehind, IsPrepared, prepare-IsPrepared, IsRecovered,
  check_envelope-IsRecovered,
}
use blog_solutions.Local.Transact.Done.{IsDone, check_effects-IsDone, IsDone-Extends}
use blog_solutions.Rlp.Item.{Bytes}
use blog_solutions.Rlp.BigEndian.{from_bytes}
use blog_solutions.Local.Token.{
  fixture_recipient, amount, article_transfer, token_balances, check_token,
}
use blog_solutions.Local.Token.Moved.{
  IsMoved-Extends, AreBalances, AreBalances-Extends, token_balances-AreBalances, IsMoved,
  AreBalances-before, check_token-IsMoved,
}
use blog_solutions.Local.Submission.{
  ◌∷◌, is_token_kind, key_number, watch, check_access_list, settle, submit,
}

-- The data of a call of `transfer`: the selector, the word of the recipient and that of the amount.
pub record IsTransfer (payload : Bytes) : Type 0 where
  pub size : length payload ≡ 68
  pub selected : take 4 payload ≡ 0xa9 ∷ 0x05 ∷ 0x9c ∷ 0xbb ∷ []
  pub payee : from_bytes 0 (take 32 (drop 4 payload)) ≡ fixture_recipient
  pub sum : from_bytes 0 (drop 36 payload) ≡ amount

pub article_transfer-IsTransfer : IsTransfer article_transfer
unfolding from_bytes
article_transfer-IsTransfer = record { size = refl; selected = refl; payee = refl; sum = refl }

module _ {Tx Key : Type 0} (lib : Ethereum Tx Key) where
  watch-AreBalances :
      (token from : ℕ) (past : Trace (NodeCall Tx) NodeAnswer)
      → Ensures
          (OnSuccess (λ t o. (b : ℤ × ℤ) × (o ≡ some b) × AreBalances lib [] [] token from t b))
          past
          (watch lib true token from)
  unfolding watch
  watch-AreBalances token from past =
      OnSuccess-bind (AreBalances lib [] [] token from)
        (λ t o. (b : ℤ × ℤ) × (o ≡ some b) × AreBalances lib [] [] token from t b) past
        (token_balances lib token from) (λ balances. done (ok (some balances)))
        (token_balances-AreBalances lib [] token from past (InOrder-nil past))
        (λ t b w h. unfold Ensures in (b, refl, h))

  -- The access list that a mined transaction of the kind "access" has.
  abbrev pub IsListed : Kind → AccessList → Type 0
  IsListed access [] = ⊥
  IsListed _ _ = Unit

  check_access_list-IsListed :
      (kind : Kind) (entries : AccessList) (past : Trace (NodeCall Tx) NodeAnswer)
      → Ensures (OnSuccess (λ t u. IsListed kind entries)) past (check_access_list lib kind entries)
  unfolding check_access_list Ensures
  check_access_list-IsListed access [] past = tt
  check_access_list-IsListed access (e ∷ entries) past = tt
  check_access_list-IsListed legacy entries past = tt
  check_access_list-IsListed dynamic entries past = tt
  check_access_list-IsListed blob entries past = tt
  check_access_list-IsListed other_kind entries past = tt

  settle-IsMoved :
      (signed : Tx) (kind : Kind) (token from : ℕ) (before : ℤ × ℤ) (receipt : Receipt)
      (observed : Tx) (past : Trace (NodeCall Tx) NodeAnswer)
      → Happened (send_transaction signed, answer tt) past
      → Ensures
          (OnSuccess (λ t u.
            IsMoved lib signed token from before receipt t
            × IsListed kind (lib.access_list observed)))
          past
          (settle lib kind token from (some before) receipt observed)
  unfolding settle
  settle-IsMoved signed kind token from before receipt observed past b =
      let M : Trace (NodeCall Tx) NodeAnswer → Unit → Type 0 =
        λ t u. IsMoved lib signed token from before receipt t in
      let R : Trace (NodeCall Tx) NodeAnswer → Unit → Type 0 = λ t u.
        IsMoved lib signed token from before receipt t × IsListed kind (lib.access_list observed) in
      OnSuccess-bind M R past (check_token lib token from before receipt)
        (λ moved. check_access_list lib kind (lib.access_list observed))
        (check_token-IsMoved lib signed token from before receipt past b)
        λ t u w h.
          OnSuccess-weaken (λ t u. IsListed kind (lib.access_list observed)) R t
            (check_access_list lib kind (lib.access_list observed))
            (check_access_list-IsListed kind (lib.access_list observed) t)
            λ t' a v l. (IsMoved-Extends lib signed token from before receipt t t' v h, l)

  -- The submission, and the token before the sending and behind it.
  pub record IsSettled (token : ℕ) (kind : Kind) (account : Account Key) (envelope : Envelope Tx)
      (t : Trace (NodeCall Tx) NodeAnswer) : Type 0 where
    pub receipt : Receipt
    pub observed : Tx
    pub before : ℤ × ℤ
    pub is_done : IsDone lib account envelope t receipt observed
    pub balances :
        AreBalances lib
          ((send_transaction envelope.signed, answer tt) ∷ [])
          []
          token
          account.from
          t
          before
    pub moved : IsMoved lib envelope.signed token account.from before receipt t
    pub listed : IsListed kind (lib.access_list observed)

  -- The balances that were watched, before the sending.
  abbrev AreWatched : Tx → ℕ → ℕ → Trace (NodeCall Tx) NodeAnswer → Option (ℤ × ℤ) → Type 0
  AreWatched signed token from t o =
      (b : ℤ × ℤ) × (o ≡ some b)
      × AreBalances lib ((send_transaction signed, answer tt) ∷ []) [] token from t b

  settled :
      (token : ℕ) (kind : Kind) (account : Account Key) (envelope : Envelope Tx) (receipt : Receipt)
      (observed : Tx) (o : Option (ℤ × ℤ)) (t : Trace (NodeCall Tx) NodeAnswer)
      → IsDone lib account envelope t receipt observed
      → Happened (send_transaction envelope.signed, answer tt) t
      → AreWatched envelope.signed token account.from t o
      → Ensures
          (OnSuccess (λ t u. IsSettled token kind account envelope t))
          t
          (settle lib kind token account.from o receipt observed)
  settled token kind account envelope receipt observed o t d sent b = rw b.1 (
      OnSuccess-weaken
        (λ t u.
          IsMoved lib envelope.signed token account.from b.0 receipt t
          × IsListed kind (lib.access_list observed))
        (λ t u. IsSettled token kind account envelope t) t
        (settle lib kind token account.from (some b.0) receipt observed)
        (settle-IsMoved envelope.signed kind token account.from b.0 receipt observed t sent)
        λ u a w m. record {
          receipt = receipt;
          observed = observed;
          before = b.0;
          is_done = IsDone-Extends lib account envelope t u receipt observed w d;
          balances = AreBalances-Extends lib _ [] token account.from t u b.0 w b.2;
          moved = m.0;
          listed = m.1;
        })

  submit-IsSettled :
      (polls token : ℕ) (kind : Kind) (account : Account Key) (envelope : Envelope Tx)
      (past : Trace (NodeCall Tx) NodeAnswer)
      → is_token_kind kind ≡ true
      → Ensures
          (OnSuccess (λ t u. IsSettled token kind account envelope t))
          past
          (submit lib polls token kind account envelope)
  unfolding submit Ensures on_end
  submit-IsSettled polls token kind account envelope past k = λ reply.
      let R : Trace (NodeCall Tx) NodeAnswer → Unit → Type 0 =
        λ t u. IsSettled token kind account envelope t in
      let t1 = (balance_at envelope.to, reply) ∷ past in
      let sent : Event (NodeCall Tx) NodeAnswer = (send_transaction envelope.signed, answer tt) in
      OnSuccess-checked R t1 call_failed reply _ λ before e1.
        let asked : Event (NodeCall Tx) NodeAnswer = (balance_at envelope.to, answer before) in
        OnSuccess-bind
          (λ t o. (b : ℤ × ℤ) × (o ≡ some b) × AreBalances lib [] [] token account.from t b) R t1
          (watch lib (is_token_kind kind) token account.from) _
          (rw k (watch-AreBalances token account.from t1))
          λ t2 o w2 b accepted.
            let t3 = (send_transaction envelope.signed, accepted) ∷ t2 in
            OnSuccess-checked R t3 submission_failed accepted _ λ u e3.
              let watched : AreWatched envelope.signed token account.from (sent ∷ t2) o =
                (b.0, b.1, AreBalances-before lib sent token account.from t2 b.0 b.2) in
              OnSuccess-bind (GivenBehind (sent ∷ asked ∷ []) (lib.hash envelope.signed)) R t3
                (wait_receipt polls (lib.hash envelope.signed)) _
                (wait_receipt-GivenBehind (sent ∷ asked ∷ []) polls (lib.hash envelope.signed) t3
                  (inl (rw e3 refl, w2 (asked ∷ []) (inl (rw e1 refl)))))
                λ t4 receipt w4 given.
                  OnSuccess-bind (λ t observed. IsDone lib account envelope t receipt observed) R t4
                    (check_effects lib account envelope before receipt) _
                    (check_effects-IsDone lib account envelope before receipt t4 given)
                    λ t5 observed w5 d.
                      let w : Extends (sent ∷ t2) t5 =
                        subst (λ r. Extends ((send_transaction envelope.signed, r) ∷ t2) t5) e3
                          (λ es x. w5 es (w4 es x)) in
                      settled token kind account envelope receipt observed o t5 d
                        (w (sent ∷ []) (inl refl))
                        (
                          b.0,
                          b.1,
                          AreBalances-Extends lib (sent ∷ []) [] token account.from (sent ∷ t2) t5
                              b.0 w watched.2,
                        )

  -- The account of the key has signed a call of the token, without a value: the kind's transaction
  -- for the chain, with the account's nonce.
  abbrev pub IsSignedCall : ℤ → Account Key → ℕ → Bytes → Kind → Tx → Type 0
  IsSignedCall chain account token payload access signed =
      (price : ℤ) × (gas : ℕ) × (entries : AccessList) × (lib.sign_access_list chain account.key
          (record {
            chain = chain;
            nonce = account.nonce;
            gas_price = price;
            gas = gas;
            to = token;
            value = pos 0;
            data_of = payload;
            access_list = entries;
          })
        ≡ answer signed)
  IsSignedCall chain account token payload dynamic signed =
      (tip : ℤ) × (fee_cap : ℤ) × (gas : ℕ) × (lib.sign_dynamic_fee chain account.key (record {
        chain = chain;
        nonce = account.nonce;
        gas_tip_cap = tip;
        gas_fee_cap = fee_cap;
        gas = gas;
        to = token;
        value = pos 0;
        data_of = payload;
      })
        ≡ answer signed)
  IsSignedCall chain account token payload _ signed = ⊥

  -- What an envelope of the token says, and what is signed.
  pub record IsCall (chain : ℤ) (account : Account Key) (token : ℕ) (kind : Kind)
      (envelope : Envelope Tx) : Type 0 where
    pub to : envelope.to ≡ token
    pub value : envelope.value ≡ pos 0
    pub transfers : IsTransfer envelope.data_of
    pub signed : IsSignedCall chain account token envelope.data_of kind envelope.signed

  -- A transfer of the token, from the account of key 2.
  pub record IsPaid (chain : ℤ) (token : ℕ) (kind : Kind) (t : Trace (NodeCall Tx) NodeAnswer)
      : Type 0 where
    pub account : Account Key
    pub envelope : Envelope Tx
    pub prepared : IsPrepared lib 2 t account
    pub called : IsCall chain account token kind envelope
    pub recovered : IsRecovered lib chain account envelope.signed
    pub settled : IsSettled token kind account envelope t

  key_number_2 : (kind : Kind) → is_token_kind kind ≡ true → key_number kind ≡ 2
  unfolding key_number
  key_number_2 kind k = rw k refl

  -- `transact` of the three articles, which differ in the signing.
  pub transact-IsPaid :
      (polls token : ℕ) (chain : ℤ) (kind : Kind)
      (sign : Account Key → NodeProgram Tx (Envelope Tx)) (past : Trace (NodeCall Tx) NodeAnswer)
      → is_token_kind kind ≡ true
      → ((account : Account Key) (t : Trace (NodeCall Tx) NodeAnswer)
          → Ensures
              (OnSuccess (λ u envelope. IsCall chain account token kind envelope))
              t
              (sign account))
      → Ensures (OnSuccess (λ t u. IsPaid chain token kind t)) past (do
        account ← prepare lib (key_number kind)
        envelope ← sign account
        recovered ← check_envelope lib chain account envelope
        submit lib polls token kind account envelope)
  transact-IsPaid polls token chain kind sign past k signing =
      let R : Trace (NodeCall Tx) NodeAnswer → Unit → Type 0 = λ t u. IsPaid chain token kind t in
      OnSuccess-bind (IsPrepared lib (key_number kind)) R past (prepare lib (key_number kind)) _
        (prepare-IsPrepared lib (key_number kind) past)
        λ t1 account w1 p.
          OnSuccess-bind (λ t envelope. IsCall chain account token kind envelope) R t1
            (sign account) _ (signing account t1)
            λ t2 envelope w2 c.
              OnSuccess-bind (λ t u. IsRecovered lib chain account envelope.signed) R t2
                (check_envelope lib chain account envelope) _
                (check_envelope-IsRecovered lib chain account envelope t2)
                λ t3 u w3 r.
                  OnSuccess-weaken (λ t u. IsSettled token kind account envelope t) R t3
                    (submit lib polls token kind account envelope)
                    (submit-IsSettled polls token kind account envelope t3 k)
                    λ t v w4 s. record {
                      account = account;
                      envelope = envelope;
                      called = c;
                      recovered = r;
                      settled = s;
                      prepared = record {
                        key = rw (key_number_2 kind k) at p.key;
                        from = p.from;
                        nonce = w4 _ (w3 _ (w2 _ p.nonce));
                      };
                    }
