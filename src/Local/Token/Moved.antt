-- ===== src/Local/Token/Moved.antt =====
-- What the programs have learnt of the token when they go on.
use blog_solutions.Prelude.{
  sym, subst, inl, ℕ, ℤ, pos, ◌≡◌, refl, ◌-ℤ◌, equal_int, true, List, [], ◌∷◌, ◌++◌, length, ok,
  ◌==◌,
}
use blog_solutions.Rlp.Item.{Bytes}
use blog_solutions.Rlp.BigEndian.{from_bytes}
use blog_solutions.Blob.Packing.{equal_bytes}
use blog_solutions.Local.Program.{
  Event, Trace, Ensures, Happened, InOrder, InOrder-now, on_end, done,
}
use blog_solutions.Local.Calls.{
  answer, Receipt, Log, call_failed, invalid_balance_word, token_delta_mismatch, log_mismatch,
  NodeCall, NodeAnswer, call_contract, send_transaction,
}
use blog_solutions.Local.Ethereum.{Ethereum, balance_of, transfer_event}
use blog_solutions.Local.Success.{
  OnSuccess, Extends, OnSuccess-bind, OnSuccess-checked, OnSuccess-require, OnSuccess-weaken,
  require-OnSuccess,
}
use blog_solutions.Local.Transact.Effects.{equal-eq, and_both, equal_int_eq}
use blog_solutions.Local.Token.{
  fixture_recipient, amount, token_balance, token_balances, is_moved, same_topics, is_transfer_log,
  check_logs, check_token,
}

pub same_topics-eq : (xs ys : List ℕ) → same_topics xs ys ≡ true → xs ≡ ys
same_topics-eq [] [] e = refl
same_topics-eq [] (y ∷ ys) e = cc
same_topics-eq (x ∷ xs) [] e = cc
same_topics-eq (x ∷ xs) (y ∷ ys) e =
    let both = and_both (x == y) (same_topics xs ys) e in
    cc (equal-eq x y both.0, same_topics-eq xs ys both.1)

pub equal_bytes-eq : (xs ys : Bytes) → equal_bytes xs ys ≡ true → xs ≡ ys
unfolding equal_bytes
equal_bytes-eq [] [] e = refl
equal_bytes-eq [] (y ∷ ys) e = cc
equal_bytes-eq (x ∷ xs) [] e = cc
equal_bytes-eq (x ∷ xs) (y ∷ ys) e =
    let both = and_both (x == y) (equal_bytes xs ys) e in
    cc (equal-eq x y both.0, equal_bytes-eq xs ys both.1)

moved-eq :
    (before after : ℤ × ℤ)
    → is_moved before after ≡ true
    → (before.0 -ℤ after.0 ≡ pos amount) × (after.1 -ℤ before.1 ≡ pos amount)
unfolding is_moved
moved-eq (a, b) (c, d) e =
    let both = and_both (equal_int (a -ℤ c) (pos amount)) (equal_int (d -ℤ b) (pos amount)) e in
    (equal_int_eq _ _ both.0, equal_int_eq _ _ both.1)

module _ {Tx Key : Type 0} (lib : Ethereum Tx Key) where
  -- The word that the token has answered for the owner's balance, behind the events `earlier`
  -- and before the events `later`.
  pub record IsBalance (later earlier : List (Event (NodeCall Tx) NodeAnswer)) (token owner : ℕ)
      (t : Trace (NodeCall Tx) NodeAnswer) (balance : ℤ) : Type 0 where
    pub out : Bytes
    pub asked :
        InOrder
          (later
            ++ ((call_contract token (lib.selector balance_of ++ lib.word_of owner), answer out)
                ∷ earlier))
          t
    pub is_word : length out ≡ 32
    pub is_value : balance ≡ pos (from_bytes 0 out)

  token_balance-IsBalance :
      (earlier : List (Event (NodeCall Tx) NodeAnswer)) (token owner : ℕ)
      (past : Trace (NodeCall Tx) NodeAnswer)
      → InOrder earlier past
      → Ensures (OnSuccess (IsBalance [] earlier token owner)) past (token_balance lib token owner)
  unfolding token_balance Ensures on_end
  token_balance-IsBalance earlier token owner past b = λ reply.
      let c : NodeCall Tx = call_contract token (lib.selector balance_of ++ lib.word_of owner) in
      OnSuccess-checked (IsBalance [] earlier token owner) ((c, reply) ∷ past) call_failed reply _
        λ out e.
          OnSuccess-require (IsBalance [] earlier token owner) ((c, reply) ∷ past)
            (length out == 32) invalid_balance_word (λ u. done (ok (pos (from_bytes 0 out))))
            λ f. record {
              out = out;
              asked =
                  subst (λ r. InOrder ((c, answer out) ∷ earlier) ((c, r) ∷ past)) (sym e)
                    (InOrder-now earlier (c, answer out) past b);
              is_word = equal-eq _ _ f;
              is_value = refl;
            }

  IsBalance-Extends :
      (later earlier : List (Event (NodeCall Tx) NodeAnswer)) (token owner : ℕ)
      (t u : Trace (NodeCall Tx) NodeAnswer) (b : ℤ)
      → Extends t u
      → IsBalance later earlier token owner t b
      → IsBalance later earlier token owner u b
  IsBalance-Extends later earlier token owner t u b w h = record {
    out = h.out;
    asked = w _ h.asked;
    is_word = h.is_word;
    is_value = h.is_value;
  }

  -- The balances of the sender and of the recipient.
  abbrev pub AreBalances :
      List (Event (NodeCall Tx) NodeAnswer)
      → List (Event (NodeCall Tx) NodeAnswer)
      → ℕ
      → ℕ
      → Trace (NodeCall Tx) NodeAnswer
      → ℤ × ℤ
      → Type 0
  AreBalances later earlier token from t b =
      IsBalance later earlier token from t b.0
      × IsBalance later earlier token fixture_recipient t b.1

  pub AreBalances-Extends :
      (later earlier : List (Event (NodeCall Tx) NodeAnswer)) (token from : ℕ)
      (t u : Trace (NodeCall Tx) NodeAnswer) (b : ℤ × ℤ)
      → Extends t u
      → AreBalances later earlier token from t b
      → AreBalances later earlier token from u b
  AreBalances-Extends later earlier token from t u b w h = (
    IsBalance-Extends later earlier token from t u b.0 w h.0,
    IsBalance-Extends later earlier token fixture_recipient t u b.1 w h.1,
  )

  IsBalance-before :
      (e : Event (NodeCall Tx) NodeAnswer) (token owner : ℕ) (t : Trace (NodeCall Tx) NodeAnswer)
      (b : ℤ)
      → IsBalance [] [] token owner t b
      → IsBalance (e ∷ []) [] token owner (e ∷ t) b
  IsBalance-before e token owner t b h = record {
    out = h.out;
    asked = inl (refl, h.asked);
    is_word = h.is_word;
    is_value = h.is_value;
  }

  -- What has been answered is before what happens then.
  pub AreBalances-before :
      (e : Event (NodeCall Tx) NodeAnswer) (token from : ℕ) (t : Trace (NodeCall Tx) NodeAnswer)
      (b : ℤ × ℤ)
      → AreBalances [] [] token from t b
      → AreBalances (e ∷ []) [] token from (e ∷ t) b
  AreBalances-before e token from t b h = (
    IsBalance-before e token from t b.0 h.0,
    IsBalance-before e token fixture_recipient t b.1 h.1,
  )

  pub token_balances-AreBalances :
      (earlier : List (Event (NodeCall Tx) NodeAnswer)) (token from : ℕ)
      (past : Trace (NodeCall Tx) NodeAnswer)
      → InOrder earlier past
      → Ensures (OnSuccess (AreBalances [] earlier token from)) past (token_balances lib token from)
  unfolding token_balances
  token_balances-AreBalances earlier token from past b =
      OnSuccess-bind (IsBalance [] earlier token from) (AreBalances [] earlier token from) past
        (token_balance lib token from) _ (token_balance-IsBalance earlier token from past b)
        λ t sender w h.
          OnSuccess-bind (IsBalance [] earlier token fixture_recipient)
            (AreBalances [] earlier token from) t (token_balance lib token fixture_recipient)
            (λ recipient. done (ok (sender, recipient)))
            (token_balance-IsBalance earlier token fixture_recipient t (w earlier b))
            λ u recipient v k.
              unfold Ensures in (IsBalance-Extends [] earlier token from t u sender v h, k)

  -- The one log of the receipt is that of the transfer of the amount.
  pub record IsLogged (token from : ℕ) (logs : List Log) : Type 0 where
    pub log : Log
    pub only : logs ≡ log ∷ []
    pub address : log.address ≡ token
    pub topics : log.topics ≡ lib.event_hash transfer_event ∷ from ∷ fixture_recipient ∷ []
    pub data_of : log.data_of ≡ lib.word_of amount

  check_logs-IsLogged :
      (token from : ℕ) (logs : List Log) (past : Trace (NodeCall Tx) NodeAnswer)
      → Ensures (OnSuccess (λ t u. IsLogged token from logs)) past (check_logs lib token from logs)
  unfolding check_logs is_transfer_log
  check_logs-IsLogged token from [] past = unfold Ensures in tt
  check_logs-IsLogged token from (l ∷ []) past = require-OnSuccess past _ _ log_mismatch λ e.
      let second = and_both _ (equal_bytes l.data_of (lib.word_of amount)) e in
      let first = and_both (l.address == token) _ second.0 in
      record {
        log = l;
        only = refl;
        address = equal-eq _ _ first.0;
        topics = same_topics-eq _ _ first.1;
        data_of = equal_bytes-eq _ _ second.1;
      }
  check_logs-IsLogged token from (l ∷ m ∷ logs) past = unfold Ensures in tt

  -- Behind the sending of the transaction the token has moved the amount from the sender to the
  -- recipient, and the receipt says so.
  pub record IsMoved (signed : Tx) (token from : ℕ) (before : ℤ × ℤ) (receipt : Receipt)
      (t : Trace (NodeCall Tx) NodeAnswer) : Type 0 where
    pub after : ℤ × ℤ
    pub balances : AreBalances [] ((send_transaction signed, answer tt) ∷ []) token from t after
    pub paid : before.0 -ℤ after.0 ≡ pos amount
    pub received : after.1 -ℤ before.1 ≡ pos amount
    pub logged : IsLogged token from receipt.logs

  pub IsMoved-Extends :
      (signed : Tx) (token from : ℕ) (before : ℤ × ℤ) (receipt : Receipt)
      (t u : Trace (NodeCall Tx) NodeAnswer)
      → Extends t u
      → IsMoved signed token from before receipt t
      → IsMoved signed token from before receipt u
  IsMoved-Extends signed token from before receipt t u w h = record {
    after = h.after;
    balances = AreBalances-Extends [] _ token from t u h.after w h.balances;
    paid = h.paid;
    received = h.received;
    logged = h.logged;
  }

  pub check_token-IsMoved :
      (signed : Tx) (token from : ℕ) (before : ℤ × ℤ) (receipt : Receipt)
      (past : Trace (NodeCall Tx) NodeAnswer)
      → Happened (send_transaction signed, answer tt) past
      → Ensures
          (OnSuccess (λ t u. IsMoved signed token from before receipt t))
          past
          (check_token lib token from before receipt)
  unfolding check_token
  check_token-IsMoved signed token from before receipt past b =
      let es : List (Event (NodeCall Tx) NodeAnswer) = (send_transaction signed, answer tt) ∷ [] in
      let R : Trace (NodeCall Tx) NodeAnswer → Unit → Type 0 =
        λ t u. IsMoved signed token from before receipt t in
      OnSuccess-bind (AreBalances [] es token from) R past (token_balances lib token from) _
        (token_balances-AreBalances es token from past b)
        λ t after w h.
          OnSuccess-require R t (is_moved before after) token_delta_mismatch
            (λ u. check_logs lib token from receipt.logs)
            λ e.
              OnSuccess-weaken (λ t u. IsLogged token from receipt.logs) R t _
                (check_logs-IsLogged token from receipt.logs t)
                λ u a v l. record {
                  after = after;
                  balances = AreBalances-Extends [] es token from t u after v h;
                  paid = (moved-eq before after e).0;
                  received = (moved-eq before after e).1;
                  logged = l;
                }
