-- ===== src/Local/Transact/Effects.antt =====
-- What the first parts of a successful `transact` have established.
use blog_solutions.Prelude.{
  ℕ, zero, suc, ◌*◌, ◌^◌, ◌≡◌, refl, ap, ◌∷◌, inl, ℤ, pos, negsuc, equal_int, Bool, true, false,
  List, ◌&&◌, ◌==◌, arith,
}
use blog_solutions.Rlp.Item.{Bytes}
use blog_solutions.Local.Program.{
  Event, Trace, Ensures, Happened, InOrder, InOrder-cons, InOrder-now, on_end,
}
use blog_solutions.Local.Calls.{
  wait_tick, not_found, other_error, Reply, answer, failure, Receipt, call_failed,
  recovery_mismatch, NodeCall, NodeAnswer, NodeProgram, set_balance, pending_nonce_at,
  transaction_receipt,
}
use blog_solutions.Local.Ethereum.{Ethereum}
use blog_solutions.Local.Rules.{Ensures-unless_ended}
use blog_solutions.Local.Success.{OnSuccess, OnSuccess-checked, require-OnSuccess}
use blog_solutions.Local.Transact.{
  Account, Envelope, receipt_or_wait, wait_receipt, prepare, is_recovered, check_envelope,
}

pub equal-eq : (a b : ℕ) → (a == b) ≡ true → a ≡ b
equal-eq a b e = ground arith

pub and_both : (a b : Bool) → (a && b) ≡ true → (a ≡ true) × (b ≡ true)
and_both true b e = (refl, e)
and_both false b e = cc

pub equal_int_eq : (a b : ℤ) → equal_int a b ≡ true → a ≡ b
equal_int_eq (pos m) (pos n) e = cc (equal-eq m n e)
equal_int_eq (pos m) (negsuc n) e = cc
equal_int_eq (negsuc m) (pos n) e = cc
equal_int_eq (negsuc m) (negsuc n) e = cc (equal-eq m n e)

module _ {Tx : Type 0} where
  -- The node has answered with this receipt.
  abbrev pub IsGiven : ℕ → Trace (NodeCall Tx) NodeAnswer → Receipt → Type 0
  IsGiven hash t receipt = Happened (transaction_receipt hash, answer receipt) t

  -- It has answered with this receipt behind the events.
  abbrev pub GivenBehind :
      List (Event (NodeCall Tx) NodeAnswer) → ℕ → Trace (NodeCall Tx) NodeAnswer → Receipt → Type 0
  GivenBehind es hash t receipt = InOrder ((transaction_receipt hash, answer receipt) ∷ es) t

  receipt_or_wait-GivenBehind :
      (es : List (Event (NodeCall Tx) NodeAnswer)) (hash : ℕ) (retry : NodeProgram Tx Receipt)
      (reply : Reply Receipt) (past : Trace (NodeCall Tx) NodeAnswer)
      → InOrder es past
      → ((t : Trace (NodeCall Tx) NodeAnswer)
          → InOrder es t
          → Ensures (OnSuccess (GivenBehind es hash)) t retry)
      → Ensures
          (OnSuccess (GivenBehind es hash))
          ((transaction_receipt hash, reply) ∷ past)
          (receipt_or_wait retry reply)
  unfolding receipt_or_wait Ensures on_end
  receipt_or_wait-GivenBehind es hash retry (answer receipt) past b h = InOrder-now es _ past b
  receipt_or_wait-GivenBehind es hash retry (failure not_found) past b h = λ ended.
      Ensures-unless_ended (OnSuccess (GivenBehind es hash)) _ ended (λ u. retry) (λ e. tt)
        (h _ (
          InOrder-cons es (wait_tick, ended) ((transaction_receipt hash, failure not_found) ∷ past)
            (InOrder-cons es (transaction_receipt hash, failure not_found) past b)))
  receipt_or_wait-GivenBehind es hash retry (failure (other_error e)) past b h = tt

  pub wait_receipt-GivenBehind :
      (es : List (Event (NodeCall Tx) NodeAnswer)) (polls hash : ℕ)
      (past : Trace (NodeCall Tx) NodeAnswer)
      → InOrder es past
      → Ensures (OnSuccess (GivenBehind es hash)) past (wait_receipt polls hash)
  unfolding wait_receipt Ensures on_end
  wait_receipt-GivenBehind es zero hash past b = tt
  wait_receipt-GivenBehind es (suc polls) hash past b = λ reply.
      receipt_or_wait-GivenBehind es hash (wait_receipt polls hash) reply past b
        (wait_receipt-GivenBehind es polls hash)

module _ {Tx Key : Type 0} (lib : Ethereum Tx Key) where
  -- The account of the key number, with the nonce that the node has given.
  pub record IsPrepared (key_number : ℕ) (t : Trace (NodeCall Tx) NodeAnswer)
      (account : Account Key) : Type 0 where
    pub key : lib.key_of key_number ≡ answer account.key
    pub from : account.from ≡ lib.address_of account.key
    pub nonce : Happened (pending_nonce_at account.from, answer account.nonce) t

  pub prepare-IsPrepared :
      (key_number : ℕ) (past : Trace (NodeCall Tx) NodeAnswer)
      → Ensures (OnSuccess (IsPrepared key_number)) past (prepare lib key_number)
  unfolding prepare Ensures on_end
  prepare-IsPrepared key_number past =
      OnSuccess-checked (IsPrepared key_number) past call_failed (lib.key_of key_number) _
        λ key k funded.
          OnSuccess-checked (IsPrepared key_number)
            ((set_balance (lib.address_of key) (pos (100 * 10 ^ 18)), funded) ∷ past) call_failed
            funded _
            λ u e reply.
              OnSuccess-checked (IsPrepared key_number)
                ((pending_nonce_at (lib.address_of key), reply)
                  ∷ (set_balance (lib.address_of key) (pos (100 * 10 ^ 18)), funded)
                  ∷ past)
                call_failed reply _
                λ nonce f. record { key = k; from = refl; nonce = rw f (inl refl) }

  -- The signed transaction reads back as one of the account.
  pub record IsRecovered (chain : ℤ) (account : Account Key) (signed : Tx) : Type 0 where
    pub raw : Bytes
    pub decoded : Tx
    pub encodes : lib.marshal_binary signed ≡ answer raw
    pub decodes : lib.unmarshal_binary raw ≡ answer decoded
    pub sender : lib.sender chain decoded ≡ answer account.from
    pub nonce : lib.nonce decoded ≡ account.nonce

  recovered-eq :
      (account : Account Key) (decoded : Tx) (reply : Reply ℕ)
      → is_recovered lib account decoded reply ≡ true
      → (reply ≡ answer account.from) × (lib.nonce decoded ≡ account.nonce)
  unfolding is_recovered
  recovered-eq account decoded (answer r) e =
      let both = and_both (r == account.from) (lib.nonce decoded == account.nonce) e in
      (ap answer (equal-eq r account.from both.0), equal-eq _ _ both.1)
  recovered-eq account decoded (failure x) e = cc

  pub check_envelope-IsRecovered :
      (chain : ℤ) (account : Account Key) (envelope : Envelope Tx)
      (past : Trace (NodeCall Tx) NodeAnswer)
      → Ensures
          (OnSuccess (λ t u. IsRecovered chain account envelope.signed))
          past
          (check_envelope lib chain account envelope)
  unfolding check_envelope
  check_envelope-IsRecovered chain account envelope past =
      OnSuccess-checked _ past call_failed (lib.marshal_binary envelope.signed) _ λ raw e.
        OnSuccess-checked _ past call_failed (lib.unmarshal_binary raw) _ λ decoded f.
          require-OnSuccess past _ _ recovery_mismatch λ g.
            let both = recovered-eq account decoded _ g in
            record {
              raw = raw;
              decoded = decoded;
              encodes = e;
              decodes = f;
              sender = both.0;
              nonce = both.1;
            }
