-- ===== src/Local/Submission/Articles.antt =====
-- The transactions of the three token articles.
use blog_solutions.Prelude.{ℕ, ℤ, pos, ◌≡◌, refl, [], true, ok}
use blog_solutions.Local.Program.{Trace, World, exec, Ensures, on_end}
use blog_solutions.Local.Calls.{call_failed, NodeCall, NodeAnswer}
use blog_solutions.Local.Ethereum.{Ethereum}
use blog_solutions.Local.Success.{
  OnSuccess, OnSuccess-bind, OnSuccess-checked, OnSuccess-always, OnSuccess-exec,
}
use blog_solutions.Local.Transact.{
  Kind, legacy, access, dynamic, blob, other_kind, Account, Envelope,
}
use blog_solutions.Local.Token.{article_transfer}
use blog_solutions.Local.Submission.{is_token_kind}
use blog_solutions.Local.Submission.Paid.{
  article_transfer-IsTransfer, IsCall, IsPaid, transact-IsPaid,
}
use blog_solutions.Local.Transact as Legacy
use blog_solutions.Local.Submission.{key_number, watch, settle, submit}
use blog_solutions.Local.Access as Access
use blog_solutions.Local.Dynamic as Dynamic
use blog_solutions.Local.Series as Series
use blog_solutions.Fees.Caps.{fee_caps}

module _ {Tx Key : Type 0} (lib : Ethereum Tx Key) where
  sign_access-IsCall :
      (token : ℕ) (chain : ℤ) (account : Account Key) (past : Trace (NodeCall Tx) NodeAnswer)
      → Ensures
          (OnSuccess (λ t envelope. IsCall lib chain account token access envelope))
          past
          (Access.sign_access lib token chain account)
  unfolding Access.sign_access Ensures on_end
  sign_access-IsCall token chain account past =
      let R : Trace (NodeCall Tx) NodeAnswer → Envelope Tx → Type 0 =
        λ t envelope. IsCall lib chain account token access envelope in
      λ suggested. OnSuccess-checked R _ call_failed suggested _ λ price e reply.
        OnSuccess-checked R _ call_failed reply _ λ discovery e2.
          OnSuccess-bind (λ t entries. Unit) R _
            (Access.discovered lib discovery.error discovery.access_list) _
            (OnSuccess-always _ (Access.discovered lib discovery.error discovery.access_list))
            λ t entries w u estimated. OnSuccess-checked R _ call_failed estimated _ λ gas e3.
              OnSuccess-checked R _ call_failed
                (lib.sign_access_list chain account.key (record {
                  chain = chain;
                  nonce = account.nonce;
                  gas_price = price;
                  gas = gas;
                  to = token;
                  value = pos 0;
                  data_of = article_transfer;
                  access_list = entries;
                }))
                _
                λ signed e4. record {
                  to = refl;
                  value = refl;
                  transfers = article_transfer-IsTransfer;
                  signed = (price, gas, entries, e4);
                }

  sign_dynamic-IsCall :
      (token : ℕ) (chain : ℤ) (account : Account Key) (past : Trace (NodeCall Tx) NodeAnswer)
      → Ensures
          (OnSuccess (λ t envelope. IsCall lib chain account token dynamic envelope))
          past
          (Dynamic.sign_dynamic lib token chain account)
  unfolding Dynamic.sign_dynamic Ensures on_end
  sign_dynamic-IsCall token chain account past =
      let R : Trace (NodeCall Tx) NodeAnswer → Envelope Tx → Type 0 =
        λ t envelope. IsCall lib chain account token dynamic envelope in
      OnSuccess-bind (λ t caps. Unit) R past fee_caps _ (OnSuccess-always past fee_caps)
        λ t caps w u estimated. OnSuccess-checked R _ call_failed estimated _ λ gas e.
          OnSuccess-checked R _ call_failed
            (lib.sign_dynamic_fee chain account.key (record {
              chain = chain;
              nonce = account.nonce;
              gas_tip_cap = caps.0;
              gas_fee_cap = caps.1;
              gas = gas;
              to = token;
              value = pos 0;
              data_of = article_transfer;
            }))
            _
            λ signed f. record {
              to = refl;
              value = refl;
              transfers = article_transfer-IsTransfer;
              signed = (caps.0, caps.1, gas, f);
            }

  series_sign-IsCall :
      (token : ℕ) (chain : ℤ) (kind : Kind) (account : Account Key)
      (past : Trace (NodeCall Tx) NodeAnswer)
      → is_token_kind kind ≡ true
      → Ensures
          (OnSuccess (λ t envelope. IsCall lib chain account token kind envelope))
          past
          (Series.sign_kind lib token chain account kind)
  unfolding Series.sign_kind
  series_sign-IsCall token chain legacy account past k = absurd cc
  series_sign-IsCall token chain access account past k = sign_access-IsCall token chain account past
  series_sign-IsCall token chain dynamic account past k =
      sign_dynamic-IsCall token chain account past
  series_sign-IsCall token chain blob account past k = absurd cc
  series_sign-IsCall token chain other_kind account past k = absurd cc

  pub series_transact-IsPaid :
      (polls token : ℕ) (chain : ℤ) (kind : Kind) (past : Trace (NodeCall Tx) NodeAnswer)
      → is_token_kind kind ≡ true
      → Ensures
          (OnSuccess (λ t u. IsPaid lib chain token kind t))
          past
          (Series.transact lib polls chain token kind)
  unfolding Series.transact
  series_transact-IsPaid polls token chain kind past k =
      transact-IsPaid lib polls token chain kind
        (λ account. Series.sign_kind lib token chain account kind) past k
        (λ account t. series_sign-IsCall token chain kind account t k)

  -- Whatever the node answers, when `transact` of the first article returns no error for a kind
  -- that moves the token, then: the transaction sent is one of that kind in which the account of
  -- key 2, with the nonce that the node had given, calls the token's `transfer` with the recipient
  -- and the amount, and it reads back as signed by that account; its receipt has status 1, its type
  -- and its hash; the balances that the token has answered before the sending and behind it differ
  -- by the amount, down for the sender and up for the recipient; the one log of the receipt is that
  -- transfer; and a mined transaction of the kind "access" has an access list.
  pub series_pays :
      (world : World (NodeCall Tx) NodeAnswer) (polls token : ℕ) (chain : ℤ) (kind : Kind)
      → is_token_kind kind ≡ true
      → (exec world [] (Series.transact lib polls chain token kind)).1 ≡ ok tt
      → IsPaid lib chain token kind (exec world [] (Series.transact lib polls chain token kind)).0
  series_pays world polls token chain kind k e =
      OnSuccess-exec (λ t u. IsPaid lib chain token kind t) world [] _ tt
        (series_transact-IsPaid polls token chain kind [] k) e

  access_sign-IsCall :
      (token : ℕ) (chain : ℤ) (kind : Kind) (account : Account Key)
      (past : Trace (NodeCall Tx) NodeAnswer)
      → is_token_kind kind ≡ true
      → Ensures
          (OnSuccess (λ t envelope. IsCall lib chain account token kind envelope))
          past
          (Access.sign_kind lib token chain account kind)
  unfolding Access.sign_kind
  access_sign-IsCall token chain legacy account past k = absurd cc
  access_sign-IsCall token chain access account past k = sign_access-IsCall token chain account past
  access_sign-IsCall token chain dynamic account past k = unfold Ensures in tt
  access_sign-IsCall token chain blob account past k = absurd cc
  access_sign-IsCall token chain other_kind account past k = absurd cc

  pub access_transact-IsPaid :
      (polls token : ℕ) (chain : ℤ) (kind : Kind) (past : Trace (NodeCall Tx) NodeAnswer)
      → is_token_kind kind ≡ true
      → Ensures
          (OnSuccess (λ t u. IsPaid lib chain token kind t))
          past
          (Access.transact lib polls chain token kind)
  unfolding Access.transact
  access_transact-IsPaid polls token chain kind past k =
      transact-IsPaid lib polls token chain kind
        (λ account. Access.sign_kind lib token chain account kind) past k
        (λ account t. access_sign-IsCall token chain kind account t k)

  dynamic_sign-IsCall :
      (token : ℕ) (chain : ℤ) (kind : Kind) (account : Account Key)
      (past : Trace (NodeCall Tx) NodeAnswer)
      → is_token_kind kind ≡ true
      → Ensures
          (OnSuccess (λ t envelope. IsCall lib chain account token kind envelope))
          past
          (Dynamic.sign_kind lib token chain account kind)
  unfolding Dynamic.sign_kind
  dynamic_sign-IsCall token chain legacy account past k = absurd cc
  dynamic_sign-IsCall token chain access account past k = unfold Ensures in tt
  dynamic_sign-IsCall token chain dynamic account past k =
      sign_dynamic-IsCall token chain account past
  dynamic_sign-IsCall token chain blob account past k = absurd cc
  dynamic_sign-IsCall token chain other_kind account past k = absurd cc

  pub dynamic_transact-IsPaid :
      (polls token : ℕ) (chain : ℤ) (kind : Kind) (past : Trace (NodeCall Tx) NodeAnswer)
      → is_token_kind kind ≡ true
      → Ensures
          (OnSuccess (λ t u. IsPaid lib chain token kind t))
          past
          (Dynamic.transact lib polls chain token kind)
  unfolding Dynamic.transact
  dynamic_transact-IsPaid polls token chain kind past k =
      transact-IsPaid lib polls token chain kind
        (λ account. Dynamic.sign_kind lib token chain account kind) past k
        (λ account t. dynamic_sign-IsCall token chain kind account t k)

  -- The case "legacy" of the first article is the one of its own article.
  pub series_transact_legacy :
      (polls token : ℕ) (chain : ℤ)
      → Series.transact lib polls chain token legacy ≡ Legacy.transact lib polls chain legacy
  unfolding Series.transact Series.sign_kind submit watch settle key_number Legacy.transact
      Legacy.submit on_end
  series_transact_legacy polls token chain = refl
