-- ===== src/Local/Submission/Programs.antt =====
-- The whole programs of the token articles, and of the blob article.
use blog_solutions.Prelude.{ℕ, ℤ, ◌≡◌, refl, [], ◌∷◌, ok}
use blog_solutions.Local.Program.{Trace, World, exec, Ensures, done}
use blog_solutions.Local.Calls.{NodeCall, NodeAnswer, Call, CallAnswer, NodeProgram}
use blog_solutions.Local.Ethereum.{Ethereum}
use blog_solutions.Local.Success.{
  OnSuccess, Extends, OnSuccess-bind, OnSuccess-always, OnSuccess-weaken, OnSuccess-exec,
}
use blog_solutions.Local.Startup.{for_each}
use blog_solutions.Local.Sessions.{Reached, run-Reached}
use blog_solutions.Local.Transact.{Kind, legacy, access, dynamic}
use blog_solutions.Local.Transact.Transfer.{IsTransferred, transact-IsTransferred}
use blog_solutions.Local.Token.{deploy_token}
use blog_solutions.Local.Submission.Paid.{IsPaid}
use blog_solutions.Local.Submission.Articles.{
  series_transact-IsPaid, access_transact-IsPaid, dynamic_transact-IsPaid, series_transact_legacy,
}
use blog_solutions.Local.Access as Access
use blog_solutions.Local.Dynamic as Dynamic
use blog_solutions.Local.Series as Series

-- It held at some point of the run.
abbrev pub Within :
    {Tx : Type 0}
    → (Trace (NodeCall Tx) NodeAnswer → Type 0)
    → Trace (NodeCall Tx) NodeAnswer
    → Type 0
Within {Tx} P t = (u : Trace (NodeCall Tx) NodeAnswer) × Extends u t × P u

module _ {Tx Key : Type 0} (lib : Ethereum Tx Key) (polls : ℕ) where
  -- A loop over one kind.
  one_kind :
      (P : Trace (NodeCall Tx) NodeAnswer → Type 0) (transact : Kind → NodeProgram Tx Unit)
      (kind : Kind) (past : Trace (NodeCall Tx) NodeAnswer)
      → Ensures (OnSuccess (λ t u. P t)) past (transact kind)
      → Ensures (OnSuccess (λ t u. P t)) past (for_each transact (kind ∷ []))
  unfolding for_each
  one_kind P transact kind past h =
      OnSuccess-bind (λ t u. P t) (λ t u. P t) past (transact kind) (λ sent. done (ok tt)) h
        (λ t u w p. unfold Ensures in p)

  -- A token is deployed, and paid with.
  abbrev pub PaidWith : Kind → ℤ → Trace (NodeCall Tx) NodeAnswer → Type 0
  PaidWith kind chain t = (token : ℕ) × IsPaid lib chain token kind t

  access_work :
      (chain : ℤ)
      → Ensures (OnSuccess (λ t u. PaidWith access chain t)) [] (Access.work lib polls chain)
  unfolding Access.work
  access_work chain =
      let R : Trace (NodeCall Tx) NodeAnswer → Unit → Type 0 = λ t u. PaidWith access chain t in
      OnSuccess-bind (λ t token. Unit) R [] (deploy_token lib) _
        (OnSuccess-always [] (deploy_token lib))
        λ t1 token w1 u1.
          OnSuccess-weaken (λ t u. IsPaid lib chain token access t) R t1 _
            (one_kind (IsPaid lib chain token access) (Access.transact lib polls chain token) access
              t1 (access_transact-IsPaid lib polls token chain access t1 refl))
            (λ t u w p. (token, p))

  -- Whatever the world answers, when the program of the access list article ends without an error
  -- then the node has named the local chain and, behind that, the program has made the calls of a
  -- paid token transfer of the kind "access": a call of the token's `transfer` for the recipient
  -- and the amount, signed for that chain by the account of key 2, mined with its own receipt and
  -- an access list, with balances of the token before the sending and behind it that differ by the
  -- amount, and logged.
  pub run_access_pays :
      (world : World (Call Tx) CallAnswer)
      → (exec world [] (Access.run_access lib polls)).1 ≡ ok tt
      → Reached (PaidWith access) (exec world [] (Access.run_access lib polls)).0
  unfolding Access.run_access
  run_access_pays world e =
      OnSuccess-exec (λ t u. Reached (PaidWith access) t) world [] _ tt
        (run-Reached (PaidWith access) (Access.work lib polls) access_work) e

  dynamic_work :
      (chain : ℤ)
      → Ensures (OnSuccess (λ t u. PaidWith dynamic chain t)) [] (Dynamic.work lib polls chain)
  unfolding Dynamic.work
  dynamic_work chain =
      let R : Trace (NodeCall Tx) NodeAnswer → Unit → Type 0 = λ t u. PaidWith dynamic chain t in
      OnSuccess-bind (λ t token. Unit) R [] (deploy_token lib) _
        (OnSuccess-always [] (deploy_token lib))
        λ t1 token w1 u1.
          OnSuccess-weaken (λ t u. IsPaid lib chain token dynamic t) R t1 _
            (one_kind (IsPaid lib chain token dynamic) (Dynamic.transact lib polls chain token)
              dynamic t1 (dynamic_transact-IsPaid lib polls token chain dynamic t1 refl))
            (λ t u w p. (token, p))

  -- Whatever the world answers, when the program of the dynamic fee article ends without an error
  -- then the node has named the local chain and, behind that, the program has made the calls of a
  -- paid token transfer of the kind "dynamic": a call of the token's `transfer` for the recipient
  -- and the amount, signed for that chain by the account of key 2, mined with its own receipt, with
  -- balances of the token before the sending and behind it that differ by the amount, and logged.
  pub run_dynamic_pays :
      (world : World (Call Tx) CallAnswer)
      → (exec world [] (Dynamic.run_dynamic lib polls)).1 ≡ ok tt
      → Reached (PaidWith dynamic) (exec world [] (Dynamic.run_dynamic lib polls)).0
  unfolding Dynamic.run_dynamic
  run_dynamic_pays world e =
      OnSuccess-exec (λ t u. Reached (PaidWith dynamic) t) world [] _ tt
        (run-Reached (PaidWith dynamic) (Dynamic.work lib polls) dynamic_work) e

  -- The three transactions of the first article, one after the other.
  pub record AllSent (chain : ℤ) (t : Trace (NodeCall Tx) NodeAnswer) : Type 0 where
    pub token : ℕ
    pub transferred : Within (IsTransferred lib chain) t
    pub with_access : Within (IsPaid lib chain token access) t
    pub with_dynamic : Within (IsPaid lib chain token dynamic) t

  series_kinds :
      (token : ℕ) (chain : ℤ) (past : Trace (NodeCall Tx) NodeAnswer)
      → Ensures
          (OnSuccess (λ t u. AllSent chain t))
          past
          (for_each (Series.transact lib polls chain token) Series.kinds)
  unfolding for_each
  series_kinds token chain past =
      let R : Trace (NodeCall Tx) NodeAnswer → Unit → Type 0 = λ t u. AllSent chain t in
      OnSuccess-bind (λ t u. IsTransferred lib chain t) R past
        (Series.transact lib polls chain token legacy) _
        (rw (series_transact_legacy lib polls token chain)
          (transact-IsTransferred lib polls chain legacy past))
        λ t1 u1 w1 p1.
          OnSuccess-bind (λ t u. IsPaid lib chain token access t) R t1
            (Series.transact lib polls chain token access) _
            (series_transact-IsPaid lib polls token chain access t1 refl)
            λ t2 u2 w2 p2.
              OnSuccess-bind (λ t u. IsPaid lib chain token dynamic t) R t2
                (Series.transact lib polls chain token dynamic) (λ sent. done (ok tt))
                (series_transact-IsPaid lib polls token chain dynamic t2 refl)
                λ t3 u3 w3 p3.
                  unfold Ensures in
                  record {
                    token = token;
                    transferred = (t1, λ e x. w3 e (w2 e x), p1);
                    with_access = (t2, w3, p2);
                    with_dynamic = (t3, λ e x. x, p3);
                  }

  series_work :
      (chain : ℤ) → Ensures (OnSuccess (λ t u. AllSent chain t)) [] (Series.work lib polls chain)
  unfolding Series.work
  series_work chain =
      OnSuccess-bind (λ t token. Unit) (λ t u. AllSent chain t) [] (deploy_token lib) _
        (OnSuccess-always [] (deploy_token lib)) λ t1 token w1 u1. series_kinds token chain t1

  -- Whatever the world answers, when the program of the first article ends without an error then
  -- the node has named the local chain and, behind that, the program has made the calls of all
  -- three transactions: the legacy transfer that the recipient has got, and with one token the paid
  -- transfers of the kinds "access" and "dynamic".
  pub run_series_sends_all :
      (world : World (Call Tx) CallAnswer)
      → (exec world [] (Series.run_series lib polls)).1 ≡ ok tt
      → Reached AllSent (exec world [] (Series.run_series lib polls)).0
  unfolding Series.run_series
  run_series_sends_all world e =
      OnSuccess-exec (λ t u. Reached AllSent t) world [] _ tt
        (run-Reached AllSent (Series.work lib polls) series_work) e
