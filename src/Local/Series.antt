-- ===== src/Local/Series.antt =====
-- The first article of the transactions series, with three kinds of transactions:
-- evm/understanding-ethereum-transactions-and-messages-from-state-changes-to-off-chain-messages-part-1-54130865e71e/transaction-types/local/main.go
use blog_solutions.Prelude.{ℕ, ℤ, List, [], ◌∷◌}
use blog_solutions.Local.Program.{◌>>=◌}
use blog_solutions.Local.Calls.{NodeProgram, Session, fail, unsupported_kind}
use blog_solutions.Local.Ethereum.{Ethereum}
use blog_solutions.Local.Startup.{run, for_each}
use blog_solutions.Local.Transact.{
  Kind, legacy, access, dynamic, Account, Envelope, prepare, check_envelope,
}
use blog_solutions.Local.Transact as Legacy
use blog_solutions.Local.Access.{sign_access}
use blog_solutions.Local.Dynamic.{sign_dynamic}
use blog_solutions.Local.Token.{deploy_token}
use blog_solutions.Local.Submission.{key_number, submit}

abbrev pub kinds : List Kind
kinds = legacy ∷ access ∷ dynamic ∷ []

module _ {Tx Key : Type 0} (lib : Ethereum Tx Key) where
  -- The `switch`. Its cases are those of the other articles.
  unfoldable pub sign_kind : ℕ → ℤ → Account Key → Kind → NodeProgram Tx (Envelope Tx)
  sign_kind token chain account legacy = Legacy.sign_kind lib chain account legacy
  sign_kind token chain account access = sign_access lib token chain account
  sign_kind token chain account dynamic = sign_dynamic lib token chain account
  sign_kind token chain account _ = fail unsupported_kind

  unfoldable pub transact : ℕ → ℤ → ℕ → Kind → NodeProgram Tx Unit
  transact polls chain token kind = do
    account ← prepare lib (key_number kind)
    envelope ← sign_kind token chain account kind
    recovered ← check_envelope lib chain account envelope
    submit lib polls token kind account envelope

  unfoldable pub work : ℕ → ℤ → NodeProgram Tx Unit
  work polls chain = do token ← deploy_token lib; for_each (transact polls chain token) kinds

  unfoldable pub run_series : ℕ → Session Tx Unit
  run_series polls = run (work polls)
