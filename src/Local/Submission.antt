-- ===== src/Local/Submission.antt =====
-- The submission of a transaction of the token articles, and its checks, word for word the same in
-- the three: the first article of the transactions series,
-- evm/understanding-ethereum-transactions-and-messages-from-state-changes-to-off-chain-messages-part-1-54130865e71e/transaction-types/local/main.go
pub mod Paid
pub mod Articles
pub mod Programs
mod Runs
use blog_solutions.Prelude.{
  if◌then◌else◌, ℕ, ℤ, List, [], ◌∷◌, Option, none, some, Bool, true, false, ok,
}
use blog_solutions.Local.Program.{Program, done, ◌>>=◌}
use blog_solutions.Local.Calls.{
  AccessList, Receipt, NodeProgram, ask, fail, checked, call_failed, submission_failed,
  access_list_omitted, balance_at, send_transaction,
}
use blog_solutions.Local.Ethereum.{Ethereum}
use blog_solutions.Local.Transact.{
  Kind, legacy, access, dynamic, blob, other_kind, Account, Envelope, wait_receipt, check_effects,
}
use blog_solutions.Local.Token.{token_balances, check_token}

abbrev pub is_token_kind : Kind → Bool
is_token_kind access = true
is_token_kind dynamic = true
is_token_kind _ = false

-- The key of the sender.
unfoldable pub key_number : Kind → ℕ
key_number kind = if is_token_kind kind then 2 else 1

module _ {Tx Key : Type 0} (lib : Ethereum Tx Key) where
  -- The balances of the token before the submission, which the other kinds leave out.
  unfoldable pub watch : Bool → ℕ → ℕ → NodeProgram Tx (Option (ℤ × ℤ))
  watch true token from = do balances ← token_balances lib token from; done (ok (some balances))
  watch false token from = done (ok none)

  -- A mined transaction of the kind "access" has an access list.
  unfoldable pub check_access_list : Kind → AccessList → NodeProgram Tx Unit
  check_access_list access [] = fail access_list_omitted
  check_access_list _ _ = done (ok tt)

  unfoldable pub settle : Kind → ℕ → ℕ → Option (ℤ × ℤ) → Receipt → Tx → NodeProgram Tx Unit
  settle kind token from none receipt observed = done (ok tt)
  settle kind token from (some before) receipt observed = do
    moved ← check_token lib token from before receipt
    check_access_list kind (lib.access_list observed)

  unfoldable pub submit : ℕ → ℕ → Kind → Account Key → Envelope Tx → NodeProgram Tx Unit
  submit polls token kind account envelope = do
    reply ← ask (balance_at envelope.to)
    before ← checked call_failed reply
    balances ← watch (is_token_kind kind) token account.from
    accepted ← ask (send_transaction envelope.signed)
    sent ← checked submission_failed accepted
    receipt ← wait_receipt polls (lib.hash envelope.signed)
    observed ← check_effects lib account envelope before receipt
    settle kind token account.from balances receipt observed
