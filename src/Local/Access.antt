-- ===== src/Local/Access.antt =====
-- The article on access lists:
-- evm/evm-tx-access-list-transactions-eip/transaction-types/local/main.go
use blog_solutions.Prelude.{ℕ, ℤ, pos, [], ◌∷◌, Option, none, some, ok}
use blog_solutions.Rlp.Item.{Bytes}
use blog_solutions.Local.Program.{done, ◌>>=◌}
use blog_solutions.Local.Calls.{
  AccessList, CallMsg, NodeProgram, Session, ask, fail, checked, call_failed, discovery_failed,
  unsupported_kind, suggest_gas_price, create_access_list, estimate_gas,
}
use blog_solutions.Local.Ethereum.{Ethereum}
use blog_solutions.Local.Startup.{run, for_each}
use blog_solutions.Local.Transact.{Kind, access, Account, Envelope, prepare, check_envelope}
use blog_solutions.Local.Token.{article_transfer, deploy_token}
use blog_solutions.Local.Submission.{key_number, submit}

module _ {Tx Key : Type 0} (lib : Ethereum Tx Key) where
  -- An access list that is there and not empty, and no error.
  unfoldable pub discovered : Bytes → Option AccessList → NodeProgram Tx AccessList
  discovered [] (some (entry ∷ entries)) = done (ok (entry ∷ entries))
  discovered _ _ = fail discovery_failed

  -- The message of both calls, with the list where there is one.
  abbrev pub message : ℕ → ℕ → ℤ → AccessList → CallMsg
  message from to price entries = record {
    from = from;
    to = to;
    value = none;
    data_of = article_transfer;
    gas_price = some price;
    gas_tip_cap = none;
    gas_fee_cap = none;
    access_list = entries;
    blob_gas_fee_cap = none;
    blob_hashes = [];
  }

  -- The case "access" of the `switch`.
  unfoldable pub sign_access : ℕ → ℤ → Account Key → NodeProgram Tx (Envelope Tx)
  sign_access token chain account = do
    suggested ← ask suggest_gas_price
    price ← checked call_failed suggested
    reply ← ask (create_access_list (message account.from token price []))
    discovery ← checked call_failed reply
    entries ← discovered discovery.error discovery.access_list
    estimated ← ask (estimate_gas (message account.from token price entries))
    gas ← checked call_failed estimated
    signed ← checked call_failed (
        lib.sign_access_list chain account.key (record {
          chain = chain;
          nonce = account.nonce;
          gas_price = price;
          gas = gas;
          to = token;
          value = pos 0;
          data_of = article_transfer;
          access_list = entries;
        }))
    done (ok (record { to = token; value = pos 0; data_of = article_transfer; signed = signed }))

  unfoldable pub sign_kind : ℕ → ℤ → Account Key → Kind → NodeProgram Tx (Envelope Tx)
  sign_kind token chain account access = sign_access token chain account
  sign_kind token chain account _ = fail unsupported_kind

  unfoldable pub transact : ℕ → ℤ → ℕ → Kind → NodeProgram Tx Unit
  transact polls chain token kind = do
    account ← prepare lib (key_number kind)
    envelope ← sign_kind token chain account kind
    recovered ← check_envelope lib chain account envelope
    submit lib polls token kind account envelope

  -- The token is deployed behind the checks, and the loop over the kinds follows.
  unfoldable pub work : ℕ → ℤ → NodeProgram Tx Unit
  work polls chain = do
    token ← deploy_token lib
    for_each (transact polls chain token) (access ∷ [])

  unfoldable pub run_access : ℕ → Session Tx Unit
  run_access polls = run (work polls)
