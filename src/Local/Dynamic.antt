-- ===== src/Local/Dynamic.antt =====
-- The article on dynamic fees:
-- evm/evm-tx-dynamic-fee-transactions-eip/transaction-types/local/main.go
use blog_solutions.Prelude.{ℕ, ℤ, pos, [], ◌∷◌, none, some, ok}
use blog_solutions.Local.Program.{done, ◌>>=◌}
use blog_solutions.Local.Calls.{
  CallMsg, NodeProgram, Session, ask, fail, checked, call_failed, unsupported_kind, estimate_gas,
}
use blog_solutions.Local.Ethereum.{Ethereum}
use blog_solutions.Local.Startup.{run, for_each}
use blog_solutions.Local.Transact.{Kind, dynamic, Account, Envelope, prepare, check_envelope}
use blog_solutions.Local.Token.{article_transfer, deploy_token}
use blog_solutions.Local.Submission.{key_number, submit}
use blog_solutions.Fees.Caps.{fee_caps}

module _ {Tx Key : Type 0} (lib : Ethereum Tx Key) where
  abbrev pub message : ℕ → ℕ → ℤ → ℤ → CallMsg
  message from to tip fee_cap = record {
    from = from;
    to = to;
    value = none;
    data_of = article_transfer;
    gas_price = none;
    gas_tip_cap = some tip;
    gas_fee_cap = some fee_cap;
    access_list = [];
    blob_gas_fee_cap = none;
    blob_hashes = [];
  }

  -- The case "dynamic" of the `switch`.
  unfoldable pub sign_dynamic : ℕ → ℤ → Account Key → NodeProgram Tx (Envelope Tx)
  sign_dynamic token chain account = do
    (tip, fee_cap) ← fee_caps
    estimated ← ask (estimate_gas (message account.from token tip fee_cap))
    gas ← checked call_failed estimated
    signed ← checked call_failed (
        lib.sign_dynamic_fee chain account.key (record {
          chain = chain;
          nonce = account.nonce;
          gas_tip_cap = tip;
          gas_fee_cap = fee_cap;
          gas = gas;
          to = token;
          value = pos 0;
          data_of = article_transfer;
        }))
    done (ok (record { to = token; value = pos 0; data_of = article_transfer; signed = signed }))

  unfoldable pub sign_kind : ℕ → ℤ → Account Key → Kind → NodeProgram Tx (Envelope Tx)
  sign_kind token chain account dynamic = sign_dynamic token chain account
  sign_kind token chain account _ = fail unsupported_kind

  unfoldable pub transact : ℕ → ℤ → ℕ → Kind → NodeProgram Tx Unit
  transact polls chain token kind = do
    account ← prepare lib (key_number kind)
    envelope ← sign_kind token chain account kind
    recovered ← check_envelope lib chain account envelope
    submit lib polls token kind account envelope

  unfoldable pub work : ℕ → ℤ → NodeProgram Tx Unit
  work polls chain = do
    token ← deploy_token lib
    for_each (transact polls chain token) (dynamic ∷ [])

  unfoldable pub run_dynamic : ℕ → Session Tx Unit
  run_dynamic polls = run (work polls)
