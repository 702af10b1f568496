-- ===== src/Local/Legacy.antt =====
-- The whole program of evm/evm-tx-understanding-legacy-ethereum/transaction-types/local/main.go.
use blog_solutions.Prelude.{ℕ, ℤ, ◌≡◌, [], ◌∷◌, List, ok}
use blog_solutions.Local.Program.{done, Trace, World, exec, Ensures}
use blog_solutions.Local.Calls.{NodeCall, NodeAnswer, Call, CallAnswer, Session}
use blog_solutions.Local.Ethereum.{Ethereum}
use blog_solutions.Local.Success.{OnSuccess, OnSuccess-bind, OnSuccess-exec}
use blog_solutions.Local.Startup.{for_each, run}
use blog_solutions.Local.Sessions.{Reached, run-Reached}
use blog_solutions.Local.Transact.{Kind, legacy, transact}
use blog_solutions.Local.Transact.Transfer.{IsTransferred, transact-IsTransferred}

abbrev pub kinds : List Kind
kinds = legacy ∷ []

-- The loop over the kinds is what follows the checks.
unfoldable pub run_legacy : {Tx Key : Type 0} → Ethereum Tx Key → ℕ → Session Tx Unit
run_legacy lib polls = run (λ chain. for_each (transact lib polls chain) kinds)

module _ {Tx Key : Type 0} (lib : Ethereum Tx Key) (polls : ℕ) where
  for_each-IsTransferred :
      (chain : ℤ)
      → Ensures
          (OnSuccess (λ t u. IsTransferred lib chain t))
          []
          (for_each (transact lib polls chain) kinds)
  unfolding for_each
  for_each-IsTransferred chain =
      let R : Trace (NodeCall Tx) NodeAnswer → Unit → Type 0 = λ t u. IsTransferred lib chain t in
      OnSuccess-bind R R [] (transact lib polls chain legacy) (λ sent. done (ok tt))
        (transact-IsTransferred lib polls chain legacy []) (λ t a w r. unfold Ensures in r)

  -- Whatever the world answers, when the program ends without an error then the node has named the
  -- local chain and, behind that, the program has made the calls of a transfer that the node has
  -- confirmed: the legacy transaction for the recipient and the amount, signed for that chain by
  -- the account of key 1 with the nonce given; and, in this order, a balance of the recipient, the
  -- sending, the receipt with status 1, its type and its hash, the transaction, the next nonce, and
  -- a balance of the recipient that is greater by the amount.
  pub run_legacy_delivers :
      (world : World (Call Tx) CallAnswer)
      → (exec world [] (run_legacy lib polls)).1 ≡ ok tt
      → Reached (λ chain t. IsTransferred lib chain t) (exec world [] (run_legacy lib polls)).0
  unfolding run_legacy
  run_legacy_delivers world e =
      OnSuccess-exec (λ t u. Reached (λ chain t. IsTransferred lib chain t) t) world [] _ tt
        (run-Reached (λ chain t. IsTransferred lib chain t)
          (λ chain. for_each (transact lib polls chain) kinds) for_each-IsTransferred)
        e
