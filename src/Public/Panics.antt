-- ===== src/Public/Panics.antt =====
-- How the EIP-1559 program ends, with a fee history that may have no base fee:
-- evm/evm-tx-dynamic-fee-transactions-eip/transaction-types/eip1559/eip1559.go
use blog_solutions.Prelude.{
  ℤ, ◌≡◌, List, [], ◌∷◌, Option, Outcome, ok, err, panic, out_of_fuel, index_range,
}
use blog_solutions.Local.Program.{Trace, Happened}
use blog_solutions.Local.Calls.{
  answer, Failure, call_failed, submission_failed, Receipt, NodeCall, NodeAnswer, fee_history,
}
use blog_solutions.Local.Ethereum.{Ethereum}
use blog_solutions.Local.Transact.Once.{sends}

module _ {Tx : Type 0} where
  -- What explains each end, and how many transactions have been sent by then.
  abbrev pub IsExplained :
      Trace (NodeCall Tx) NodeAnswer → Outcome Failure (Option Receipt) → Type 0
  IsExplained t (ok o) =
      (fee : ℤ) × (fees : List ℤ) × Happened (fee_history, answer (fee ∷ fees)) t × (sends t ≡ 1)
  IsExplained t (err (call_failed e)) = sends t ≡ 0
  IsExplained t (err (submission_failed e)) = sends t ≡ 1
  IsExplained t (err _) = ⊥
  IsExplained t (panic p) = (p ≡ index_range) × Happened (fee_history, answer []) t × (sends t ≡ 0)
  IsExplained t out_of_fuel = ⊥
