-- ===== src/Fees/Caps.antt =====
-- `feeCap` and `feeCaps` of evm/evm-tx-dynamic-fee-transactions-eip/transaction-types, in
-- offline/main.go and local/main.go.
use blog_solutions.Prelude.{
  ◌+◌, ◌*◌, ◌/◌, ◌^◌, ℤ, pos, negsuc, ◌+ℤ◌, List, [], ◌∷◌, Outcome, ok, err, panic, index_range,
  ltb, if◌then◌else◌,
}
use blog_solutions.Local.Program.{done, ◌>>=◌}
use blog_solutions.Local.Calls.{
  Reply, call_failed, base_fee_omitted, NodeProgram, fee_history, suggest_gas_tip_cap, ask, fail,
  checked,
}

pub data FeeError : Type 0 where
  negative_fee fee_exceeds_uint256 : FeeError

-- 112 hundredths of a fee. `Div` rounds down.
unfoldable pub buffered : ℤ → ℤ
buffered (pos base) = pos (base * 112 / 100)
buffered (negsuc n) = negsuc ((n * 112 + 111) / 100)

-- `feeCap` of the offline program, with the test of `BitLen` on a cap that is not negative.
unfoldable pub fee_cap : ℤ → ℤ → Outcome FeeError ℤ
fee_cap (negsuc n) tip = err negative_fee
fee_cap (pos base) (negsuc n) = err negative_fee
fee_cap (pos base) (pos tip) =
    let cap_fee = base * 112 / 100 + tip in
    if ltb cap_fee (2 ^ 256) then ok (pos cap_fee) else err fee_exceeds_uint256

-- The last of the base fees behind the first one.
unfoldable pub last_of : ℤ → List ℤ → ℤ
last_of fee [] = fee
last_of fee (next ∷ fees) = last_of next fees

-- `history.BaseFee[len(history.BaseFee)-1]`
unfoldable pub last_fee : {E : Type 0} → List ℤ → Outcome E ℤ
last_fee [] = panic index_range
last_fee (fee ∷ fees) = ok (last_of fee fees)

module _ {Tx : Type 0} where
  -- The tip, and the cap on the last base fee.
  unfoldable pub cap_with : List ℤ → Reply ℤ → NodeProgram Tx (ℤ × ℤ)
  cap_with fees reply = do
    tip ← checked call_failed reply
    last ← done (last_fee fees)
    done (ok (tip, buffered last +ℤ tip))

  -- The test of the history, which makes the index safe.
  unfoldable pub cap_on : List ℤ → NodeProgram Tx (ℤ × ℤ)
  cap_on [] = fail base_fee_omitted
  cap_on (fee ∷ fees) = do reply ← ask suggest_gas_tip_cap; cap_with (fee ∷ fees) reply

  -- `feeCaps` of the local reproductions: the tip and the cap.
  unfoldable pub fee_caps : NodeProgram Tx (ℤ × ℤ)
  fee_caps = do history ← ask fee_history; fees ← checked call_failed history; cap_on fees
