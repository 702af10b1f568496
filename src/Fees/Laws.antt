-- ===== src/Fees/Laws.antt =====
-- What the caps are.
use blog_solutions.Prelude.{
  ℕ, ◌+◌, ◌*◌, ◌/◌, ◌^◌, ◌≤◌, ◌<◌, ◌≡◌, ◌↔◌, refl, [], ◌∷◌, ℤ, pos, negsuc, ◌+ℤ◌, List, Bool, true,
  false, Outcome, ok, err, ltb, lt→ltb, ltb→lt, if◌then◌else◌, Returns, arith, inl, inr,
}
use blog_solutions.Local.Program.{
  Trace, Happened, Ensures, exec-Ensures, World, exec, on_end, ◌>>=◌,
}
use blog_solutions.Local.Calls.{
  Reply, answer, failure, Failure, call_failed, NodeCall, NodeAnswer, fee_history,
  suggest_gas_tip_cap, checked,
}
use blog_solutions.Local.Success.{OnSuccess}
use blog_solutions.Fees.Caps.{
  FeeError, fee_cap, fee_exceeds_uint256, buffered, last_of, last_fee, cap_with, cap_on, fee_caps,
}

-- A cap of 256 bits for fees that are not negative: the tip, and 112 hundredths of the base fee
-- rounded down.
pub record IsCap (base tip cap_fee : ℤ) : Type 0 where
  pub b : ℕ
  pub t : ℕ
  pub c : ℕ
  pub is_base : base ≡ pos b
  pub is_tip : tip ≡ pos t
  pub is_cap : cap_fee ≡ pos (c + t)
  pub at_most : 100 * c ≤ 112 * b
  pub at_least : 112 * b < 100 * c + 100
  pub fits : c + t < 2 ^ 256

-- Which branch has been taken.
taken :
    (test : Bool) (n : ℕ) (z : ℤ)
    → Path (Outcome FeeError ℤ) (if test then ok (pos n) else err fee_exceeds_uint256) (ok z)
    → (test ≡ true) × (z ≡ pos n)
taken true n z e = (refl, cc e)
taken false n z e = cc

fee_cap-IsCap : (base tip z : ℤ) → fee_cap base tip ≡ ok z → IsCap base tip z
unfolding fee_cap
fee_cap-IsCap (pos b) (pos t) z e =
    let both = taken (ltb (b * 112 / 100 + t) (2 ^ 256)) (b * 112 / 100 + t) z e in
    record {
      b = b;
      t = t;
      c = b * 112 / 100;
      is_base = refl;
      is_tip = refl;
      is_cap = both.1;
      at_most = omega arith;
      at_least = omega arith;
      fits = ltb→lt _ _ both.0;
    }
fee_cap-IsCap (pos b) (negsuc t) z e = cc
fee_cap-IsCap (negsuc b) tip z e = cc

IsCap-fee_cap : (base tip z : ℤ) → IsCap base tip z → fee_cap base tip ≡ ok z
unfolding fee_cap
IsCap-fee_cap base tip z h =
    let floor : h.b * 112 / 100 ≡ h.c = omega (arith, h.at_most, h.at_least) in
    rw (h.is_base, h.is_tip, h.is_cap, floor, lt→ltb (h.c + h.t) (2 ^ 256) h.fits)

-- The cap is given exactly for fees that are not negative and a sum that fits into 256 bits, and
-- it is the tip and 112 hundredths of the base fee rounded down.
pub fee_cap_iff : (base tip z : ℤ) → (fee_cap base tip ≡ ok z) ↔ IsCap base tip z
fee_cap_iff base tip z = (fee_cap-IsCap base tip z, IsCap-fee_cap base tip z)

fee_cap-buffered : (base tip z : ℤ) → fee_cap base tip ≡ ok z → z ≡ buffered base +ℤ tip
unfolding fee_cap buffered
fee_cap-buffered (pos b) (pos t) z e =
    (taken (ltb (b * 112 / 100 + t) (2 ^ 256)) (b * 112 / 100 + t) z e).1
fee_cap-buffered (pos b) (negsuc t) z e = cc
fee_cap-buffered (negsuc b) tip z e = cc

-- What the node has said when `feeCaps` has a tip and a cap.
pub record IsPriced {Tx : Type 0} (t : Trace (NodeCall Tx) NodeAnswer) (caps : ℤ × ℤ) : Type 0 where
  pub fee : ℤ
  pub fees : List ℤ
  pub history : Happened (fee_history, answer (fee ∷ fees)) t
  pub tip : Happened (suggest_gas_tip_cap, answer caps.0) t
  pub agrees : (z : ℤ) → fee_cap (last_of fee fees) caps.0 ≡ ok z → z ≡ caps.1

module _ {Tx : Type 0} where
  -- The outcome returns, and is priced if it is a success.
  abbrev IsSound : Trace (NodeCall Tx) NodeAnswer → Outcome Failure (ℤ × ℤ) → Type 0
  IsSound t o = Returns o × OnSuccess IsPriced t o

  capped :
      (fee : ℤ) (fees : List ℤ) (reply : Reply ℤ) (past : Trace (NodeCall Tx) NodeAnswer)
      → Happened (fee_history, answer (fee ∷ fees)) past
      → Ensures IsSound ((suggest_gas_tip_cap, reply) ∷ past) (cap_with (fee ∷ fees) reply)
  unfolding cap_with last_fee Ensures on_end
  capped fee fees (failure e) past h = (tt, tt)
  capped fee fees (answer tip) past h = (
    tt,
    record {
      fee = fee;
      fees = fees;
      history = inr h;
      tip = inl refl;
      agrees = λ z e. fee_cap-buffered (last_of fee fees) tip z e;
    },
  )

module _ (Tx : Type 0) where
  cap_on-IsSound :
      (fees : List ℤ) → Ensures (IsSound {Tx = Tx}) ((fee_history, answer fees) ∷ []) (cap_on fees)
  unfolding cap_on Ensures on_end
  cap_on-IsSound [] = (tt, tt)
  cap_on-IsSound (fee ∷ fees) = λ reply. capped fee fees reply _ (inl refl)

  history-IsSound :
      (history : Reply (List ℤ))
      → Ensures
          (IsSound {Tx = Tx})
          ((fee_history, history) ∷ [])
          (checked call_failed history >>= cap_on)
  unfolding Ensures on_end
  history-IsSound (answer fees) = cap_on-IsSound fees
  history-IsSound (failure e) = (tt, tt)

  fee_caps-IsSound : Ensures (IsSound {Tx = Tx}) [] fee_caps
  unfolding fee_caps Ensures on_end
  fee_caps-IsSound = history-IsSound

  -- Whatever the node answers, an empty history too, `feeCaps` of the local reproductions returns.
  -- A tip and a cap that it gives are the tip of the node and, where the offline program gives a
  -- cap on the last base fee of the history, the same cap.
  pub fee_caps_sound :
      (world : World (NodeCall Tx) NodeAnswer)
      → Returns (exec world [] fee_caps).1
        × OnSuccess IsPriced (exec world [] fee_caps).0 (exec world [] fee_caps).1
  fee_caps_sound world = exec-Ensures world IsSound [] fee_caps fee_caps-IsSound
