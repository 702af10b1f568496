-- ===== src/Fees/Runs.antt =====
-- The fee caps at concrete inputs.
use blog_solutions.Prelude.{ℕ, ◌≡◌, ◌↔◌, refl, [], ◌∷◌, pos, negsuc, ok, err, Returns}
use blog_solutions.Local.Program.{World, exec}
use blog_solutions.Local.Calls.{answer, NodeCall, NodeAnswer, fee_history, suggest_gas_tip_cap}
use blog_solutions.Local.Success.{OnSuccess}
use blog_solutions.Local.Silent.{silent}
use blog_solutions.Fees.Caps.{negative_fee, fee_cap, fee_caps}
use blog_solutions.Fees.Laws.{IsCap, IsPriced, fee_cap_iff, fee_caps_sound}

-- The fees of the fixture: 1 and 2 gwei.
fixture_cap : fee_cap (pos 1000000000) (pos 2000000000) ≡ ok (pos 3120000000)
unfolding fee_cap
fixture_cap = refl

negative_cap : fee_cap (negsuc 0) (pos 0) ≡ err negative_fee
unfolding fee_cap
negative_cap = refl

fee_cap_iff_example :
    (fee_cap (pos 1000000000) (pos 2000000000) ≡ ok (pos 3120000000))
    ↔ IsCap (pos 1000000000) (pos 2000000000) (pos 3120000000)
fee_cap_iff_example = fee_cap_iff (pos 1000000000) (pos 2000000000) (pos 3120000000)

abbrev priced_world : World (NodeCall ℕ) NodeAnswer
priced_world past fee_history = answer (pos 900000000 ∷ pos 1000000000 ∷ [])
priced_world past suggest_gas_tip_cap = answer (pos 2000000000)
priced_world past c = silent c

fee_caps_sound_example :
    Returns (exec priced_world [] fee_caps).1
    × OnSuccess IsPriced (exec priced_world [] fee_caps).0 (exec priced_world [] fee_caps).1
fee_caps_sound_example = fee_caps_sound ℕ priced_world
