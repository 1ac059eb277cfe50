-- ===== src/Leverage/Tests.antt =====
-- The arbiter at an unset variable and an envelope of 5.
use petrosa_cio.Prelude.{◌≡◌, refl, none, some}
use petrosa_cio.Prelude.Int.{ℤ, pos, negsuc, ◌≤ℤ◌}
use petrosa_cio.Leverage.{EnvInt, Branch, arbitrate_leverage, effective_operator_max}
use petrosa_cio.Leverage.Bounds.{
  Within, Answered, arbitrate_leverage_bounds, arbitrate_leverage_branch,
}

overridden :
    arbitrate_leverage EnvInt.unset (some (pos 20)) none (some (pos 5))
    ≡ record { decided_leverage = pos 5; per_strategy_bound = pos 5; branch = Branch.override }
unfolding arbitrate_leverage
overridden = refl

clamped :
    arbitrate_leverage (EnvInt.value (negsuc 3)) none none none
    ≡ record { decided_leverage = pos 1; per_strategy_bound = pos 1; branch = Branch.fallback }
unfolding arbitrate_leverage
clamped = refl

arbitrate_leverage_bounds_example :
    let d = arbitrate_leverage EnvInt.unset (some (pos 20)) none (some (pos 5)) in
    (pos 1 ≤ℤ d.decided_leverage)
    × (d.decided_leverage ≤ℤ d.per_strategy_bound)
    × (d.decided_leverage ≤ℤ effective_operator_max EnvInt.unset none)
    × Within d.decided_leverage (some (pos 5))
    × ((l : ℤ)
        → l ≤ℤ effective_operator_max EnvInt.unset none
        → Within l (some (pos 5))
        → l ≤ℤ d.per_strategy_bound)
arbitrate_leverage_bounds_example =
    arbitrate_leverage_bounds EnvInt.unset (some (pos 20)) none (some (pos 5))

branch_of_envelope :
    let missing = arbitrate_leverage EnvInt.unset none none (some (pos 5)) in
    (missing.branch ≡ Branch.fallback)
    × (missing.decided_leverage ≡ missing.per_strategy_bound)
    × ((r : ℤ) → Answered r (arbitrate_leverage EnvInt.unset (some r) none (some (pos 5))))
branch_of_envelope = arbitrate_leverage_branch EnvInt.unset none (some (pos 5))
