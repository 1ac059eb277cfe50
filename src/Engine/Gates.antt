-- ===== src/Engine/Gates.antt =====
-- When the engine blocks (cio/core/engine.py, parts 1 and 2 of `CodeEngine.run`).
use petrosa_cio.Prelude.{
  ◌≡◌, refl, ◌↔◌, ◌⊎◌, inl, inr, true, false, Bool-cases, Option, none, some, Option-cases,
  false_ne_true, arith, sym, subst, ◌∙◌, Holds,
}
use petrosa_cio.Prelude.Int.{◌≤ℤ◌, leb_ℤ}
use petrosa_cio.Prelude.Floats.{Floats}
use petrosa_cio.Models.{RegimeEnum, ConfidenceLevel}
use petrosa_cio.Engine.{
  TriggerContext, BlockReason, is_blocking, is_low, risk_gate, regime_gate, blocked_result,
  quantify, CodeEngineResult, unsized, run,
}

-- The condition that each reason names.
abbrev pub Trips : {F : Type 0} → Floats F → TriggerContext F → BlockReason → Type 0
Trips O c BlockReason.global_drawdown =
    O.leb c.risk_limits.max_drawdown_pct c.global_drawdown_pct ≡ true
Trips O c BlockReason.global_orders = c.risk_limits.max_orders_global ≤ℤ c.open_orders_global
Trips O c BlockReason.symbol_orders = c.risk_limits.max_orders_per_symbol ≤ℤ c.open_orders_symbol
Trips O c (BlockReason.regime_block g) =
    (c.regime ≡ g)
    × ((g ≡ RegimeEnum.capitulation) ⊎ (g ≡ RegimeEnum.choppy))
    × (¬ (c.regime_confidence ≡ ConfidenceLevel.low))

is_blocking_regime :
    (g : RegimeEnum)
    → is_blocking g ≡ true
    → (g ≡ RegimeEnum.capitulation) ⊎ (g ≡ RegimeEnum.choppy)
unfolding is_blocking
is_blocking_regime RegimeEnum.capitulation h = inl refl
is_blocking_regime RegimeEnum.choppy h = inr refl
is_blocking_regime _ h = absurd (false_ne_true h)

is_blocking-of :
    (g : RegimeEnum)
    → ((g ≡ RegimeEnum.capitulation) ⊎ (g ≡ RegimeEnum.choppy))
    → is_blocking g ≡ true
unfolding is_blocking
is_blocking-of g (inl e) = rw e refl
is_blocking-of g (inr e) = rw e refl

is_low_iff : (k : ConfidenceLevel) → (is_low k ≡ true) ↔ (k ≡ ConfidenceLevel.low)
unfolding is_low
is_low_iff ConfidenceLevel.low = (λ h. refl, λ h. refl)
is_low_iff ConfidenceLevel.medium = (λ h. absurd (false_ne_true h), λ h. cc)
is_low_iff ConfidenceLevel.high = (λ h. absurd (false_ne_true h), λ h. cc)

module _ {F : Type 0} (O : Floats F) (c : TriggerContext F) where
  risk_gate-Trips : Holds (Trips O c) (risk_gate O c)
  unfolding risk_gate
  risk_gate-Trips = elim (Bool-cases (O.leb c.risk_limits.max_drawdown_pct c.global_drawdown_pct)) [
    | inl drawdown ↦ rw drawdown drawdown
    | inr calm ↦ elim (Bool-cases (leb_ℤ c.risk_limits.max_orders_global c.open_orders_global)) [
      | inl global ↦ rw (calm, global) (ground arith)
      | inr room ↦
          elim (Bool-cases (leb_ℤ c.risk_limits.max_orders_per_symbol c.open_orders_symbol)) [
            | inl symbol ↦ rw (calm, room, symbol) (ground arith)
            | inr free ↦ rw (calm, room, free) tt
          ]
    ]
  ]

  risk_gate-none :
      risk_gate O c ≡ none
      → (O.leb c.risk_limits.max_drawdown_pct c.global_drawdown_pct ≡ false)
        × (leb_ℤ c.risk_limits.max_orders_global c.open_orders_global ≡ false)
        × (leb_ℤ c.risk_limits.max_orders_per_symbol c.open_orders_symbol ≡ false)
  unfolding risk_gate
  risk_gate-none h = ground arith

  regime_gate-Trips : Holds (Trips O c) (regime_gate O c)
  unfolding regime_gate
  regime_gate-Trips = elim (Bool-cases (is_blocking c.regime)) [
    | inr quiet ↦ rw quiet tt
    | inl blocking ↦ elim (Bool-cases (is_low c.regime_confidence)) [
      | inl unsure ↦ rw (blocking, unsure) tt
      | inr sure ↦
          rw (blocking, sure)
            (
              refl,
              is_blocking_regime c.regime blocking,
              λ e. false_ne_true (sym sure ∙ (is_low_iff c.regime_confidence).1 e),
            )
    ]
  ]

  regime_gate-none :
      regime_gate O c ≡ none → (is_blocking c.regime ≡ false) ⊎ (is_low c.regime_confidence ≡ true)
  unfolding regime_gate
  regime_gate-none h = ground arith

  quantify_passes :
      (w : Option F)
      → ((quantify O c w).hard_blocked ≡ false) × ((quantify O c w).block_reason ≡ none)
  unfolding quantify unsized
  quantify_passes none = (refl, refl)
  quantify_passes (some w) = ground arith

  -- When neither gate answers, nothing trips.
  passes : risk_gate O c ≡ none → regime_gate O c ≡ none → (r : BlockReason) → ¬ Trips O c r
  passes h k BlockReason.global_drawdown = λ t. false_ne_true (sym (risk_gate-none h).0 ∙ t)
  passes h k BlockReason.global_orders = λ t. ground (arith, risk_gate-none h)
  passes h k BlockReason.symbol_orders = λ t. ground (arith, risk_gate-none h)
  passes h k (BlockReason.regime_block g) = λ (e, b, unsure). elim (regime_gate-none k) [
    | inl quiet ↦ false_ne_true (
        sym quiet
        ∙ is_blocking-of c.regime
            (subst (λ x. (x ≡ RegimeEnum.capitulation) ⊎ (x ≡ RegimeEnum.choppy)) (sym e) b))
    | inr low ↦ unsure ((is_low_iff c.regime_confidence).0 low)
  ]

  -- Whether the engine blocks, and on what.
  abbrev pub Gated : CodeEngineResult F → Type 0
  Gated r =
      (((r.hard_blocked ≡ true) × ((g : BlockReason) × (r.block_reason ≡ some g) × Trips O c g))
        ⊎ ((r.hard_blocked ≡ false)
            × (r.block_reason ≡ none)
            × ((g : BlockReason) → ¬ Trips O c g)))

  blocked-Gated : (g : BlockReason) → Trips O c g → Gated (blocked_result O g)
  unfolding blocked_result
  blocked-Gated g t = inl (refl, (g, refl, t))

  -- For every context: the engine blocks, and then the reason that it gives is the condition that
  -- holds, or it does not block, gives no reason, and no condition holds: the drawdown is below its
  -- limit, so are the open orders of the portfolio and of the symbol, and the regime is neither
  -- CAPITULATION nor CHOPPY unless its confidence is low.
  pub run-Gated : Gated (run O c)
  unfolding run
  run-Gated = elim (Option-cases (risk_gate O c)) [
    | inr (g, e) ↦ rw (run, e) (blocked-Gated g (subst (Holds (Trips O c)) e risk_gate-Trips))
    | inl h ↦ elim (Option-cases (regime_gate O c)) [
      | inr (g, e) ↦
          rw (run, h, e) (blocked-Gated g (subst (Holds (Trips O c)) e regime_gate-Trips))
      | inl k ↦
          rw (run, h, k)
            (inr ((quantify_passes c.win_rate).0, (quantify_passes c.win_rate).1, passes h k))
    ]
  ]
