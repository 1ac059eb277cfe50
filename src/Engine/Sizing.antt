-- ===== src/Engine/Sizing.antt =====
-- The sizes that the engine recommends (cio/core/engine.py, parts 3 to 6 of `CodeEngine.run`).
use petrosa_cio.Prelude.{
  ℕ, ◌<◌, ◌≡◌, refl, sym, ◌⊎◌, inl, inr, true, false, Bool-cases, Option, none, some, Option-cases,
  false_ne_true, Holds, List, arith,
}
use petrosa_cio.Prelude.Floats.{
  Floats, IsOrdered, zero_F, min-le_left, min-le_right, le-max_left, max-le, refl_F,
}
use petrosa_cio.Engine.{
  TriggerContext, BlockReason, CodeEngineResult, Warning, regime_leverage_cap, risk_gate,
  regime_gate, blocked_result, kelly_fraction_of, truthy, kelly, cap_position, sl_of, tp_of,
  unsized, quantify, run,
}

module _ {F : Type 0} (O : Floats F) where
  abbrev pub IsFraction : F → Type 0
  IsFraction f = (O.leb (zero_F O) f ≡ true) × (O.leb f (O.lit 25 100) ≡ true)

  abbrev pub IsWithin : F → F → Type 0
  IsWithin limit p = (O.leb (zero_F O) p ≡ true) × (O.leb p limit ≡ true)

  -- The percentages are there unless the engine blocks.
  abbrev pub IsComplete : CodeEngineResult F → Type 0
  IsComplete r =
      (r.hard_blocked ≡ true)
      ⊎ ((sl : F) × (tp : F) × (r.recommended_sl_pct ≡ some sl) × (r.recommended_tp_pct ≡ some tp))

  quantify-IsComplete : (c : TriggerContext F) (w : Option F) → IsComplete (quantify O c w)
  unfolding quantify unsized
  quantify-IsComplete c none = inr (sl_of O c, tp_of O c, refl, refl)
  quantify-IsComplete c (some w) = elim (Bool-cases (O.ltb (zero_F O) (sl_of O c))) [
    | inl stop ↦ rw stop (inr (sl_of O c, tp_of O c, refl, refl))
    | inr flat ↦ rw flat (inr (sl_of O c, tp_of O c, refl, refl))
  ]

  blocked-IsComplete : (r : BlockReason) → IsComplete (blocked_result O r)
  unfolding blocked_result
  blocked-IsComplete r = inl refl

  pub run-IsComplete : (c : TriggerContext F) → IsComplete (run O c)
  unfolding run
  run-IsComplete c = elim (Option-cases (risk_gate O c)) [
    | inr (g, e) ↦ rw (run, e) (blocked-IsComplete g)
    | inl h ↦ elim (Option-cases (regime_gate O c)) [
      | inr (g, e) ↦ rw (run, h, e) (blocked-IsComplete g)
      | inl k ↦ rw (run, h, k) (quantify-IsComplete c c.win_rate)
    ]
  ]

  module _ (laws : IsOrdered O) where
    zero_le : (n d : ℕ) → 0 < d → O.leb (zero_F O) (O.lit n d) ≡ true
    zero_le n d h = laws.lit_le 0 1 n d (omega arith) h (omega arith)

    kelly_fraction_of-IsFraction : (win odds : F) → IsFraction (kelly_fraction_of O win odds)
    unfolding kelly_fraction_of
    kelly_fraction_of-IsFraction win odds = (
      le-max_left O laws (zero_F O) _,
      max-le O laws (zero_F O) _ (O.lit 25 100) (zero_le 25 100 (omega arith))
          (min-le_left O laws (O.lit 25 100) _),
    )

    kelly-IsFraction :
        (win sl tp capital : F)
        → O.leb (zero_F O) capital ≡ true
        → IsFraction (kelly O win sl tp capital).0
          × (O.leb (zero_F O) (kelly O win sl tp capital).1 ≡ true)
    unfolding kelly
    kelly-IsFraction win sl tp capital h = elim (Bool-cases (O.ltb (zero_F O) (O.div tp sl))) [
      | inl odds ↦
          rw odds (
            let f = kelly_fraction_of-IsFraction win (O.div tp sl) in
            (f, laws.mul_nonneg _ _ f.0 h))
      | inr none_left ↦
          rw none_left
            ((zero_le 0 1 (omega arith), zero_le 25 100 (omega arith)), zero_le 0 1 (omega arith))
    ]

    -- What is not truthy is zero.
    falsy_le : (x y : F) → truthy O x ≡ false → O.leb (zero_F O) y ≡ true → O.leb x y ≡ true
    unfolding truthy
    falsy_le x y h k =
        let below : O.leb x (zero_F O) ≡ true = ground arith in laws.trans x (zero_F O) y below k

    cap_position-IsWithin :
        (limit : F) (k : F × F × List Warning)
        → O.leb (zero_F O) limit ≡ true
        → IsFraction k.0
        → O.leb (zero_F O) k.1 ≡ true
        → IsFraction (cap_position O limit k).0 × IsWithin limit (cap_position O limit k).1
    unfolding cap_position
    cap_position-IsWithin limit (f, p, w) h fraction low = elim (Bool-cases (truthy O p)) [
      | inr falsy ↦ rw falsy (fraction, (low, falsy_le p limit falsy h))
      | inl size ↦ elim (Bool-cases (O.ltb limit p)) [
        | inl above ↦ rw (size, above) (fraction, (h, refl_F O laws limit))
        | inr within ↦ rw (size, within) (fraction, (low, laws.le_of_not_lt limit p within))
      ]
    ]

    -- What the limits ask of a result.
    abbrev pub IsSized : TriggerContext F → CodeEngineResult F → Type 0
    IsSized c r =
        Holds IsFraction r.kelly_fraction
        × Holds (IsWithin c.risk_limits.max_position_size_usd) r.kelly_position_usd
        × (r.hard_blocked ≡ false
            → (O.leb r.leverage c.strategy_defaults.leverage ≡ true)
              × (O.leb r.leverage (regime_leverage_cap O c.regime) ≡ true))

    module _ (c : TriggerContext F) where
      unsized_leverage :
          (O.leb (unsized O c).leverage c.strategy_defaults.leverage ≡ true)
          × (O.leb (unsized O c).leverage (regime_leverage_cap O c.regime) ≡ true)
      unfolding unsized
      unsized_leverage = (min-le_left O laws _ _, min-le_right O laws _ _)

      module _ (positive : O.leb (zero_F O) c.risk_limits.max_position_size_usd ≡ true)
          (solvent : O.leb (zero_F O) c.available_capital_usd ≡ true) where
        quantify-IsSized : (w : Option F) → IsSized c (quantify O c w)
        unfolding quantify
        quantify-IsSized none = (tt, tt, λ h. unsized_leverage)
        quantify-IsSized (some win) =
            let fits =
              cap_position-IsWithin c.risk_limits.max_position_size_usd _ positive
                (kelly-IsFraction win (sl_of O c) (tp_of O c) c.available_capital_usd solvent).0
                (kelly-IsFraction win (sl_of O c) (tp_of O c) c.available_capital_usd solvent).1 in
            elim (Bool-cases (O.ltb (zero_F O) (sl_of O c))) [
              | inl stop ↦ rw stop (fits.0, fits.1, λ h. unsized_leverage)
              | inr flat ↦ rw flat (tt, tt, λ h. unsized_leverage)
            ]

        blocked-IsSized : (r : BlockReason) → IsSized c (blocked_result O r)
        unfolding blocked_result
        blocked-IsSized r = (tt, tt, λ h. absurd (false_ne_true (sym h)))

        -- Provided that the limit on positions and the capital are not negative, and that floats
        -- are ordered: the fraction of the engine is between 0 and a quarter, the position between
        -- 0 and its limit, and unless the engine blocks the leverage is at most the strategy's and
        -- at most the cap of the regime.
        pub run-IsSized : IsSized c (run O c)
        unfolding run
        run-IsSized = elim (Option-cases (risk_gate O c)) [
          | inr (g, e) ↦ rw (run, e) (blocked-IsSized g)
          | inl h ↦ elim (Option-cases (regime_gate O c)) [
            | inr (g, e) ↦ rw (run, h, e) (blocked-IsSized g)
            | inl k ↦ rw (run, h, k) (quantify-IsSized c.win_rate)
          ]
        ]
