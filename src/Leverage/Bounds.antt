-- ===== src/Leverage/Bounds.antt =====
-- The decided leverage as a number between bounds.
use petrosa_cio.Prelude.{Bool-cases, ◌≡◌, refl, ◌⊎◌, inl, inr, Option, none, some, arith}
use petrosa_cio.Prelude.Int.{ℤ, pos, ◌≤ℤ◌, ltb_ℤ, leb_ℤ}
use petrosa_cio.Leverage.{
  EnvInt, Branch, LeverageDecision, operator_max_from_env, effective_operator_max,
  per_strategy_bound_of, decide, arbitrate_leverage,
}

effective-pos : (env : EnvInt) (m : Option ℤ) → pos 1 ≤ℤ effective_operator_max env m
unfolding effective_operator_max operator_max_from_env
effective-pos EnvInt.unset none = ground arith
effective-pos EnvInt.malformed none = ground arith
effective-pos (EnvInt.value v) none = ground arith
effective-pos env (some m) = ground arith

bound-pos :
    (operator_max : ℤ) (envelope : Option ℤ)
    → pos 1 ≤ℤ operator_max
    → pos 1 ≤ℤ per_strategy_bound_of operator_max envelope
unfolding per_strategy_bound_of
bound-pos m none h = h
bound-pos m (some e) h = ground arith

bound-le :
    (operator_max : ℤ) (envelope : Option ℤ)
    → per_strategy_bound_of operator_max envelope ≤ℤ operator_max
unfolding per_strategy_bound_of
bound-le m none = ground arith
bound-le m (some e) = ground arith

-- What a strategy's envelope asks of a leverage: nothing, if it is missing or not positive.
abbrev pub Within : ℤ → Option ℤ → Type 0
Within l none = Unit
Within l (some envelope) = pos 1 ≤ℤ envelope → l ≤ℤ envelope

bound-Within :
    (operator_max : ℤ) (envelope : Option ℤ) (l : ℤ)
    → l ≤ℤ per_strategy_bound_of operator_max envelope
    → Within l envelope
unfolding per_strategy_bound_of
bound-Within m none l h = tt
bound-Within m (some e) l h = λ p. ground arith

bound-greatest :
    (operator_max : ℤ) (envelope : Option ℤ) (l : ℤ)
    → l ≤ℤ operator_max
    → Within l envelope
    → l ≤ℤ per_strategy_bound_of operator_max envelope
unfolding per_strategy_bound_of
bound-greatest m none l h w = h
bound-greatest m (some e) l h w = ground arith

decide_bounds :
    (recommended : Option ℤ) (bound : ℤ)
    → pos 1 ≤ℤ bound
    → (pos 1 ≤ℤ (decide recommended bound).decided_leverage)
      × ((decide recommended bound).decided_leverage ≤ℤ bound)
unfolding decide
decide_bounds none bound h = (h, ground arith)
decide_bounds (some r) bound h = (ground arith, ground arith)

bound-arbitrate :
    (env : EnvInt) (recommended operator_max envelope : Option ℤ)
    → (arbitrate_leverage env recommended operator_max envelope).per_strategy_bound
      ≡ per_strategy_bound_of (effective_operator_max env operator_max) envelope
unfolding arbitrate_leverage
bound-arbitrate env none m e = refl
bound-arbitrate env (some r) m e = ground arith

-- For every environment, recommendation, caller's maximum and envelope: the decided leverage is at
-- least 1, at most the reported bound, at most the effective operator maximum, and at most the
-- strategy's envelope if that is positive; and the reported bound is the greatest leverage that the
-- operator maximum and the envelope allow.
pub arbitrate_leverage_bounds :
    (env : EnvInt) (recommended operator_max envelope : Option ℤ)
    → let d = arbitrate_leverage env recommended operator_max envelope in
      (pos 1 ≤ℤ d.decided_leverage)
      × (d.decided_leverage ≤ℤ d.per_strategy_bound)
      × (d.decided_leverage ≤ℤ effective_operator_max env operator_max)
      × Within d.decided_leverage envelope
      × ((l : ℤ)
          → l ≤ℤ effective_operator_max env operator_max
          → Within l envelope
          → l ≤ℤ d.per_strategy_bound)
unfolding arbitrate_leverage
arbitrate_leverage_bounds env r m e =
    let b = per_strategy_bound_of (effective_operator_max env m) e in
    let p = bound-pos (effective_operator_max env m) e (effective-pos env m) in
    let (low, high) = decide_bounds r b p in
    let same : (decide r b).per_strategy_bound ≡ b = bound-arbitrate env r m e in
    (
      low,
      rw same high,
      omega (arith, high, bound-le (effective_operator_max env m) e),
      bound-Within (effective_operator_max env m) e _ high,
      λ l h w. rw same (bound-greatest (effective_operator_max env m) e l h w),
    )

-- The three ways in which a recommendation of `r` may be answered.
abbrev pub Answered : ℤ → LeverageDecision → Type 0
Answered r d =
    ((r ≤ℤ pos 0) × (d.branch ≡ Branch.fallback) × (d.decided_leverage ≡ d.per_strategy_bound))
    ⊎ (((pos 1 ≤ℤ r)
          × (r ≤ℤ d.per_strategy_bound)
          × (d.branch ≡ Branch.accept)
          × (d.decided_leverage ≡ r))
        ⊎ ((¬ (r ≤ℤ d.per_strategy_bound))
            × (d.branch ≡ Branch.override)
            × (d.decided_leverage ≡ d.per_strategy_bound)))

decide-Answered : (r b : ℤ) → pos 1 ≤ℤ b → Answered r (decide (some r) b)
unfolding decide
decide-Answered r b h = elim (Bool-cases (ltb_ℤ r (pos 1))) [
  | inl low ↦ rw low (inl (ground arith, refl, refl))
  | inr positive ↦ rw positive (elim (Bool-cases (leb_ℤ r b)) [
    | inl within ↦ rw within (inr (inl (ground arith, ground arith, refl, refl)))
    | inr above ↦ rw above (inr (inr (ground arith, refl, refl)))
  ])
]

-- The recommendation decides as far as the bound allows. A recommendation of at least 1 is accepted
-- unchanged exactly when it is within the reported bound and overridden by the bound otherwise; a
-- missing one, or one below 1, falls back to the bound.
pub arbitrate_leverage_branch :
    (env : EnvInt) (operator_max envelope : Option ℤ)
    → let missing = arbitrate_leverage env none operator_max envelope in
      (missing.branch ≡ Branch.fallback)
      × (missing.decided_leverage ≡ missing.per_strategy_bound)
      × ((r : ℤ) → Answered r (arbitrate_leverage env (some r) operator_max envelope))
unfolding arbitrate_leverage
arbitrate_leverage_branch env m e = (
  ground arith,
  ground arith,
  λ r.
      decide-Answered r (per_strategy_bound_of (effective_operator_max env m) e)
        (bound-pos (effective_operator_max env m) e (effective-pos env m)),
)
