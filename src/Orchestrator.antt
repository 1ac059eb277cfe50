-- ===== src/Orchestrator.antt =====
-- The control flow of the reasoning loop (cio/core/orchestrator.py): `Orchestrator.run` from the
-- stale gate to the ceiling check, and `_check_spend_ceiling`. The code engine, the personas (with
-- their caches) and the stale gate are answers that a call may get, an exception among them; the
-- theorems hold for all answers. `D` is the type of a persona's decision, `X` of an exception.
use petrosa_cio.Prelude.{
  ℕ, Str, Bool, true, false, not, ◌&&◌, if◌then◌else◌, Option, none, some, List, [], ◌∷◌, Result,
  ok, raise,
}
use petrosa_cio.Prelude.Int.{ℤ, pos, ltb_ℤ}
use petrosa_cio.Leverage.{EnvInt, arbitrate_leverage}
use petrosa_cio.Portfolio.{
  EnvFloat, Positions, CeilingCheckResult, would_breach_ceiling, record_admit,
}
use petrosa_cio.Spend.{Rates, PeriodSpend, Clock, check_ceiling}
pub mod Run
pub mod Bypass
pub mod Admission
pub mod Hard
mod Tests

-- What the loop reads of a `CodeEngineResult`.
pub record CodeResult : Type 0 where
  pub hard_blocked : Bool
  pub kelly_position_usd : Option ℤ

-- What the loop reads of a `TriggerContext`.
pub record Context : Type 0 where
  pub strategy_id : Str
  pub is_trade_intent : Bool
  pub strategy_revision_id : Option Str
  pub available_capital_usd : ℤ
  pub recommended_leverage : Option ℤ
  pub strategy_leverage_envelope : Option ℤ

-- The state that calls share: the two flags, the ledger of positions, and the spend tracker.
pub record Orchestrator : Type 0 where
  pub use_llm_reasoning : Bool
  pub ceiling_triggered_bypass : Bool
  pub positions : Positions
  pub spend : PeriodSpend

pub record Environment : Type 0 where
  pub operator_max : EnvInt
  pub portfolio_ceiling : EnvFloat
  pub rates : Rates

-- The answers in one call: the engine's depends on the bypass mode; the classifier alone is asked in
-- the bypass mode, in which it calls no model, or else records what its call spends, as the personas
-- of the full loop do.
pub record Answers {ℓ κ} (X : Type ℓ) (D : Type κ) : Type (ℓ ⊔ κ) where
  pub stale : Result X Bool
  pub engine : Bool → Result X CodeResult
  pub classify_bypassed : Result X D
  pub classify : PeriodSpend → PeriodSpend × Result X D
  pub personas : PeriodSpend → PeriodSpend × Result X D
  pub clock : Clock

-- The decision of a call: a rejection by a gate, a persona's decision, or `SAFE_DECISION_RESULT`.
pub data Decision {ℓ} (D : Type ℓ) : Type ℓ where
  rejected_stale : Decision D
  rejected_ceiling : CeilingCheckResult → Decision D
  decided : D → Decision D
  safe : Decision D

-- `context.trigger_type == TRADE_INTENT and context.strategy_revision_id`.
pub is_gated : Context → Bool
is_gated c = elim c.strategy_revision_id [
  | none ↦ false
  | some [] ↦ false
  | some (x ∷ s) ↦ c.is_trade_intent
]

-- The gate fails open.
pub is_stale {ℓ} : {X : Type ℓ} → Context → Result X Bool → Bool
unfolding is_gated
is_stale c (raise e) = false
is_stale c (ok stale) = is_gated c && stale

-- `float(code_result.kelly_position_usd or 0.0)`.
pub new_position_size : CodeResult → ℤ
new_position_size r = elim r.kelly_position_usd [ none ↦ pos 0 | some size ↦ size ]

-- The check of the aggregate, for an admission of the given size.
pub ceiling_check : Environment → Positions → Context → ℤ → ℤ → CeilingCheckResult
ceiling_check env positions c size leverage =
    would_breach_ceiling positions env.portfolio_ceiling size leverage c.available_capital_usd none

abbrev pub leverage_of : Environment → Context → ℤ
leverage_of env c =
    (arbitrate_leverage env.operator_max c.recommended_leverage none
      c.strategy_leverage_envelope).decided_leverage

-- The portfolio gate: the ledger with the admission, or the check that refuses it.
pub admit : Environment → Positions → Context → CodeResult → Result CeilingCheckResult Positions
unfolding new_position_size ceiling_check
admit env positions c r =
    if r.hard_blocked
    then ok positions
    else let size = new_position_size r in
      let leverage = leverage_of env c in
      let check = ceiling_check env positions c size leverage in
      if ltb_ℤ (pos 0) size
      then if check.would_breach
        then raise check
        else ok (record_admit positions c.strategy_id size leverage)
      else ok positions

-- The two flags after the check of the ceiling.
pub transition : Orchestrator → Bool → Orchestrator
transition o breached =
    if not breached && o.ceiling_triggered_bypass
    then record o { ceiling_triggered_bypass = false; use_llm_reasoning = true }
    else if breached && o.use_llm_reasoning
    then record o { use_llm_reasoning = false; ceiling_triggered_bypass = true }
    else o

-- `_check_spend_ceiling`. An alert that cannot be sent is only logged.
pub check_spend_ceiling : Environment → Orchestrator → Clock → Orchestrator
unfolding transition
check_spend_ceiling env o now =
    let (spend, breached) = check_ceiling env.rates o.spend now in
    transition (record o { spend = spend }) breached

module _ {ℓ κ} {X : Type ℓ} {D : Type κ} where
  -- `except Exception: return SAFE_DECISION_RESULT`.
  pub or_safe : Result X D → Decision D
  or_safe (ok d) = decided d
  or_safe (raise e) = safe

  -- The loop with the personas, and the check after it.
  pub reason : Environment → Orchestrator → Answers X D → Orchestrator × Decision D
  unfolding check_spend_ceiling
  reason env o a =
      let (spend, answer) = a.personas o.spend in
      let spent = record o { spend = spend } in
      elim answer [
        | raise e ↦ (spent, safe)
        | ok d ↦ (check_spend_ceiling env spent a.clock, decided d)
      ]

  -- `self.action_classifier.classify(…, bypass_mode=not self.use_llm_reasoning)`.
  pub classify_blocked : Orchestrator → Answers X D → Orchestrator × Decision D
  unfolding or_safe
  classify_blocked o a =
      let (spend, answer) = a.classify o.spend in
      if o.use_llm_reasoning
      then (record o { spend = spend }, or_safe answer)
      else (o, or_safe a.classify_bypassed)

  -- After the portfolio gate: the classifier alone if the engine blocks or in the bypass mode.
  pub conclude : Environment → Orchestrator → Answers X D → CodeResult → Orchestrator × Decision D
  unfolding reason or_safe classify_blocked
  conclude env o a r =
      if r.hard_blocked
      then classify_blocked o a
      else if o.use_llm_reasoning
      then reason env o a
      else (o, or_safe a.classify_bypassed)

  -- What follows the stale gate, in the `try` block.
  pub admit_and_conclude :
      Environment → Orchestrator → Context → Answers X D → CodeResult → Orchestrator × Decision D
  unfolding admit conclude
  admit_and_conclude env o c a r = elim (admit env o.positions c r) [
    | raise check ↦ (o, rejected_ceiling check)
    | ok positions ↦ conclude env (record o { positions = positions }) a r
  ]

  pub run_engine : Environment → Orchestrator → Context → Answers X D → Orchestrator × Decision D
  unfolding admit_and_conclude
  run_engine env o c a = elim (a.engine (not o.use_llm_reasoning)) [
    | raise e ↦ (o, safe)
    | ok r ↦ admit_and_conclude env o c a r
  ]

  -- `Orchestrator.run`.
  pub run : Environment → Orchestrator → Context → Answers X D → Orchestrator × Decision D
  unfolding is_stale run_engine
  run env o c a = if is_stale c a.stale then (o, rejected_stale) else run_engine env o c a
