-- ===== src/Nurse.antt =====
-- The guard around the reasoning loop (cio/apps/nurse/enforcer.py), and the results that stand for
-- a failure (cio/models/decision.py). Whether the loop ends in time is what `asyncio.wait_for` says.
use petrosa_cio.Prelude.{Bool, true, false, none, some, []}
use petrosa_cio.Prelude.Floats.{Floats}
use petrosa_cio.Models.{
  ActionType, ConfidenceLevel, HealthStatus, RegimeFit, ActivationRecommendation,
}
use petrosa_cio.Assembler.{DecisionResult}

-- How the call of the loop ends.
pub data Ending (X D : Type 0) : Type 0 where
  decided : D → Ending X D
  timed_out : Ending X D
  crashed : X → Ending X D

module _ {F : Type 0} (O : Floats F) where
  -- What the three results have in common, and the defaults of `DecisionResult`.
  unfoldable pub failure_result :
      Bool → HealthStatus → ActivationRecommendation → ActionType → DecisionResult F
  failure_result hard_blocked health recommendation action = record {
    hard_blocked = hard_blocked;
    hard_block_reason = none;
    ev_passes = false;
    cost_viable = false;
    net_ev_usd = none;
    regime_confidence = ConfidenceLevel.low;
    regime_fit = RegimeFit.neutral;
    strategy_health = health;
    activation_recommendation = recommendation;
    param_change = none;
    computed_position_size_usd = none;
    stop_loss_pct = none;
    take_profit_pct = none;
    leverage = O.lit 1 1;
    risk_warnings = [];
    action = some action;
  }

  unfoldable pub safe_decision_result : DecisionResult F
  unfolding failure_result
  safe_decision_result =
      failure_result false HealthStatus.healthy ActivationRecommendation.run ActionType.skip

  unfoldable pub timeout_retry_result : DecisionResult F
  unfolding failure_result
  timeout_retry_result =
      failure_result false HealthStatus.healthy ActivationRecommendation.run ActionType.retry_safe

  unfoldable pub critical_failure_result : DecisionResult F
  unfolding failure_result
  critical_failure_result =
      failure_result true HealthStatus.failing ActivationRecommendation.pause ActionType.fail_safe

  -- `NurseEnforcer.audit`: the decision, and whether the alert on a timeout is sent.
  unfoldable pub audit : {X : Type 0} → Ending X (DecisionResult F) → DecisionResult F × Bool
  unfolding timeout_retry_result critical_failure_result
  audit (decided d) = (d, false)
  audit timed_out = (timeout_retry_result, true)
  audit (crashed e) = (critical_failure_result, false)
