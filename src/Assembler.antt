-- ===== src/Assembler.antt =====
-- The decision of a call: the assembler (cio/core/assembler.py), the action classifier
-- (cio/personas/action_classifier.py) and the defaults of cio/core/context_builder.py when the
-- portfolio cannot be fetched. The texts of justifications and traces are left out; the action that
-- the language model returns is an input, exceptions included.
use petrosa_cio.Prelude.{
  ℕ, Str, str, Str-discrete, ite, Bool, true, false, not, if◌then◌else◌, Option, none, some, List,
  [], Result, ok, raise,
}
use petrosa_cio.Prelude.Int.{ℤ, pos}
use petrosa_cio.Prelude.Floats.{Floats, zero_F, min_F}
use petrosa_cio.Models.{
  ActionType, RegimeEnum, VolatilityLevel, ConfidenceLevel, HealthStatus, RegimeFit,
  ActivationRecommendation, ParamChangeDirection,
}
use petrosa_cio.Engine.{TriggerContext, RiskLimits, BlockReason, Warning, CodeEngineResult}
pub mod Decision
pub mod Blocked
mod Tests

pub record ParamChangeSignal : Type 0 where
  pub param : Str
  pub direction : ParamChangeDirection
  pub reason : Str

pub record AppliedParamChange (F : Type 0) : Type 0 where
  pub strategy_id : Str
  pub timestamp : ℕ
  pub param : Str
  pub old_value : F
  pub new_value : F
  pub direction : ParamChangeDirection
  pub reason : Str

pub record StrategyResult : Type 0 where
  pub health : HealthStatus
  pub regime_fit : RegimeFit
  pub activation_recommendation : ActivationRecommendation
  pub param_change : Option ParamChangeSignal

pub record DecisionResult (F : Type 0) : Type 0 where
  pub hard_blocked : Bool
  pub hard_block_reason : Option BlockReason
  pub ev_passes : Bool
  pub cost_viable : Bool
  pub net_ev_usd : Option F
  pub regime_confidence : ConfidenceLevel
  pub regime_fit : RegimeFit
  pub strategy_health : HealthStatus
  pub activation_recommendation : ActivationRecommendation
  pub param_change : Option (AppliedParamChange F)
  pub computed_position_size_usd : Option F
  pub stop_loss_pct : Option F
  pub take_profit_pct : Option F
  pub leverage : F
  pub risk_warnings : List Warning
  pub action : Option ActionType

-- `type_error` is arithmetic on a missing percentage; `client` is an exception of the client.
pub data Failure {ℓ} (X : Type ℓ) : Type ℓ where
  type_error : Failure X
  client : X → Failure X

-- `engine_context`: without the personas, the placeholders stand for the regime.
pub engine_context : {F : Type 0} → Bool → TriggerContext F → TriggerContext F
engine_context true c = record c {
  regime = RegimeEnum.ranging;
  regime_confidence = ConfidenceLevel.high;
  volatility_level = VolatilityLevel.medium;
}
engine_context false c = c

-- `bypass_strategy`.
pub bypass_strategy : StrategyResult
bypass_strategy = record {
  health = HealthStatus.healthy;
  regime_fit = RegimeFit.good;
  activation_recommendation = ActivationRecommendation.run;
  param_change = none;
}

module _ {F : Type 0} (O : Floats F) where
  -- `PortfolioSummary` aside, what a failed fetch of the portfolio puts into the context.
  pub conservative : TriggerContext F → TriggerContext F
  conservative c = record c {
    risk_limits = record {
      max_drawdown_pct = O.lit 0 1;
      max_orders_global = pos 0;
      max_orders_per_symbol = pos 0;
      max_position_size_usd = O.lit 0 1;
    };
    global_drawdown_pct = O.lit 1 1;
    open_orders_global = pos 999;
    open_orders_symbol = pos 0;
    available_capital_usd = O.lit 0 1;
  }

  -- The passthrough of a hard block.
  pub blocked_decision : CodeEngineResult F → ConfidenceLevel → StrategyResult → DecisionResult F
  blocked_decision r confidence s = record {
    hard_blocked = true;
    hard_block_reason = r.block_reason;
    ev_passes = not r.ev_unavailable;
    cost_viable = false;
    net_ev_usd = none;
    regime_confidence = confidence;
    regime_fit = s.regime_fit;
    strategy_health = s.health;
    activation_recommendation = s.activation_recommendation;
    param_change = none;
    computed_position_size_usd = some (O.lit 0 1);
    stop_loss_pct = none;
    take_profit_pct = none;
    leverage = O.lit 1 1;
    risk_warnings = [];
    action = some ActionType.block;
  }

  pub multiplier_of : ParamChangeDirection → F
  multiplier_of ParamChangeDirection.increase = O.lit 11 10
  multiplier_of ParamChangeDirection.decrease = O.lit 9 10

  -- The record of a change, if the old value is positive.
  pub applied : ℕ → Str → ParamChangeSignal → F → F → Option (AppliedParamChange F)
  applied now strategy_id g old_val new_val =
      if O.ltb (zero_F O) old_val
      then some (record {
        strategy_id = strategy_id;
        timestamp = now;
        param = g.param;
        old_value = old_val;
        new_value = new_val;
        direction = g.direction;
        reason = g.reason;
      })
      else none

  -- The stop, the target and the change: those of the engine with the signal applied.
  abbrev pub Parameters : Type 0
  Parameters = Option F × Option F × Option (AppliedParamChange F)

  pub change_sl : ℕ → Str → ParamChangeSignal → Option F → Option F → Option Parameters
  unfolding applied multiplier_of
  change_sl now id g none tp = none
  change_sl now id g (some sl) tp =
      let new_val = O.mul sl (multiplier_of g.direction) in
      some (some new_val, tp, applied now id g sl new_val)

  pub change_tp : ℕ → Str → ParamChangeSignal → Option F → Option F → Option Parameters
  unfolding applied multiplier_of
  change_tp now id g sl none = none
  change_tp now id g sl (some tp) =
      let new_val = O.mul tp (multiplier_of g.direction) in
      some (sl, some new_val, applied now id g tp new_val)

  -- `none` is a `TypeError`; a parameter of another name changes nothing.
  pub synthesize : ℕ → Str → Option ParamChangeSignal → Option F → Option F → Option Parameters
  unfolding change_sl change_tp applied
  synthesize now id none sl tp = some (sl, tp, none)
  synthesize now id (some g) sl tp =
      ite (Str-discrete g.param (str "stop_loss_pct")) (change_sl now id g sl tp) (
        ite (Str-discrete g.param (str "take_profit_pct")) (change_tp now id g sl tp)
          (some (sl, tp, applied now id g (zero_F O) (zero_F O))))

  -- The position: Kelly's, or the fallback.
  pub final_size : TriggerContext F → Option F → F
  final_size c none = min_F O (O.lit 500 1) (O.mul c.risk_limits.max_position_size_usd (O.lit 1 10))
  final_size c (some kelly) = kelly

  -- `llm_action or ActionType.SKIP`.
  pub action_or_skip : Option ActionType → ActionType
  action_or_skip none = ActionType.skip
  action_or_skip (some a) = a

  pub final_decision :
      TriggerContext F
      → CodeEngineResult F
      → ConfidenceLevel
      → StrategyResult
      → Option ActionType
      → Parameters
      → DecisionResult F
  unfolding final_size action_or_skip
  final_decision c r confidence s llm_action (sl, tp, change) = record {
    hard_blocked = false;
    hard_block_reason = none;
    ev_passes = not r.ev_unavailable;
    cost_viable = true;
    net_ev_usd = r.gross_ev;
    regime_confidence = confidence;
    regime_fit = s.regime_fit;
    strategy_health = s.health;
    activation_recommendation = s.activation_recommendation;
    param_change = change;
    computed_position_size_usd = some (final_size c r.kelly_position_usd);
    stop_loss_pct = sl;
    take_profit_pct = tp;
    leverage = r.leverage;
    risk_warnings = r.risk_warnings;
    action = some (action_or_skip llm_action);
  }

  -- `DecisionAssembler.assemble`.
  pub assemble {ℓ} :
      {X : Type ℓ}
      → ℕ
      → TriggerContext F
      → CodeEngineResult F
      → ConfidenceLevel
      → StrategyResult
      → Option ActionType
      → Result (Failure X) (DecisionResult F)
  unfolding blocked_decision synthesize final_decision
  assemble now c r confidence s llm_action =
      if r.hard_blocked
      then ok (blocked_decision r confidence s)
      else elim (synthesize now c.strategy_id s.param_change r.recommended_sl_pct
          r.recommended_tp_pct) [
            | none ↦ raise type_error
            | some parameters ↦ ok (final_decision c r confidence s llm_action parameters)
          ]

  -- `ActionClassifier.classify`, with what the client answers.
  pub classify {ℓ} :
      {X : Type ℓ}
      → ℕ
      → TriggerContext F
      → CodeEngineResult F
      → ConfidenceLevel
      → StrategyResult
      → Bool
      → Result X ActionType
      → Result (Failure X) (DecisionResult F)
  unfolding assemble
  classify now c r confidence s true answer =
      let action = if r.hard_blocked then ActionType.block else ActionType.execute in
      assemble now c r confidence s (some action)
  classify now c r confidence s false (raise e) = raise (client e)
  classify now c r confidence s false (ok action) = assemble now c r confidence s (some action)
