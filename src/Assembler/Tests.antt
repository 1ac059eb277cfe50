-- ===== src/Assembler/Tests.antt =====
-- The classifier without the personas, and the loop on a portfolio that could not be fetched.
use petrosa_cio.Prelude.{
  ℕ, Str, str, Str-discrete, ◌≡◌, refl, true, false, none, some, [], ◌∷◌, ok, raise, Result,
}
use petrosa_cio.Prelude.Int.{pos}
use petrosa_cio.Prelude.Fixed.{fixed, fixed-IsOrdered}
use petrosa_cio.Models.{
  ActionType, RegimeEnum, VolatilityLevel, ConfidenceLevel, HealthStatus, RegimeFit,
  ActivationRecommendation, ParamChangeDirection,
}
use petrosa_cio.Leverage.{EnvInt}
use petrosa_cio.Portfolio.{EnvFloat}
use petrosa_cio.Spend.{Clock, new_period}
use petrosa_cio.Engine
use petrosa_cio.Engine.{TriggerContext, BlockReason}
use petrosa_cio.Orchestrator
use petrosa_cio.Orchestrator.{Environment, Context, Answers, is_stale}
use petrosa_cio.Assembler.{
  StrategyResult, DecisionResult, Failure, type_error, conservative, engine_context, classify,
  synthesize, change_sl, applied, multiplier_of,
}
use petrosa_cio.Assembler.Decision.{wanted, Follows, classify-Follows}
use petrosa_cio.Assembler.Blocked.{
  answers, ask_model, IsCharged, run-IsHarmless, conservative-Trips,
}
use petrosa_cio.Llm.{Calls, completed, failed, closed}
use petrosa_cio.Llm.Schema.{Json, Validate, action_result}

abbrev context : TriggerContext ℕ
context = record {
  strategy_id = str "s";
  regime = RegimeEnum.trending_bull;
  regime_confidence = ConfidenceLevel.high;
  volatility_level = VolatilityLevel.low;
  win_rate = some 600;
  strategy_defaults = record { stop_loss_pct = 20; take_profit_pct = 40; leverage = 3000 };
  global_drawdown_pct = 10;
  open_orders_global = pos 1;
  open_orders_symbol = pos 0;
  available_capital_usd = 1_000_000;
  risk_limits = record {
    max_drawdown_pct = 100;
    max_orders_global = pos 5;
    max_orders_per_symbol = pos 2;
    max_position_size_usd = 200_000;
  };
}

abbrev assessed : StrategyResult
assessed = record {
  health = HealthStatus.healthy;
  regime_fit = RegimeFit.good;
  activation_recommendation = ActivationRecommendation.run;
  param_change = some (record {
    param = str "stop_loss_pct";
    direction = ParamChangeDirection.increase;
    reason = str "r";
  });
}

-- The change of a stop of 2 % by a tenth.
raised :
    synthesize fixed 7 (str "s") assessed.param_change (some 20) none
    ≡ some (
      some 22,
      none,
      some (record {
        strategy_id = str "s";
        timestamp = 7;
        param = str "stop_loss_pct";
        old_value = 20;
        new_value = 22;
        direction = ParamChangeDirection.increase;
        reason = str "r";
      }),
    )
unfolding synthesize change_sl applied multiplier_of fixed Str-discrete
raised = refl

-- What the model answers.
abbrev model : Result Str ActionType
model = ok ActionType.execute

classify-Follows_example :
    Follows fixed context (Engine.run fixed (engine_context false context)) (wanted false model) (
      classify fixed 7 context
        (Engine.run fixed (engine_context false context))
        ConfidenceLevel.high
        assessed
        false
        model)
unfolding fixed
classify-Follows_example =
    classify-Follows fixed fixed-IsOrdered Str 7 context ConfidenceLevel.high assessed false model
      refl refl

abbrev now : Clock
now = record { today = 1; elapsed_seconds = 3600; ceiling = 1000 }

abbrev env : Environment
env = record {
  operator_max = EnvInt.unset;
  portfolio_ceiling = EnvFloat.unset;
  rates = record { input = 1; output = 5 };
}

abbrev state : Orchestrator.Orchestrator
state = record {
  use_llm_reasoning = true;
  ceiling_triggered_bypass = false;
  positions = [];
  spend = new_period now;
}

abbrev intent : Context
intent = record {
  strategy_id = str "s";
  is_trade_intent = true;
  strategy_revision_id = none;
  available_capital_usd = pos 1000;
  recommended_leverage = none;
  strategy_leverage_envelope = none;
}

abbrev others : Answers (Failure Str) (DecisionResult ℕ)
others = record {
  stale = ok false;
  engine = λ bypass. raise type_error;
  classify_bypassed = raise type_error;
  classify = λ spend. (spend, raise type_error);
  personas = λ spend. (spend, raise type_error);
  clock = now;
}

-- A model whose answer is text that is valid as it is.
abbrev texts : Json Str
texts = record {
  loads = some;
  dumps = λ s. s;
  is_dict = λ s. false;
  contains = λ s k. false;
  set_item = λ s k v. s;
}

abbrev validate : Validate
validate _ s = elim s [ [] ↦ none | x ∷ s ↦ some (action_result ActionType.execute) ]

abbrev calls : Calls Str
calls = record {
  checked_at = 7;
  primary = completed (record {
    content = some (str "execute");
    model = str "m";
    prompt_tokens = 900;
    completion_tokens = 40;
  });
  fallback = failed (str "timeout");
  schema = failed (str "timeout");
  failed_at = 8;
  fallback_model = str "n";
  clock = now;
}

run-IsHarmless_example :
    let model = ask_model texts true validate closed calls in
    let (after, decision) =
      Orchestrator.run env state intent
        (answers fixed pos 7 (conservative fixed context) model others) in
    IsCharged fixed (is_stale intent others.stale) state (model state.spend).0 after decision
run-IsHarmless_example =
    run-IsHarmless fixed pos texts true validate closed calls 7 (conservative fixed context) others
      env state intent BlockReason.global_drawdown
      (conservative-Trips fixed fixed-IsOrdered false context)
