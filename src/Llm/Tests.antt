-- ===== src/Llm/Tests.antt =====
-- Calls of the language models: a fenced answer, five failures in a row, and an outage.
use petrosa_cio.Prelude.{
  ℕ, suc, ◌≡◌, refl, ◌↔◌, Str, str, true, false, none, some, List, [], ◌∷◌, ◌++◌, ok, arith,
  starts_with,
}
use petrosa_cio.Prelude.Int.{pos}
use petrosa_cio.Prelude.Fixed.{fixed, fixed-IsOrdered}
use petrosa_cio.Models.{
  ActionType, RegimeEnum, VolatilityLevel, ConfidenceLevel, HealthStatus, RegimeFit,
  ActivationRecommendation,
}
use petrosa_cio.Spend.{Clock, new_period}
use petrosa_cio.Engine
use petrosa_cio.Engine.{TriggerContext}
use petrosa_cio.Assembler.{StrategyResult, engine_context, classify}
use petrosa_cio.Assembler.Decision.{Follows}
use petrosa_cio.Llm.{
  Client, Calls, failed, closed, is_open, reset_if_old, record_failure, complete, try_primary,
  try_fallback, give_up, build_routing_model,
}
use petrosa_cio.Llm.Fence.{opened, fence, unfence, join_lines, unfence-opened}
use petrosa_cio.Llm.Schema.{Json, Validate, action_result, read_answer, complete_with_schema}
use petrosa_cio.Llm.Schema.Outage.{
  heard, answer_text, first_valid, value_or_default, complete_with_schema_lem,
}
use petrosa_cio.Llm.Schema.Skip.{prompt_id, action_of, outage_skips}
use petrosa_cio.Llm.Circuit.{IsTripped, outcome_of, call, run, run-refused_iff, run_reaches}

prefixed :
    build_routing_model (str "openai/") (str "gpt-4o-mini") (some (str "http://r"))
    ≡ str "openai/gpt-4o-mini"
unfolding build_routing_model starts_with
prefixed = refl

not_doubled :
    build_routing_model (str "openai/") (str "openai/gpt-4o-mini") (some (str "http://r"))
    ≡ str "openai/gpt-4o-mini"
unfolding build_routing_model starts_with
not_doubled = refl

unfence-opened_example :
    unfence (str " " ++ (opened (str "json") (str "{" ∷ str "}" ∷ []) ++ (fence ++ str " ")))
    ≡ join_lines (str "{" ∷ str "}" ∷ [])
unfence-opened_example =
    unfence-opened (str " ") (str "json") (str "{" ∷ str "}" ∷ []) (str " ") (refl, tt) (refl, tt)
      (refl, (refl, (refl, (refl, tt)))) ((refl, tt), ((refl, tt), tt))

abbrev clock : Clock
clock = record { today = 1; elapsed_seconds = 3600; ceiling = 1000 }

abbrev client : Client
client = record { breaker = closed; spend = new_period clock }

-- Both models fail, in a call of a second.
abbrev failing : ℕ → Calls Str
failing t = record {
  checked_at = t;
  primary = failed (str "timeout");
  fallback = failed (str "timeout");
  schema = failed (str "timeout");
  failed_at = suc t;
  fallback_model = str "m";
  clock = clock;
}

abbrev five : List (Calls Str)
five = failing 1000 ∷ failing 1010 ∷ failing 1020 ∷ failing 1030 ∷ failing 1040 ∷ []

tripped :
    (is_open (run (str "P") (client, []) five).0.breaker 1100 ≡ true)
    × (is_open (run (str "P") (client, []) five).0.breaker 1101 ≡ false)
unfolding run call is_open complete try_primary try_fallback give_up reset_if_old record_failure
    outcome_of
tripped = (refl, refl)

run-refused_iff_example :
    (is_open (run (str "P") (client, []) five).0.breaker 1060 ≡ true)
    ↔ IsTripped (run (str "P") (client, []) five).1 1060
run-refused_iff_example = run-refused_iff (str "P") client five 1060 refl (ground arith)

run_reaches_example : is_open (run (str "P") (client, []) five).0.breaker 1101 ≡ false
unfolding run call is_open complete try_primary try_fallback give_up reset_if_old record_failure
    outcome_of
run_reaches_example = run_reaches (str "P") client five 1101 refl (ground arith) (ground arith)

-- A library in which a text is its own value, and nothing is a dictionary.
abbrev texts : Json Str
texts = record {
  loads = some;
  dumps = λ s. s;
  is_dict = λ s. false;
  contains = λ s k. false;
  set_item = λ s k v. s;
}

abbrev validate : Validate
validate _ s = elim s [ [] ↦ none | x ∷ s ↦ some (action_result ActionType.veto) ]

complete_with_schema_lem_example :
    (complete_with_schema texts true validate client prompt_id (failing 1000)).1
    ≡ value_or_default prompt_id (
        first_valid
          (read_answer texts true validate)
          prompt_id
          (heard client (failing 1000) ∷ answer_text (failing 1000).schema ∷ []))
complete_with_schema_lem_example =
    complete_with_schema_lem prompt_id (failing 1000) texts true validate client

abbrev context : TriggerContext ℕ
context = record {
  strategy_id = str "s";
  regime = RegimeEnum.trending_bull;
  regime_confidence = ConfidenceLevel.high;
  volatility_level = VolatilityLevel.low;
  win_rate = some 600;
  strategy_defaults = record { stop_loss_pct = 20; take_profit_pct = 40; leverage = 3000 };
  global_drawdown_pct = 10;
  open_orders_global = pos 1;
  open_orders_symbol = pos 0;
  available_capital_usd = 1_000_000;
  risk_limits = record {
    max_drawdown_pct = 100;
    max_orders_global = pos 5;
    max_orders_per_symbol = pos 2;
    max_position_size_usd = 200_000;
  };
}

abbrev assessed : StrategyResult
assessed = record {
  health = HealthStatus.healthy;
  regime_fit = RegimeFit.good;
  activation_recommendation = ActivationRecommendation.run;
  param_change = none;
}

skipped :
    Follows fixed {X = Str} context
      (Engine.run fixed (engine_context false context))
      (ok ActionType.skip)
      (classify fixed 7 context
        (Engine.run fixed (engine_context false context))
        ConfidenceLevel.high
        assessed
        false
        (action_of (complete_with_schema texts true validate client prompt_id (failing 1000)).1))
unfolding fixed heard is_open
skipped =
    outage_skips fixed fixed-IsOrdered texts true validate client (failing 1000) 7 context
      ConfidenceLevel.high assessed refl refl refl
