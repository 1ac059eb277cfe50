-- ===== src/Llm/Schema/Skip.antt =====
-- The action classifier while the language models are out (cio/personas/action_classifier.py over
-- cio/clients/llm_client.py).
use petrosa_cio.Prelude.{
  ℕ, Str, str, Str-discrete, ◌≡◌, refl, Bool, true, false, none, Result, ok, raise,
}
use petrosa_cio.Prelude.Dict.{lookup}
use petrosa_cio.Prelude.Floats.{Floats, IsOrdered, zero_F}
use petrosa_cio.Models.{ActionType, ConfidenceLevel}
use petrosa_cio.Engine
use petrosa_cio.Engine.{TriggerContext}
use petrosa_cio.Assembler.{StrategyResult, engine_context, classify}
use petrosa_cio.Assembler.Decision.{Follows, classify-Follows}
use petrosa_cio.Llm.{Client, Calls}
use petrosa_cio.Llm.Schema.{
  PersonaResult, regime_result, strategy_result, action_result, safe_default, safe_defaults,
  Validate, Json, read_answer, complete_with_schema,
}
use petrosa_cio.Llm.Schema.Outage.{heard, first_valid_silent, complete_with_schema_lem}

-- `PROMPT_ID`.
abbrev pub prompt_id : Str
prompt_id = str "PETROSA_PROMPT_ACTION_CLASSIFIER"

-- `action_result.action`; a value of another model has no such attribute.
pub action_of : Result Str PersonaResult → Result Str ActionType
action_of (raise key) = raise key
action_of (ok (action_result a)) = ok a
action_of (ok (regime_result g k v)) = raise (str "action")
action_of (ok (strategy_result s)) = raise (str "action")

default_skips : safe_default prompt_id ≡ ok (action_result ActionType.skip)
unfolding safe_default safe_defaults lookup Str-discrete
default_skips = refl

module _ {F : Type 0} (O : Floats F) (laws : IsOrdered O) {J X : Type 0} (json : Json J)
    (is_minimal : Bool) (validate : Validate) where
  answer_skips :
      (client : Client) (calls : Calls X)
      → heard client calls ≡ none
      → action_of (complete_with_schema json is_minimal validate client prompt_id calls).1
        ≡ ok ActionType.skip
  unfolding action_of
  answer_skips client calls silent =
      rw
        (
          complete_with_schema_lem prompt_id calls json is_minimal validate client,
          silent,
          first_valid_silent (read_answer json is_minimal validate) prompt_id _,
          default_skips,
        )
        refl

  -- While the breaker refuses, or when both models fail, the classifier with the personas decides
  -- SKIP, or BLOCK if the engine blocks, provided that the limit on positions and the capital are
  -- not negative, and that floats are ordered.
  pub outage_skips :
      (client : Client) (calls : Calls X) (now : ℕ) (c : TriggerContext F) (k : ConfidenceLevel)
      (s : StrategyResult)
      → heard client calls ≡ none
      → O.leb (zero_F O) c.risk_limits.max_position_size_usd ≡ true
      → O.leb (zero_F O) c.available_capital_usd ≡ true
      → Follows O {X = Str} c (Engine.run O (engine_context false c)) (ok ActionType.skip) (
          classify O now c
            (Engine.run O (engine_context false c))
            k
            s
            false
            (action_of (complete_with_schema json is_minimal validate client prompt_id calls).1))
  outage_skips client calls now c k s silent h solvent =
      rw (answer_skips client calls silent)
        (classify-Follows O laws Str now c k s false (ok ActionType.skip) h solvent)
