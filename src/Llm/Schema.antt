-- ===== src/Llm/Schema.antt =====
-- The validation of a model's answer, with its fallback and its safe defaults
-- (cio/clients/llm_client.py, `complete_with_schema`, and `SAFE_DEFAULTS` of cio/models/decision.py).
-- JSON and the validation of a response model are parameters.
use petrosa_cio.Prelude.{
  Str, str, Str-discrete, ite, Bool, true, false, not, ◌&&◌, ◌||◌, if◌then◌else◌, Option, none,
  some, List, [], ◌∷◌, Result, ok, raise,
}
use petrosa_cio.Prelude.Dict.{lookup}
use petrosa_cio.Models.{
  ActionType, RegimeEnum, VolatilityLevel, ConfidenceLevel, HealthStatus, RegimeFit,
  ActivationRecommendation,
}
use petrosa_cio.Assembler.{StrategyResult}
use petrosa_cio.Llm.{Client, Calls, RawLlmResponse, complete, schema_fallback}
use petrosa_cio.Llm.Fence.{unfence}
pub mod Outage
pub mod Skip

-- What the personas ask for: the response models and their values.
pub data PersonaResult : Type 0 where
  regime_result : RegimeEnum → ConfidenceLevel → VolatilityLevel → PersonaResult
  strategy_result : StrategyResult → PersonaResult
  action_result : ActionType → PersonaResult

-- `SAFE_DEFAULTS`, without the texts.
pub safe_defaults : List (Str × PersonaResult)
safe_defaults =
    (
      str "PETROSA_PROMPT_REGIME_CLASSIFIER",
      regime_result RegimeEnum.choppy ConfidenceLevel.low VolatilityLevel.medium,
    )
    ∷ (
      str "PETROSA_PROMPT_STRATEGY_ASSESSOR",
      strategy_result (record {
        health = HealthStatus.failing;
        regime_fit = RegimeFit.poor;
        activation_recommendation = ActivationRecommendation.pause;
        param_change = none;
      }),
    )
    ∷ (str "PETROSA_PROMPT_ACTION_CLASSIFIER", action_result ActionType.skip)
    ∷ []

-- `SAFE_DEFAULTS[prompt_id]`, which raises `KeyError` with the missing key.
pub safe_default : Str → Result Str PersonaResult
unfolding safe_defaults
safe_default prompt_id = elim (lookup Str-discrete prompt_id safe_defaults) [
  | none ↦ raise prompt_id
  | some v ↦ ok v
]

-- `response_model.model_validate_json`, by prompt; `none` is a `ValidationError`.
abbrev pub Validate : Type 0
Validate = Str → Str → Option PersonaResult

-- The `json` library.
pub record Json (J : Type 0) : Type 0 where
  pub loads : Str → Option J
  pub dumps : J → Str
  pub is_dict : J → Bool
  pub contains : J → Str → Bool
  pub set_item : J → Str → Str → J

-- `_PROMPTS_OPTIONAL_THOUGHT_TRACE`.
pub is_optional_trace : Str → Bool
is_optional_trace prompt_id =
    ite (Str-discrete prompt_id (str "PETROSA_PROMPT_ACTION_CLASSIFIER")) true (
      ite (Str-discrete prompt_id (str "PETROSA_PROMPT_REGIME_CLASSIFIER")) true
        (ite (Str-discrete prompt_id (str "PETROSA_PROMPT_STRATEGY_ASSESSOR")) true false))

module _ {J : Type 0} (json : Json J) (is_minimal : Bool) where
  -- `_inject_minimal_thought_trace_json`.
  pub inject_minimal_thought_trace : Str → Str → Str
  unfolding is_optional_trace
  inject_minimal_thought_trace json_text prompt_id =
      if not is_minimal || not (is_optional_trace prompt_id)
      then json_text
      else elim (json.loads json_text) [
        | none ↦ json_text
        | some d ↦ json.dumps (
            if json.is_dict d && not (json.contains d (str "thought_trace"))
            then json.set_item d (str "thought_trace") []
            else d)
      ]

  -- From the content of a response to a value.
  pub read_answer : Validate → Validate
  unfolding inject_minimal_thought_trace
  read_answer model_validate prompt_id content =
      model_validate prompt_id (inject_minimal_thought_trace (unfence content) prompt_id)

module _ {X : Type 0} (validate : Validate) where
  -- The text of the fallback on an invalid answer.
  pub after_fallback : Str → Option (RawLlmResponse X) → Result Str PersonaResult
  unfolding safe_default
  after_fallback prompt_id none = safe_default prompt_id
  after_fallback prompt_id (some raw) = elim raw.error [
    | some e ↦ safe_default prompt_id
    | none ↦ elim (validate prompt_id raw.content) [ some v ↦ ok v | none ↦ safe_default prompt_id ]
  ]

  -- `complete_with_schema`, with the reading of a response as a parameter.
  pub complete_validated : Client → Str → Calls X → Client × Result Str PersonaResult
  unfolding complete schema_fallback after_fallback safe_default
  complete_validated client prompt_id calls =
      let (client', raw) = complete client prompt_id calls in
      elim raw.error [
        | some e ↦ (client', safe_default prompt_id)
        | none ↦ elim (validate prompt_id raw.content) [
          | some v ↦ (client', ok v)
          | none ↦
              let (client'', fallback) = schema_fallback client' prompt_id calls in
              (client'', after_fallback prompt_id fallback)
        ]
      ]

-- `CIO_LLM_Client.complete_with_schema`, of the `LiteLLMClient`.
pub complete_with_schema :
    {J X : Type 0}
    → Json J
    → Bool
    → Validate
    → Client
    → Str
    → Calls X
    → Client × Result Str PersonaResult
unfolding complete_validated read_answer
complete_with_schema json is_minimal model_validate =
    complete_validated (read_answer json is_minimal model_validate)
