-- ===== src/Llm.antt =====
-- The client of the language models (cio/clients/llm_client.py): the routing of model names, the
-- circuit breaker, the completion with its fallback, and the validation with safe defaults
-- (`SAFE_DEFAULTS` of cio/models/decision.py). What the models answer is an input, and so is the
-- outcome of the retries, which the `tenacity` library makes; JSON and its validation are a
-- parameter. Times are whole seconds.
use petrosa_cio.Prelude.{
  ℕ, suc, ◌+◌, ◌-◌, Str, str, Str-discrete, starts_with, ite, Bool, true, false, not, ◌&&◌, ◌||◌,
  ltb, leb, ◌==◌, if◌then◌else◌, Option, none, some, List, [], ◌∷◌, ◌++◌, Result, ok, raise,
}
use petrosa_cio.Prelude.Dict.{lookup}
use petrosa_cio.Models.{
  ActionType, RegimeEnum, VolatilityLevel, ConfidenceLevel, HealthStatus, RegimeFit,
  ActivationRecommendation,
}
use petrosa_cio.Spend.{PeriodSpend, Clock, record_call}
use petrosa_cio.Assembler.{StrategyResult}
use petrosa_cio.Llm.Fence.{unfence}
pub mod Fence
pub mod Circuit
pub mod Schema
mod Tests

-- `_build_routing_model`, with the value of `LLM_MODEL_PREFIX`.
pub build_routing_model : Str → Str → Option Str → Str
unfolding starts_with
build_routing_model prefix model none = model
build_routing_model prefix model (some []) = model
build_routing_model [] model (some (x ∷ base)) = model
build_routing_model (p ∷ prefix) model (some (x ∷ base)) =
    if starts_with (p ∷ prefix) model then model else (p ∷ prefix) ++ model

-- The circuit breaker of `LiteLLMClient`.
pub record Breaker : Type 0 where
  pub failure_count : ℕ
  pub last_failure_time : ℕ
  pub breaker_open_until : ℕ

abbrev pub closed : Breaker
closed = record { failure_count = 0; last_failure_time = 0; breaker_open_until = 0 }

-- `self._breaker_open_until > now`.
pub is_open : Breaker → ℕ → Bool
is_open b now = ltb now b.breaker_open_until

-- `_check_circuit_breaker`, when the breaker is not open.
pub reset_if_old : Breaker → ℕ → Breaker
reset_if_old b now =
    if ltb 300 (now - b.last_failure_time) then record b { failure_count = 0 } else b

pub record_failure : Breaker → ℕ → Breaker
record_failure b now =
    let counted = record b { last_failure_time = now; failure_count = suc b.failure_count } in
    if leb 5 (suc b.failure_count)
    then record counted { breaker_open_until = now + 60 }
    else counted

pub record_success : Breaker → Breaker
record_success b = record b { failure_count = 0 }

-- What the code reads of a litellm response.
pub record Completion : Type 0 where
  pub content : Option Str
  pub model : Str
  pub prompt_tokens : ℕ
  pub completion_tokens : ℕ

-- What a call of a model comes to; `malformed` is an answer that `_process_response` fails on.
pub data Answer (X : Type 0) : Type 0 where
  completed : Completion → Answer X
  failed malformed : X → Answer X

pub data TransportError (X : Type 0) : Type 0 where
  breaker_open : TransportError X
  both_failed : X → X → TransportError X

pub record RawLlmResponse (X : Type 0) : Type 0 where
  pub content : Str
  pub error : Option (TransportError X)
  pub model : Str
  pub input_tokens : ℕ
  pub output_tokens : ℕ

pub record Client : Type 0 where
  pub breaker : Breaker
  pub spend : PeriodSpend

-- The inputs of a call: the primary model after its retries, the fallback model, the fallback on an
-- invalid answer, and the clocks that are read.
pub record Calls (X : Type 0) : Type 0 where
  pub checked_at : ℕ
  pub primary : Answer X
  pub fallback : Answer X
  pub schema : Answer X
  pub failed_at : ℕ
  pub fallback_model : Str
  pub clock : Clock

-- `response.choices[0].message.content or ""`.
pub text_of : Option Str → Str
text_of none = []
text_of (some s) = s

-- A success on either model.
succeeded : Client → Client
unfolding record_success
succeeded client = record client { breaker = record_success client.breaker }

module _ {X : Type 0} where
  transport_error : Str → TransportError X → RawLlmResponse X
  transport_error model e = record {
    content = [];
    error = some e;
    model = model;
    input_tokens = 0;
    output_tokens = 0;
  }

  -- `_process_response`, which records what the call spent.
  pub process_response : Client → Str → Clock → Completion → Client × RawLlmResponse X
  unfolding text_of
  process_response client prompt_id clock r = (
    record client {
      spend = record_call client.spend clock prompt_id r.prompt_tokens r.completion_tokens;
    },
    record {
      content = text_of r.content;
      error = none;
      model = r.model;
      input_tokens = r.prompt_tokens;
      output_tokens = r.completion_tokens;
    },
  )

  -- The total failure of a call.
  give_up : Client → Calls X → X → X → Client × RawLlmResponse X
  unfolding record_failure transport_error
  give_up client calls e f = (
    record client { breaker = record_failure client.breaker calls.failed_at },
    transport_error calls.fallback_model (both_failed e f),
  )

  -- The fallback model, after the error of the primary one.
  try_fallback : Client → Str → Calls X → X → Client × RawLlmResponse X
  unfolding process_response give_up succeeded
  try_fallback client prompt_id calls e = elim calls.fallback [
    | completed r ↦ process_response (succeeded client) prompt_id calls.clock r
    | failed f ↦ give_up client calls e f
    | malformed f ↦ give_up (succeeded client) calls e f
  ]

  try_primary : Client → Str → Calls X → Client × RawLlmResponse X
  unfolding process_response try_fallback succeeded
  try_primary client prompt_id calls = elim calls.primary [
    | completed r ↦ process_response (succeeded client) prompt_id calls.clock r
    | failed e ↦ try_fallback client prompt_id calls e
    | malformed e ↦ try_fallback (succeeded client) prompt_id calls e
  ]

  -- `LiteLLMClient.complete`.
  pub complete : Client → Str → Calls X → Client × RawLlmResponse X
  unfolding is_open reset_if_old transport_error try_primary
  complete client prompt_id calls =
      if is_open client.breaker calls.checked_at
      then (client, transport_error (str "circuit-breaker") breaker_open)
      else try_primary (record client { breaker = reset_if_old client.breaker calls.checked_at })
          prompt_id calls

  -- `LiteLLMClient._schema_fallback`.
  pub schema_fallback : Client → Str → Calls X → Client × Option (RawLlmResponse X)
  unfolding process_response
  schema_fallback client prompt_id calls = elim calls.schema [
    | completed r ↦
        let (client', raw) = process_response client prompt_id calls.clock r in (client', some raw)
    | failed e ↦ (client, none)
    | malformed e ↦ (client, none)
  ]
