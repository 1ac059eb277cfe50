-- ===== src/Llm/Schema/Outage.antt =====
-- What the personas get of the language models (cio/clients/llm_client.py,
-- `CIO_LLM_Client.complete_with_schema`), and what is decided when the models fail.
use petrosa_cio.Prelude.{
  Str, ◌≡◌, refl, inl, inr, Bool, Bool-cases, Option, none, some, Option-cases, List, [], ◌∷◌,
  Result, ok, subst, if◌then◌else◌,
}
use petrosa_cio.Llm.{
  Answer, completed, failed, malformed, Client, Calls, RawLlmResponse, TransportError, text_of,
  is_open, process_response, transport_error, give_up, try_fallback, try_primary, complete,
  schema_fallback,
}
use petrosa_cio.Llm.Schema.{
  PersonaResult, safe_default, Validate, after_fallback, complete_validated, Json, read_answer,
  complete_with_schema,
}

-- The text of a model that answered.
abbrev pub answer_text : {X : Type 0} → Answer X → Option Str
answer_text (completed r) = some (text_of r.content)
answer_text (failed e) = none
answer_text (malformed e) = none

-- The text of a call: the primary model's, or else the fallback's; nothing while the breaker
-- refuses.
unfoldable pub heard : {X : Type 0} → Client → Calls X → Option Str
heard client calls =
    if is_open client.breaker calls.checked_at
    then none
    else elim (answer_text calls.primary) [ some s ↦ some s | none ↦ answer_text calls.fallback ]

-- The first of the texts that validates, a text that is missing ending the search.
pub first_valid : Validate → Str → List (Option Str) → Option PersonaResult
first_valid validate prompt_id [] = none
first_valid validate prompt_id (none ∷ texts) = none
first_valid validate prompt_id (some s ∷ texts) = elim (validate prompt_id s) [
  | some v ↦ some v
  | none ↦ first_valid validate prompt_id texts
]

first_valid_skip :
    (validate : Validate) (prompt_id s : Str) (texts : List (Option Str))
    → validate prompt_id s ≡ none
    → first_valid validate prompt_id (some s ∷ texts) ≡ first_valid validate prompt_id texts
unfolding first_valid
first_valid_skip validate prompt_id s texts h = rw (first_valid, h) refl

pub first_valid_silent :
    (validate : Validate) (prompt_id : Str) (texts : List (Option Str))
    → first_valid validate prompt_id (none ∷ texts) ≡ none
unfolding first_valid
first_valid_silent validate prompt_id texts = refl

first_valid_hit :
    (validate : Validate) (prompt_id s : Str) (texts : List (Option Str)) (v : PersonaResult)
    → validate prompt_id s ≡ some v
    → first_valid validate prompt_id (some s ∷ texts) ≡ some v
unfolding first_valid
first_valid_hit validate prompt_id s texts v h = rw (first_valid, h) refl

abbrev pub value_or_default : Str → Option PersonaResult → Result Str PersonaResult
value_or_default prompt_id none = safe_default prompt_id
value_or_default prompt_id (some v) = ok v

module _ {X : Type 0} (prompt_id : Str) (calls : Calls X) where
  -- What a response tells of the text.
  abbrev Tells : RawLlmResponse X → Option Str → Type 0
  Tells raw none = (e : TransportError X) × (raw.error ≡ some e)
  Tells raw (some s) = (raw.error ≡ none) × (raw.content ≡ s)

  primary-Tells :
      (client : Client) (p f : Answer X)
      → Tells
          (try_primary client prompt_id (record calls { primary = p; fallback = f })).1
          (elim (answer_text p) [ some s ↦ some s | none ↦ answer_text f ])
  unfolding try_primary try_fallback give_up process_response transport_error
  primary-Tells client (completed r) f = (refl, refl)
  primary-Tells client (failed e) (completed r) = (refl, refl)
  primary-Tells client (failed e) (failed g) = (_, refl)
  primary-Tells client (failed e) (malformed g) = (_, refl)
  primary-Tells client (malformed e) (completed r) = (refl, refl)
  primary-Tells client (malformed e) (failed g) = (_, refl)
  primary-Tells client (malformed e) (malformed g) = (_, refl)

  complete-Tells :
      (client : Client) → Tells (complete client prompt_id calls).1 (heard client calls)
  unfolding complete transport_error heard
  complete-Tells client = elim (Bool-cases (is_open client.breaker calls.checked_at)) [
    | inl refused ↦ rw (refused, complete, heard) (_, refl)
    | inr shut ↦ rw (shut, complete, heard) (primary-Tells _ calls.primary calls.fallback)
  ]

  module _ (validate : Validate) where
    schema_value :
        (client : Client) (a : Answer X)
        → after_fallback {X = X} validate prompt_id
            (schema_fallback client prompt_id (record calls { schema = a })).1
          ≡ value_or_default prompt_id (first_valid validate prompt_id (answer_text a ∷ []))
    unfolding after_fallback schema_fallback process_response first_valid
    schema_value client (failed e) = refl
    schema_value client (malformed e) = refl
    schema_value client (completed r) =
        elim (Option-cases (validate prompt_id (text_of r.content))) [
          | inl h ↦ rw (first_valid, h) refl
          | inr (v, h) ↦ rw (first_valid, h) refl
        ]

    complete_validated_lem :
        (client : Client)
        → (complete_validated validate client prompt_id calls).1
          ≡ value_or_default prompt_id
              (first_valid validate prompt_id (heard client calls ∷ answer_text calls.schema ∷ []))
    unfolding complete_validated first_valid
    complete_validated_lem client = elim (Option-cases (heard client calls)) [
      | inl silent ↦
          let (e, h) =
            subst (Tells (complete client prompt_id calls).1) silent (complete-Tells client) in
          rw (silent, complete_validated, h) refl
      | inr (s, text) ↦
          let (h, k) =
            subst (Tells (complete client prompt_id calls).1) text (complete-Tells client) in
          elim (Option-cases (validate prompt_id s)) [
            | inr (v, valid) ↦
                rw
                  (
                    text,
                    complete_validated,
                    h,
                    k,
                    valid,
                    first_valid_hit validate prompt_id s (answer_text calls.schema ∷ []) v valid,
                  )
                  refl
            | inl invalid ↦
                rw
                  (
                    text,
                    complete_validated,
                    h,
                    k,
                    invalid,
                    first_valid_skip validate prompt_id s (answer_text calls.schema ∷ []) invalid,
                  )
                  (schema_value (complete client prompt_id calls).0 calls.schema)
          ]
    ]

  -- What a persona gets, whatever the models answer: the value of the first text that validates,
  -- of the one that the call heard and then of the fallback model's, and the safe default of the
  -- prompt without such a text; and at once, without asking the fallback model again, if the
  -- breaker refuses or both models fail.
  pub complete_with_schema_lem :
      {J : Type 0} (json : Json J) (is_minimal : Bool) (model_validate : Validate) (client : Client)
      → (complete_with_schema json is_minimal model_validate client prompt_id calls).1
        ≡ value_or_default prompt_id (
            first_valid
              (read_answer json is_minimal model_validate)
              prompt_id
              (heard client calls ∷ answer_text calls.schema ∷ []))
  unfolding complete_with_schema
  complete_with_schema_lem json is_minimal model_validate client =
      complete_validated_lem (read_answer json is_minimal model_validate) client
