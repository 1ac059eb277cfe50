-- ===== src/Listener.antt =====
-- The handler of trade intents (cio/core/listener.py): parsing, arbitration, the context, the guard
-- and the router. JSON values, floats and Redis are parameters, and a direction is a text; the context builder, the loop and
-- the router are what they come to in a call. Correlation ids are left out.
use petrosa_cio.Prelude.{
  ℕ, Str, str, Str-discrete, or_else, Bool, true, false, if◌then◌else◌, Option, none, some, List,
  [], ◌∷◌, Result, ok, raise,
}
use petrosa_cio.Prelude.Dict.{lookup}
use petrosa_cio.Prelude.Floats
use petrosa_cio.Evaluators.{EvaluatorSubscriber}
use petrosa_cio.Arbiter
use petrosa_cio.Arbiter.{Redis, Signal, Outcome, is_allowed, check}
use petrosa_cio.Assembler.{DecisionResult}
use petrosa_cio.Nurse.{Ending, audit}
pub mod Retry
mod Tests

-- JSON values: truthiness, the text, and `float(…)`, which may fail; `half` is 0.5.
pub record Values (J C : Type 0) : Type 0 where
  pub truthy : J → Bool
  pub show : J → Str
  pub to_float : J → Option C
  pub half : C

-- A message: its payload, unless it does not parse as an object, and what the later steps come to.
pub record Message (F J X : Type 0) : Type 0 where
  pub payload : Option (List (Str × J))
  pub builds : Bool
  pub ending : Ending X (DecisionResult F)

-- What becomes of a message.
pub data Fate (F : Type 0) : Type 0 where
  unparsed unbuilt : Fate F
  suppressed : Outcome → Fate F
  routed : DecisionResult F → Fate F

module _ {J C : Type 0} (V : Values J C) where
  -- `payload.get(key) or rest`.
  pub get_or : List (Str × J) → Str → Option J → Option J
  get_or payload key rest = elim (lookup Str-discrete key payload) [
    | none ↦ rest
    | some v ↦ if V.truthy v then some v else rest
  ]

  -- The direction; a missing one is the empty text.
  pub action_of : List (Str × J) → Str
  unfolding get_or
  action_of payload =
      elim (get_or payload (str "side")
        (get_or payload (str "action") (get_or payload (str "signal_type") none))) [
          | none ↦ []
          | some v ↦ V.show v
        ]

  pub symbol_of : List (Str × J) → Str
  unfolding get_or
  symbol_of payload = elim (get_or payload (str "symbol") none) [ none ↦ [] | some v ↦ V.show v ]

  -- A missing or unreadable confidence is 0.5.
  pub confidence_of : List (Str × J) → C
  confidence_of payload = elim (lookup Str-discrete (str "confidence") payload) [
    | none ↦ V.half
    | some v ↦ elim (V.to_float v) [ none ↦ V.half | some c ↦ c ]
  ]

  -- `payload.get("strategy_id") or payload.get("strategy", "unknown")`.
  pub strategy_of : List (Str × J) → Str
  unfolding get_or
  strategy_of payload =
      elim (get_or payload (str "strategy_id") (lookup Str-discrete (str "strategy") payload)) [
        | none ↦ str "unknown"
        | some v ↦ V.show v
      ]

  -- The arguments of the arbiter.
  pub signal_of : List (Str × J) → Signal C
  unfolding action_of symbol_of confidence_of strategy_of
  signal_of payload = record {
    symbol = symbol_of payload;
    action = action_of payload;
    confidence = confidence_of payload;
    strategy_id = strategy_of payload;
  }

-- After the arbitration: the context, the guard and the router, whose exceptions are only logged.
pub proceed : {F J X : Type 0} → Floats.Floats F → Message F J X → Fate F
proceed O m = if m.builds then routed (audit O m.ending).0 else unbuilt

module _ {S E C F J X : Type 0} (R : Redis S E) (A : Arbiter.Floats C) (lower : Str → Str)
    (O : Floats.Floats F) (V : Values J C) where
  -- The verdict of the arbiter on a signal.
  pub decide : S × Outcome → Message F J X → S × Fate F
  unfolding proceed
  decide (s, outcome) m = (s, if is_allowed outcome then proceed O m else suppressed outcome)

  -- `_handle_message`, of a listener with an arbiter.
  pub handle_message :
      Option EvaluatorSubscriber → List (Str × Str) → S → ℕ → Message F J X → S × Fate F
  unfolding decide signal_of
  handle_message sub policy s now m = elim m.payload [
    | none ↦ (s, unparsed)
    | some payload ↦ decide (check R A lower sub policy s now (signal_of V payload)) m
  ]
