-- ===== src/Models.antt =====
-- The domain vocabulary (cio/models/enums.py) and what every call takes from its surroundings.
use petrosa_cio.Prelude.{ℕ, Str, str, List, [], ◌∷◌}

-- `ActionType`: the decisions that the CIO can take.
pub data ActionType : Type 0 where
  execute modify_params skip block pause_strategy escalate retry_safe fail_safe : ActionType
  down_weight throttle veto : ActionType
  admit admit_small reject promote demote retire : ActionType
  modify_stops exit_now scale_out : ActionType

unfoldable pub ActionType-discrete : Discrete ActionType
ActionType-discrete = hlevel

-- The members of `ActionType`, in the order of the class body.
abbrev pub action_types : List ActionType
action_types =
    ActionType.execute ∷ ActionType.modify_params ∷ ActionType.skip ∷ ActionType.block
    ∷ ActionType.pause_strategy ∷ ActionType.escalate ∷ ActionType.retry_safe ∷ ActionType.fail_safe
    ∷ ActionType.down_weight ∷ ActionType.throttle ∷ ActionType.veto ∷ ActionType.admit
    ∷ ActionType.admit_small ∷ ActionType.reject ∷ ActionType.promote ∷ ActionType.demote
    ∷ ActionType.retire ∷ ActionType.modify_stops ∷ ActionType.exit_now ∷ ActionType.scale_out ∷ []

-- What a call reads from outside the program: the clock (`datetime.now(UTC)`) and the next
-- `uuid.uuid4().hex`.
pub record Env : Type 0 where
  pub now : ℕ
  pub uuid : Str

-- `RegimeEnum`.
pub data RegimeEnum : Type 0 where
  trending_bull trending_bear ranging breakout_phase : RegimeEnum
  high_volatility capitulation recovery choppy : RegimeEnum

pub data VolatilityLevel : Type 0 where
  low medium high extreme : VolatilityLevel

pub data ConfidenceLevel : Type 0 where
  high medium low : ConfidenceLevel

pub data HealthStatus : Type 0 where
  healthy degraded failing : HealthStatus

pub data RegimeFit : Type 0 where
  good neutral poor : RegimeFit

pub data ActivationRecommendation : Type 0 where
  run reduce pause : ActivationRecommendation

pub data ParamChangeDirection : Type 0 where
  increase decrease : ParamChangeDirection

-- `ActionType.….value`.
unfoldable pub value_of : ActionType → Str
value_of ActionType.execute = str "execute"
value_of ActionType.modify_params = str "modify_params"
value_of ActionType.skip = str "skip"
value_of ActionType.block = str "block"
value_of ActionType.pause_strategy = str "pause_strategy"
value_of ActionType.escalate = str "escalate"
value_of ActionType.retry_safe = str "retry_safe"
value_of ActionType.fail_safe = str "fail_safe"
value_of ActionType.down_weight = str "down_weight"
value_of ActionType.throttle = str "throttle"
value_of ActionType.veto = str "veto"
value_of ActionType.admit = str "admit"
value_of ActionType.admit_small = str "admit_small"
value_of ActionType.reject = str "reject"
value_of ActionType.promote = str "promote"
value_of ActionType.demote = str "demote"
value_of ActionType.retire = str "retire"
value_of ActionType.modify_stops = str "modify_stops"
value_of ActionType.exit_now = str "exit_now"
value_of ActionType.scale_out = str "scale_out"
