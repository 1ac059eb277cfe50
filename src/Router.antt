-- ===== src/Router.antt =====
-- The output router (cio/core/router.py): what a decision sets off. The vector store, NATS, the HTTP
-- services and the cache are asked for effects, in the order in which the code starts them; whether
-- a publish or a write succeeds changes nothing that follows. Logging, metrics and traces are left
-- out.
use petrosa_cio.Prelude.{
  ℕ, Str, str, or_else, Bool, true, false, not, ◌&&◌, ◌||◌, ◌==◌, leb, if◌then◌else◌, Option, none,
  some, List, [], ◌∷◌, ◌++◌, map, Result, ok, raise,
}
use petrosa_cio.Prelude.Int.{ℤ, pos, negsuc, leb_ℤ, ltb_ℤ, pos_part}
use petrosa_cio.Prelude.Floats.{Floats}
use petrosa_cio.Models.{ActionType, ConfidenceLevel, Env, value_of}
use petrosa_cio.Leverage.{EnvInt, arbitrate_leverage}
use petrosa_cio.Authority.{
  AuthorityStore, AuthorityDecision, PendingDecision, Request, Error, apply_authority,
}
use petrosa_cio.Router.Resolver.{ServiceType, resolve}
use petrosa_cio.Router.Translator.{Values, Signal, to_legacy_signal}
pub mod Resolver
pub mod Translator
pub mod Route
mod Tests

pub data RejectionSource : Type 0 where
  stale_characterization aggregate_leverage_ceiling : RejectionSource

-- What the router reads of a `DecisionResult`; `dump` is `model_dump()`.
pub record Decision (F J : Type 0) : Type 0 where
  pub action : Option ActionType
  pub justification : Option Str
  pub thought_trace : Option Str
  pub param_change : Option (Str × F)
  pub computed_position_size_usd : Option F
  pub stop_loss_pct : Option F
  pub take_profit_pct : Option F
  pub regime_confidence : ConfidenceLevel
  pub rejection_source : Option RejectionSource
  pub dump : List (Str × J)

pub record ContextGap : Type 0 where
  pub surface : Str
  pub reason : Str
  pub observed_at : ℕ

-- What the router reads of a `TriggerContext`; the gaps are those of its `pre_decision_context`.
pub record Context (F J : Type 0) : Type 0 where
  pub correlation_id : Str
  pub decision_id : Str
  pub strategy_id : Str
  pub trigger_payload : List (Str × J)
  pub current_price : F
  pub recommended_leverage : Option ℤ
  pub strategy_leverage_envelope : Option ℤ
  pub gaps : List ContextGap

-- The configuration: environment variables, URLs, and which stores there are. `signals_topic` is
-- the value of `NATS_TOPIC_SIGNALS`.
pub record Config : Type 0 where
  pub is_dry_run : Bool
  pub ta_bot_url : Str
  pub realtime_strategies_url : Str
  pub signals_topic : Option Str
  pub operator_max : EnvInt
  pub has_cache : Bool
  pub has_decision_store : Bool

-- `retry_after` of a body, through `int(float(…))`; `unreadable` is any failure on the way.
pub data RetryAfter : Type 0 where
  unreadable missing : RetryAfter
  given : ℤ → RetryAfter

-- What a POST comes to: an exception, or a response.
pub data HttpAnswer : Type 0 where
  failed : HttpAnswer
  response : ℕ → RetryAfter → HttpAnswer

-- The parameters of a change of a strategy's configuration.
pub data Parameters (F : Type 0) : Type 0 where
  no_parameters disable : Parameters F
  set_parameter : Str → F → Parameters F

pub record ConfigChange (F : Type 0) : Type 0 where
  pub parameters : Parameters F
  pub changed_by : Str
  pub reason : Str

pub record AuditCopy : Type 0 where
  pub decision_id : Str
  pub correlation_id : Str
  pub strategy_id : Str
  pub action : ActionType
  pub thought_trace : Option Str
  pub justification : Option Str
  pub authority_fallback_from : Option ActionType

pub record DecisionRecord : Type 0 where
  pub strategy_id : Str
  pub action : ActionType
  pub reasoning_trace : Str
  pub confidence : ℕ
  pub decision_id : Str
  pub rejection_source : Option RejectionSource
  pub decided_leverage : ℤ

-- What is published.
pub data Message (F J : Type 0) : Type 0 where
  decision_json : Decision F J → Message F J
  legacy_json : Signal F J → Message F J
  audit_copy : AuditCopy → Message F J
  action_alert : ActionType → Str → Message F J
  context_gap : ContextGap → Message F J

pub data Effect (F J : Type 0) : Type 0 where
  upsert_decision : ActionType → Option ActionType → Effect F J
  upsert_pending : PendingDecision J → Effect F J
  publish : Str → Message F J → Effect F J
  post : Str → ConfigChange F → Effect F J
  freeze : Str → ℕ → Effect F J
  record_decision : DecisionRecord → Effect F J

-- `s.rstrip(".*>")`.
pub rstrip_wildcards : Str → Str
rstrip_wildcards [] = []
rstrip_wildcards (x ∷ s) =
    let rest = rstrip_wildcards s in
    elim rest [ [] ↦ if x == 46 || x == 42 || x == 62 then [] else x ∷ [] | y ∷ r ↦ x ∷ y ∷ r ]

pub action_or_skip : Option ActionType → ActionType
action_or_skip none = ActionType.skip
action_or_skip (some a) = a

-- `_apply_rate_limit_freeze`: its lifetime.
pub retry_after_seconds : RetryAfter → ℕ
retry_after_seconds unreadable = 3600
retry_after_seconds missing = 3600
retry_after_seconds (given seconds) =
    let capped = if ltb_ℤ (pos 86400) seconds then pos 86400 else seconds in
    if ltb_ℤ (pos 1) capped then pos_part capped else 1

-- The subject on which an action is published with the decision: the branches from ESCALATE to
-- FAIL_SAFE.
pub subject_of : ActionType → Str → Option Str
unfolding value_of
subject_of ActionType.escalate id = some (str "cio.escalation." ++ id)
subject_of ActionType.retry_safe id = some (str "cio.retry." ++ id)
subject_of ActionType.down_weight id = some (str "cio.weight." ++ id)
subject_of ActionType.throttle id = some (str "cio.throttle." ++ id)
subject_of ActionType.veto id = some (str "cio.veto." ++ id)
subject_of ActionType.admit id = some (str "cio.lifecycle.admit." ++ id)
subject_of ActionType.admit_small id = some (str "cio.lifecycle.admit_small." ++ id)
subject_of ActionType.reject id = some (str "cio.lifecycle.reject." ++ id)
subject_of ActionType.promote id = some (str "cio.lifecycle.promote." ++ id)
subject_of ActionType.demote id = some (str "cio.lifecycle.demote." ++ id)
subject_of ActionType.retire id = some (str "cio.lifecycle.retire." ++ id)
subject_of ActionType.modify_stops id = some (str "cio.position.modify_stops." ++ id)
subject_of ActionType.exit_now id = some (str "cio.position.exit_now." ++ id)
subject_of ActionType.scale_out id = some (str "cio.position.scale_out." ++ id)
subject_of ActionType.fail_safe id = some (str "cio.failure." ++ id)
subject_of _ id = none

-- `CIO_ALERT_ACTIONS`.
pub is_alerted : ActionType → Bool
is_alerted ActionType.veto = true
is_alerted ActionType.demote = true
is_alerted ActionType.retire = true
is_alerted ActionType.exit_now = true
is_alerted _ = false

-- The confidences, in tenths. The map's keys are upper case, and so is what is looked up.
pub confidence_of : ConfidenceLevel → ℕ
confidence_of ConfidenceLevel.high = 9
confidence_of ConfidenceLevel.medium = 6
confidence_of ConfidenceLevel.low = 3
