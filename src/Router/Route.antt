-- ===== src/Router/Route.antt =====
-- `OutputRouter.route` (cio/core/router.py), from the authority to the last alert.
use petrosa_cio.Prelude.{
  ℕ, Str, str, or_else, ite, Bool, true, false, not, ◌&&◌, ◌==◌, leb, if◌then◌else◌, Option, none,
  some, List, [], ◌∷◌, ◌++◌, map, Result, ok, raise,
}
use petrosa_cio.Prelude.Floats.{Floats}
use petrosa_cio.Prelude.Strip.{strip}
use petrosa_cio.Models.{ActionType, ActionType-discrete, Env, value_of}
use petrosa_cio.Leverage.{arbitrate_leverage}
use petrosa_cio.Authority.{
  AuthorityStore, AuthorityDecision, PendingDecision, Request, Error, apply_authority,
}
use petrosa_cio.Router.{
  Decision, ContextGap, Context, Config, HttpAnswer, failed, response, Parameters, no_parameters,
  disable, set_parameter, ConfigChange, DecisionRecord, Message, decision_json, legacy_json,
  audit_copy, action_alert, context_gap, Effect, upsert_decision, upsert_pending, publish, post,
  freeze, record_decision, rstrip_wildcards, action_or_skip, retry_after_seconds, subject_of,
  is_alerted, confidence_of,
}
use petrosa_cio.Router.Resolver.{ServiceType, resolve}
use petrosa_cio.Router.Translator.{Values, to_legacy_signal}
pub mod Trades
pub mod Effects
pub mod Accounts
pub mod Freezes

-- The URL of a strategy's configuration.
pub config_url : Config → Str → Str
config_url cfg id =
    elim (resolve id) [
      | ServiceType.ta_bot ↦ cfg.ta_bot_url
      | ServiceType.realtime_strategies ↦ cfg.realtime_strategies_url
    ]
    ++ (str "/api/v1/strategies/" ++ id ++ str "/config")

pub change_of : {F : Type 0} → Str → Parameters F → Str → ConfigChange F
change_of id parameters reason = record {
  parameters = parameters;
  changed_by = str "petrosa-cio:" ++ id;
  reason = reason;
}

pub parameters_of : {F : Type 0} → Option (Str × F) → Parameters F
parameters_of none = no_parameters
parameters_of (some (param, new_value)) = set_parameter param new_value

module _ {F J : Type 0} where
  -- The freeze after a response, of the branches MODIFY_PARAMS and PAUSE_STRATEGY.
  pub freeze_after : Config → Str → HttpAnswer → List (Effect F J)
  freeze_after cfg id failed = []
  freeze_after cfg id (response status retry) =
      if cfg.has_cache
      then if leb 400 status
        then if status == 429
          then freeze (str "cio:freeze:" ++ id) (retry_after_seconds retry) ∷ []
          else []
        else freeze (str "cio:freeze:" ++ id) 1800 ∷ []
      else []

  -- A configuration change that is awaited.
  pub apply_change : Config → Str → ConfigChange F → HttpAnswer → List (Effect F J)
  unfolding config_url freeze_after
  apply_change cfg id change answer =
      if cfg.is_dry_run then [] else post (config_url cfg id) change ∷ freeze_after cfg id answer

  -- What is sent to the strategy's service before anything is published.
  pub rest_effects : Config → Str → Decision F J → HttpAnswer → ActionType → List (Effect F J)
  unfolding apply_change change_of parameters_of config_url
  rest_effects cfg id d answer ActionType.modify_params =
      apply_change cfg id
        (change_of id (parameters_of d.param_change)
          (or_else d.justification (str "CIO automated parameter adjustment")))
        answer
  rest_effects cfg id d answer ActionType.pause_strategy =
      apply_change cfg id
        (change_of id disable
          (str "CIO_PAUSE: " ++ or_else d.justification (str "automated pause")))
        answer
  rest_effects cfg id d answer ActionType.fail_safe =
      if cfg.is_dry_run
      then []
      else post (config_url cfg id) (
          change_of id disable
            (str "CRITICAL_FAIL_SAFE: " ++ or_else d.justification (str "system failure")))
        ∷ []
  rest_effects cfg id d answer _ = []

  module _ (O : Floats F) (V : Values J) where
    -- The T-junction of EXECUTE: the legacy signal, if it can be built, and the decision.
    pub trade_messages : Config → Context F J → Decision F J → List (Effect F J)
    trade_messages cfg c d =
        let base = rstrip_wildcards (or_else cfg.signals_topic (str "signals.trading")) in
        let modern = publish (str "trade.execute." ++ c.strategy_id) (decision_json d) ∷ [] in
        elim (to_legacy_signal O V c.strategy_id c.decision_id c.trigger_payload c.current_price
          d.computed_position_size_usd d.stop_loss_pct d.take_profit_pct) [
            | none ↦ modern
            | some signal ↦ publish (base ++ str "." ++ c.strategy_id) (legacy_json signal) ∷ modern
          ]

    -- What an action publishes, before the copy for the audit.
    pub action_messages : Config → Context F J → Decision F J → ActionType → List (Effect F J)
    unfolding trade_messages
    action_messages cfg c d action =
        ite (ActionType-discrete action ActionType.execute) (trade_messages cfg c d)
          (elim (subject_of action c.strategy_id) [
            | none ↦ []
            | some subject ↦ publish subject (decision_json d) ∷ []
          ])

    -- The copy for the audit; `replaced` is the action that the authority replaced.
    pub audit_message : Context F J → Decision F J → ActionType → Option ActionType → Effect F J
    audit_message c d action replaced = publish (str "cio.decision.audit." ++ value_of action) (
        audit_copy (record {
          decision_id = c.decision_id;
          correlation_id = c.correlation_id;
          strategy_id = c.strategy_id;
          action = action;
          thought_trace = d.thought_trace;
          justification = d.justification;
          authority_fallback_from = replaced;
        }))

    -- The entry of the dashboard.
    pub record_of : Config → Context F J → Decision F J → ActionType → DecisionRecord
    record_of cfg c d action = record {
      strategy_id = c.strategy_id;
      action = action;
      reasoning_trace = or_else d.thought_trace (or_else d.justification []);
      confidence = confidence_of d.regime_confidence;
      decision_id = c.decision_id;
      rejection_source = d.rejection_source;
      decided_leverage =
          (arbitrate_leverage cfg.operator_max c.recommended_leverage none
            c.strategy_leverage_envelope).decided_leverage;
    }

    pub store_effects : Config → Context F J → Decision F J → ActionType → List (Effect F J)
    unfolding record_of
    store_effects cfg c d action =
        if cfg.has_decision_store then record_decision (record_of cfg c d action) ∷ [] else []

    -- The alerts after the dispatch: on the action, and on each gap of the context.
    pub alert_effects : Context F J → Decision F J → ActionType → List (Effect F J)
    alert_effects c d action =
        (if is_alerted action
          then publish
              (str "alerts.cio."
                ++ value_of action
                ++ str "."
                ++ or_else (some (strip c.strategy_id)) (str "unknown"))
              (action_alert action (or_else d.thought_trace (or_else d.justification [])))
            ∷ []
          else [])
        ++ map (λ (g : ContextGap). publish (str "cio.context.gap." ++ g.surface) (context_gap g))
            c.gaps

    -- Everything that follows the authority, for the action that it leaves.
    pub dispatch :
        Config
        → Context F J
        → Decision F J
        → HttpAnswer
        → ActionType
        → Option ActionType
        → List (Effect F J)
    unfolding rest_effects action_messages audit_message store_effects alert_effects
    dispatch cfg c d answer action replaced =
        let published = action_messages cfg c d action ++ audit_message c d action replaced ∷ [] in
        rest_effects cfg c.strategy_id d answer action
        ++ upsert_decision action replaced ∷ (if cfg.is_dry_run then [] else published)
        ++ store_effects cfg c d action
        ++ (if cfg.is_dry_run then [] else alert_effects c d action)

    pub request_of : Context F J → Decision F J → ActionType → Request J
    request_of c d action = record {
      action = action;
      strategy_id = c.strategy_id;
      decision_id = c.decision_id;
      correlation_id = c.correlation_id;
      context_payload = c.trigger_payload;
      decision_payload = d.dump;
    }

    -- What follows the answer of the authority.
    pub authorized :
        Config
        → Context F J
        → Decision F J
        → HttpAnswer
        → ActionType
        → AuthorityDecision J
        → List (Effect F J)
    unfolding dispatch
    authorized cfg c d answer action a = elim a.pending [
      | some p ↦ upsert_pending p ∷ []
      | none ↦
          if a.was_disabled
          then dispatch cfg c d answer a.action (some action)
          else dispatch cfg c d answer action none
    ]

    -- `route`: the authority store that it leaves, and its effects; `answer` is what a POST comes
    -- to, if one is made.
    pub route :
        Config
        → Option (AuthorityStore J)
        → Env
        → Context F J
        → Decision F J
        → HttpAnswer
        → Option (AuthorityStore J) × Result Error (List (Effect F J))
    unfolding request_of authorized dispatch
    route cfg none env c d answer =
        (none, ok (dispatch cfg c d answer (action_or_skip d.action) none))
    route cfg (some store) env c d answer =
        let action = action_or_skip d.action in
        let (store', verdict) = apply_authority store env (request_of c d action) in
        elim verdict [
          | raise e ↦ (some store', raise e)
          | ok a ↦ (some store', ok (authorized cfg c d answer action a))
        ]
