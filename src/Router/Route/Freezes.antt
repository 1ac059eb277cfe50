-- ===== src/Router/Route/Freezes.antt =====
-- How long a strategy's parameters are frozen (cio/core/router.py, `_apply_rate_limit_freeze` and
-- the branches that call it).
use petrosa_cio.Prelude.{
  ◌≤◌, ◌≡◌, refl, inl, inr, Str, str, ◌==◌, leb, Option, Option-cases, ◌++◌, All, All-append,
  All-if, All-ite, All-map, arith,
}
use petrosa_cio.Prelude.Floats.{Floats}
use petrosa_cio.Models.{ActionType, ActionType-discrete, Env}
use petrosa_cio.Authority.{AuthorityStore}
use petrosa_cio.Router.{
  Decision, Context, Config, RetryAfter, unreadable, missing, given, HttpAnswer, failed, response,
  Effect, freeze, retry_after_seconds, subject_of, is_alerted,
}
use petrosa_cio.Router.Translator.{Values, to_legacy_signal}
use petrosa_cio.Router.Route.{
  freeze_after, apply_change, rest_effects, trade_messages, action_messages, audit_message,
  store_effects, alert_effects, route,
}
use petrosa_cio.Router.Route.Effects.{Returns, dispatch-All, route-All}

-- A freeze of the strategy, for a second to a day.
abbrev pub IsBoundedFreeze : {F J : Type 0} → Str → Effect F J → Type 0
IsBoundedFreeze id (freeze key ttl) = (key ≡ str "cio:freeze:" ++ id) × (1 ≤ ttl) × (ttl ≤ 86400)
IsBoundedFreeze id _ = Unit

retry_after_bounds :
    (r : RetryAfter) → (1 ≤ retry_after_seconds r) × (retry_after_seconds r ≤ 86400)
unfolding retry_after_seconds
retry_after_bounds unreadable = (omega arith, omega arith)
retry_after_bounds missing = (omega arith, omega arith)
retry_after_bounds (given seconds) = ground arith

module _ {F J : Type 0} (O : Floats F) (V : Values J) where
  freeze-IsBounded :
      (cfg : Config) (id : Str) (answer : HttpAnswer)
      → All (IsBoundedFreeze {F = F} {J = J} id) (freeze_after cfg id answer)
  unfolding freeze_after
  freeze-IsBounded cfg id failed = tt
  freeze-IsBounded cfg id (response status retry) =
      All-if (IsBoundedFreeze id) cfg.has_cache _ _
        (All-if (IsBoundedFreeze id) (leb 400 status) _ _
          (All-if (IsBoundedFreeze id) (status == 429) _ _
            ((refl, (retry_after_bounds retry).0, (retry_after_bounds retry).1), tt) tt)
          ((refl, omega arith, omega arith), tt))
        tt

  rest-IsBounded :
      (cfg : Config) (id : Str) (d : Decision F J) (answer : HttpAnswer) (action : ActionType)
      → All (IsBoundedFreeze id) (rest_effects cfg id d answer action)
  unfolding rest_effects apply_change
  rest-IsBounded cfg id d answer ActionType.modify_params =
      All-if (IsBoundedFreeze id) cfg.is_dry_run _ _ tt (tt, freeze-IsBounded cfg id answer)
  rest-IsBounded cfg id d answer ActionType.pause_strategy =
      All-if (IsBoundedFreeze id) cfg.is_dry_run _ _ tt (tt, freeze-IsBounded cfg id answer)
  rest-IsBounded cfg id d answer ActionType.fail_safe =
      All-if (IsBoundedFreeze id) cfg.is_dry_run _ _ tt (tt, tt)
  rest-IsBounded cfg id d answer _ = tt

  trade_messages-IsBounded :
      (cfg : Config) (c : Context F J) (d : Decision F J) (id : Str)
      → All (IsBoundedFreeze id) (trade_messages O V cfg c d)
  unfolding trade_messages
  trade_messages-IsBounded cfg c d id =
      elim (Option-cases (
        to_legacy_signal O V c.strategy_id c.decision_id c.trigger_payload c.current_price
          d.computed_position_size_usd d.stop_loss_pct d.take_profit_pct)) [
            | inl e ↦ rw (trade_messages, e) (tt, tt)
            | inr (g, e) ↦ rw (trade_messages, e) (tt, (tt, tt))
          ]

  messages-IsBounded :
      (cfg : Config) (c : Context F J) (d : Decision F J) (action : ActionType) (id : Str)
      → All (IsBoundedFreeze id) (action_messages O V cfg c d action)
  unfolding action_messages
  messages-IsBounded cfg c d action id =
      All-ite (IsBoundedFreeze id) (ActionType-discrete action ActionType.execute) _ _
        (λ e. trade_messages-IsBounded cfg c d id)
        (elim (Option-cases (subject_of action c.strategy_id)) [
          | inl e ↦ rw e tt
          | inr (s, e) ↦ rw e (tt, tt)
        ])

  -- In every call, whatever the service answers: a freeze is one of the decision's strategy, and
  -- lasts for a second at least and a day at most.
  pub route-IsBoundedFreeze :
      (cfg : Config) (s : Option (AuthorityStore J)) (env : Env) (c : Context F J)
      (d : Decision F J) (answer : HttpAnswer)
      → Returns (All (IsBoundedFreeze c.strategy_id)) (route O V cfg s env c d answer).1
  unfolding store_effects alert_effects audit_message
  route-IsBoundedFreeze cfg s env c d answer =
      let P = IsBoundedFreeze {F = F} {J = J} c.strategy_id in
      route-All O V P cfg s env c d answer (λ p. tt)
        λ action replaced.
          dispatch-All O V P cfg c d answer action replaced
            (rest-IsBounded cfg c.strategy_id d answer action) tt
            (λ live. messages-IsBounded cfg c d action c.strategy_id) (λ live. tt)
            (All-if P cfg.has_decision_store _ _ (tt, tt) tt)
            λ live.
              All-append P _ _ (All-if P (is_alerted action) _ _ (tt, tt) tt)
                (All-map P _ c.gaps λ g. tt)
