-- ===== src/Router/Tests.antt =====
-- A decision to trade, live and in a dry run, and one whose service refuses a change.
use petrosa_cio.Prelude.{
  ℕ, Str, str, Str-discrete, ◌≡◌, refl, Bool, true, false, none, some, [], ◌∷◌, All,
}
use petrosa_cio.Prelude.Int.{pos}
use petrosa_cio.Prelude.Fixed.{fixed}
use petrosa_cio.Models.{ActionType, ConfidenceLevel, Env}
use petrosa_cio.Leverage.{EnvInt}
use petrosa_cio.Authority.{AuthorityStore, init}
use petrosa_cio.Router.{Decision, Context, Config, HttpAnswer, response, given, retry_after_seconds}
use petrosa_cio.Router.Translator.{Values}
use petrosa_cio.Router.Resolver.{ServiceType, resolve, is_member, realtime_service_strategies}
use petrosa_cio.Router.Route.{route}
use petrosa_cio.Router.Route.Effects.{Returns, IsLocal, route-IsLocal}
use petrosa_cio.Router.Route.Trades.{IsTrade, Permits, route-Permits}
use petrosa_cio.Router.Route.Accounts.{IsAccounted, route-IsAccounted}
use petrosa_cio.Router.Route.Freezes.{IsBoundedFreeze, route-IsBoundedFreeze}

resolved : resolve (str "btc_dominance") ≡ ServiceType.realtime_strategies
unfolding resolve is_member realtime_service_strategies Str-discrete
resolved = refl

clamped : retry_after_seconds (given (pos 100_000)) ≡ 86400
unfolding retry_after_seconds
clamped = refl

-- JSON values that are texts, in lower case already.
abbrev texts : Values Str
texts = record { truthy = λ s. elim s [ [] ↦ false | x ∷ r ↦ true ]; lower = λ s. s }

abbrev config : Bool → Config
config dry = record {
  is_dry_run = dry;
  ta_bot_url = str "http://ta";
  realtime_strategies_url = str "http://rt";
  signals_topic = none;
  operator_max = EnvInt.unset;
  has_cache = true;
  has_decision_store = true;
}

abbrev context : Context ℕ Str
context = record {
  correlation_id = str "k";
  decision_id = str "d";
  strategy_id = str "s";
  trigger_payload = (str "side", str "long") ∷ [];
  current_price = 50_000;
  recommended_leverage = none;
  strategy_leverage_envelope = none;
  gaps = [];
}

abbrev decision : ActionType → Decision ℕ Str
decision action = record {
  action = some action;
  justification = none;
  thought_trace = some (str "t");
  param_change = some (str "stop_loss_pct", 22);
  computed_position_size_usd = some 100_000;
  stop_loss_pct = some 20;
  take_profit_pct = some 40;
  regime_confidence = ConfidenceLevel.high;
  rejection_source = none;
  dump = [];
}

-- Every action is enabled.
abbrev store : AuthorityStore Str
store = init [] none

abbrev env : Env
env = record { now = 3; uuid = str "u" }

abbrev refused : HttpAnswer
refused = response 429 (given (pos 100_000))

route-IsLocal_example :
    Returns
      (All IsLocal)
      (route fixed texts
        (config true)
        (some store)
        env
        context
        (decision ActionType.execute)
        refused).1
route-IsLocal_example =
    route-IsLocal fixed texts (config true) (some store) env context (decision ActionType.execute)
      refused refl

route-Permits_example :
    Returns
      (All (λ e.
        IsTrade e
        → ((config false).is_dry_run ≡ false)
          × Permits fixed texts store (decision ActionType.execute)))
      (route fixed texts
        (config false)
        (some store)
        env
        context
        (decision ActionType.execute)
        refused).1
route-Permits_example =
    route-Permits fixed texts (config false) store env context (decision ActionType.execute) refused

route-IsAccounted_example :
    Returns
      (IsAccounted fixed texts (config false))
      (route fixed texts
        (config false)
        (some store)
        env
        context
        (decision ActionType.veto)
        refused).1
route-IsAccounted_example =
    route-IsAccounted fixed texts (config false) (some store) env context (decision ActionType.veto)
      refused

refused_freeze :
    Returns
      (All (IsBoundedFreeze (str "s")))
      (route fixed texts
        (config false)
        (some store)
        env
        context
        (decision ActionType.modify_params)
        refused).1
refused_freeze =
    route-IsBoundedFreeze fixed texts (config false) (some store) env context
      (decision ActionType.modify_params) refused
