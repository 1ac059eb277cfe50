-- ===== src/Router/Resolver.antt =====
-- The service that a strategy belongs to (cio/core/service_resolver.py).
use petrosa_cio.Prelude.{
  Str, str, Str-discrete, ite, Bool, true, false, if◌then◌else◌, List, [], ◌∷◌,
}

pub data ServiceType : Type 0 where
  ta_bot realtime_strategies : ServiceType

-- `REALTIME_SERVICE_STRATEGIES`.
unfoldable pub realtime_service_strategies : List Str
realtime_service_strategies =
    str "orderbook_skew"
    ∷ str "trade_momentum"
    ∷ str "ticker_velocity"
    ∷ str "btc_dominance"
    ∷ str "onchain_metrics"
    ∷ str "iceberg_detector"
    ∷ []

-- `s in strategies`.
unfoldable pub is_member : Str → List Str → Bool
is_member s [] = false
is_member s (t ∷ strategies) = let rest = is_member s strategies in ite (Str-discrete s t) true rest

-- `TargetServiceResolver.resolve`; a strategy in neither set is only logged.
unfoldable pub resolve : Str → ServiceType
unfolding realtime_service_strategies is_member
resolve strategy_id =
    if is_member strategy_id realtime_service_strategies
    then ServiceType.realtime_strategies
    else ServiceType.ta_bot
