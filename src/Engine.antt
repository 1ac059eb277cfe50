-- ===== src/Engine.antt =====
-- The deterministic engine (cio/core/engine.py): risk gates, regime blocks, parameters, expected
-- value and Kelly sizing. The floats are a parameter; the texts of reasons are data types.
use petrosa_cio.Prelude.{
  Str, Bool, true, false, not, ◌&&◌, if◌then◌else◌, Option, none, some, List, [], ◌∷◌, ◌++◌,
}
use petrosa_cio.Prelude.Int.{ℤ, leb_ℤ}
use petrosa_cio.Prelude.Floats.{Floats, zero_F, min_F, max_F}
use petrosa_cio.Models.{RegimeEnum, VolatilityLevel, ConfidenceLevel}
pub mod Gates
pub mod Sizing
mod Tests

pub record RiskLimits (F : Type 0) : Type 0 where
  pub max_drawdown_pct : F
  pub max_orders_global : ℤ
  pub max_orders_per_symbol : ℤ
  pub max_position_size_usd : F

pub record StrategyDefaults (F : Type 0) : Type 0 where
  pub stop_loss_pct : F
  pub take_profit_pct : F
  pub leverage : F

-- What the engine and the assembler read of a `TriggerContext`.
pub record TriggerContext (F : Type 0) : Type 0 where
  pub strategy_id : Str
  pub regime : RegimeEnum
  pub regime_confidence : ConfidenceLevel
  pub volatility_level : VolatilityLevel
  pub win_rate : Option F
  pub strategy_defaults : StrategyDefaults F
  pub global_drawdown_pct : F
  pub open_orders_global : ℤ
  pub open_orders_symbol : ℤ
  pub available_capital_usd : F
  pub risk_limits : RiskLimits F

pub data BlockReason : Type 0 where
  global_drawdown global_orders symbol_orders : BlockReason
  regime_block : RegimeEnum → BlockReason

pub data Warning : Type 0 where
  kelly_skipped kelly_capped : Warning

pub record CodeEngineResult (F : Type 0) : Type 0 where
  pub hard_blocked : Bool
  pub block_reason : Option BlockReason
  pub gross_ev : Option F
  pub ev_unavailable : Bool
  pub kelly_fraction : Option F
  pub kelly_position_usd : Option F
  pub recommended_sl_pct : Option F
  pub recommended_tp_pct : Option F
  pub leverage : F
  pub risk_warnings : List Warning

-- `REGIME_HARD_BLOCKS`.
pub is_blocking : RegimeEnum → Bool
is_blocking RegimeEnum.capitulation = true
is_blocking RegimeEnum.choppy = true
is_blocking _ = false

pub is_low : ConfidenceLevel → Bool
is_low ConfidenceLevel.low = true
is_low _ = false

module _ {F : Type 0} (O : Floats F) where
  -- `SL_VOL_MULTIPLIERS`.
  pub sl_vol_multiplier : VolatilityLevel → F
  sl_vol_multiplier VolatilityLevel.low = O.lit 1 1
  sl_vol_multiplier VolatilityLevel.medium = O.lit 12 10
  sl_vol_multiplier VolatilityLevel.high = O.lit 15 10
  sl_vol_multiplier VolatilityLevel.extreme = O.lit 2 1

  -- `REGIME_TP_MULTIPLIERS`.
  pub regime_tp_multiplier : RegimeEnum → F
  regime_tp_multiplier RegimeEnum.trending_bull = O.lit 13 10
  regime_tp_multiplier RegimeEnum.trending_bear = O.lit 13 10
  regime_tp_multiplier RegimeEnum.breakout_phase = O.lit 15 10
  regime_tp_multiplier RegimeEnum.ranging = O.lit 8 10
  regime_tp_multiplier RegimeEnum.choppy = O.lit 6 10
  regime_tp_multiplier RegimeEnum.high_volatility = O.lit 7 10
  regime_tp_multiplier RegimeEnum.capitulation = O.lit 6 10
  regime_tp_multiplier RegimeEnum.recovery = O.lit 1 1

  -- `REGIME_LEVERAGE_CAPS.get(…, DEFAULT_LEVERAGE_CAP)`.
  pub regime_leverage_cap : RegimeEnum → F
  regime_leverage_cap RegimeEnum.trending_bull = O.lit 2 1
  regime_leverage_cap RegimeEnum.trending_bear = O.lit 2 1
  regime_leverage_cap RegimeEnum.breakout_phase = O.lit 15 10
  regime_leverage_cap _ = O.lit 1 1

  -- The risk gates, in the order of the code.
  pub risk_gate : TriggerContext F → Option BlockReason
  risk_gate c =
      if O.leb c.risk_limits.max_drawdown_pct c.global_drawdown_pct
      then some BlockReason.global_drawdown
      else if leb_ℤ c.risk_limits.max_orders_global c.open_orders_global
      then some BlockReason.global_orders
      else if leb_ℤ c.risk_limits.max_orders_per_symbol c.open_orders_symbol
      then some BlockReason.symbol_orders
      else none

  pub regime_gate : TriggerContext F → Option BlockReason
  unfolding is_blocking is_low
  regime_gate c =
      if is_blocking c.regime && not (is_low c.regime_confidence)
      then some (BlockReason.regime_block c.regime)
      else none

  -- `CodeEngineResult()`, blocked.
  pub blocked_result : BlockReason → CodeEngineResult F
  blocked_result r = record {
    hard_blocked = true;
    block_reason = some r;
    gross_ev = none;
    ev_unavailable = false;
    kelly_fraction = none;
    kelly_position_usd = none;
    recommended_sl_pct = none;
    recommended_tp_pct = none;
    leverage = O.lit 1 1;
    risk_warnings = [];
  }

  -- `max(0.0, min(0.25, kelly_f))`.
  pub kelly_fraction_of : F → F → F
  kelly_fraction_of win odds =
      max_F O (zero_F O) (min_F O (O.lit 25 100) (O.sub win (O.div (O.sub (O.lit 1 1) win) odds)))

  -- A float is truthy unless it is zero.
  pub truthy : F → Bool
  truthy x = not (O.leb x (zero_F O) && O.leb (zero_F O) x)

  -- The fraction, the position and the warnings of the Kelly criterion, before the limit.
  pub kelly : F → F → F → F → F × F × List Warning
  unfolding kelly_fraction_of
  kelly win sl tp capital =
      let odds = O.div tp sl in
      if O.ltb (zero_F O) odds
      then (kelly_fraction_of win odds, O.mul (kelly_fraction_of win odds) capital, [])
      else (zero_F O, zero_F O, Warning.kelly_skipped ∷ [])

  -- The final check against the risk limit.
  pub cap_position : F → F × F × List Warning → F × F × List Warning
  unfolding truthy
  cap_position limit (fraction, position, warnings) =
      if truthy position && O.ltb limit position
      then (fraction, limit, warnings ++ Warning.kelly_capped ∷ [])
      else (fraction, position, warnings)

  pub gross_ev_of : F → F → F → F
  gross_ev_of win sl tp = O.sub (O.mul win tp) (O.mul (O.sub (O.lit 1 1) win) sl)

  -- `recommended_sl_pct` and `recommended_tp_pct`.
  pub sl_of : TriggerContext F → F
  unfolding sl_vol_multiplier
  sl_of c = O.mul c.strategy_defaults.stop_loss_pct (sl_vol_multiplier c.volatility_level)

  pub tp_of : TriggerContext F → F
  unfolding regime_tp_multiplier
  tp_of c = O.mul c.strategy_defaults.take_profit_pct (regime_tp_multiplier c.regime)

  -- The result without sizes.
  pub unsized : TriggerContext F → CodeEngineResult F
  unfolding sl_of tp_of regime_leverage_cap
  unsized c = record {
    hard_blocked = false;
    block_reason = none;
    gross_ev = none;
    ev_unavailable = true;
    kelly_fraction = none;
    kelly_position_usd = none;
    recommended_sl_pct = some (sl_of c);
    recommended_tp_pct = some (tp_of c);
    leverage = min_F O c.strategy_defaults.leverage (regime_leverage_cap c.regime);
    risk_warnings = [];
  }

  -- The parts 3 to 6 of `CodeEngine.run`.
  pub quantify : TriggerContext F → Option F → CodeEngineResult F
  unfolding unsized gross_ev_of kelly cap_position
  quantify c none = unsized c
  quantify c (some win) =
      let valued = record (unsized c) {
        ev_unavailable = false;
        gross_ev = some (gross_ev_of win (sl_of c) (tp_of c));
      } in
      let (fraction, position, warnings) =
        cap_position c.risk_limits.max_position_size_usd
          (kelly win (sl_of c) (tp_of c) c.available_capital_usd) in
      if O.ltb (zero_F O) (sl_of c)
      then record valued {
        kelly_fraction = some fraction;
        kelly_position_usd = some position;
        risk_warnings = warnings;
      }
      else valued

  -- `CodeEngine.run`.
  pub run : TriggerContext F → CodeEngineResult F
  unfolding risk_gate regime_gate blocked_result quantify
  run c = elim (risk_gate c) [
    | some r ↦ blocked_result r
    | none ↦ elim (regime_gate c) [ some r ↦ blocked_result r | none ↦ quantify c c.win_rate ]
  ]
