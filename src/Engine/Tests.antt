-- ===== src/Engine/Tests.antt =====
-- The engine on numbers in thousandths: a strategy that wins 60 % of its trades, and a blocked one.
use petrosa_cio.Prelude.{ℕ, ◌≡◌, refl, str, some}
use petrosa_cio.Prelude.Int.{pos}
use petrosa_cio.Prelude.Fixed.{fixed, fixed-IsOrdered}
use petrosa_cio.Models.{RegimeEnum, VolatilityLevel, ConfidenceLevel}
use petrosa_cio.Engine
use petrosa_cio.Engine.{
  TriggerContext, BlockReason, risk_gate, regime_gate, quantify, blocked_result, unsized,
  cap_position, kelly, kelly_fraction_of, truthy, sl_of, tp_of, sl_vol_multiplier,
  regime_tp_multiplier, regime_leverage_cap, gross_ev_of, is_blocking, is_low,
}
use petrosa_cio.Engine.Gates.{Gated, run-Gated}
use petrosa_cio.Engine.Sizing.{IsSized, run-IsSized}

abbrev context : TriggerContext ℕ
context = record {
  strategy_id = str "s";
  regime = RegimeEnum.trending_bull;
  regime_confidence = ConfidenceLevel.high;
  volatility_level = VolatilityLevel.low;
  win_rate = some 600;
  strategy_defaults = record { stop_loss_pct = 20; take_profit_pct = 40; leverage = 3000 };
  global_drawdown_pct = 10;
  open_orders_global = pos 1;
  open_orders_symbol = pos 0;
  available_capital_usd = 1_000_000;
  risk_limits = record {
    max_drawdown_pct = 100;
    max_orders_global = pos 5;
    max_orders_per_symbol = pos 2;
    max_position_size_usd = 200_000;
  };
}

sized :
    ((Engine.run fixed context).kelly_position_usd ≡ some 200_000)
    × ((Engine.run fixed context).leverage ≡ 2000)
unfolding Engine.run risk_gate regime_gate quantify unsized cap_position kelly kelly_fraction_of
    truthy sl_of tp_of sl_vol_multiplier regime_tp_multiplier regime_leverage_cap gross_ev_of
    is_blocking is_low fixed
sized = (refl, refl)

stopped :
    (Engine.run fixed (record context { regime = RegimeEnum.choppy })).block_reason
    ≡ some (BlockReason.regime_block RegimeEnum.choppy)
unfolding Engine.run risk_gate regime_gate blocked_result is_blocking is_low fixed
stopped = refl

run-Gated_example : Gated fixed context (Engine.run fixed context)
run-Gated_example = run-Gated fixed context

run-IsSized_example : IsSized fixed fixed-IsOrdered context (Engine.run fixed context)
unfolding fixed
run-IsSized_example = run-IsSized fixed fixed-IsOrdered context refl refl
