-- ===== src/Router/Translator.antt =====
-- The legacy signal of a decision (cio/output/translator.py). Floats are a parameter, and so are
-- the values of the trigger's payload.
use petrosa_cio.Prelude.{
  Str, str, Str-discrete, ite, Bool, ◌&&◌, if◌then◌else◌, Option, none, some, List,
}
use petrosa_cio.Prelude.Dict.{lookup}
use petrosa_cio.Prelude.Floats.{Floats, zero_F}

-- A JSON value: whether it is truthy, and `str(…).lower()`.
pub record Values (J : Type 0) : Type 0 where
  pub truthy : J → Bool
  pub lower : J → Str

pub data Side : Type 0 where
  buy sell : Side

-- A percentage of the decision, or else what the payload has under its name.
pub data Percentage (F J : Type 0) : Type 0 where
  decided : F → Percentage F J
  given : Option J → Percentage F J

pub record Signal (F J : Type 0) : Type 0 where
  pub strategy_id : Str
  pub decision_id : Str
  pub symbol : Option J
  pub action : Side
  pub price : F
  pub quantity : F
  pub original_size_usd : F
  pub stop_loss : Option J
  pub stop_loss_pct : Percentage F J
  pub take_profit : Option J
  pub take_profit_pct : Percentage F J

module _ {F J : Type 0} (O : Floats F) (V : Values J) where
  abbrev pub Payload : Type 0
  Payload = List (Str × J)

  -- `payload.get(key) or rest`.
  pub get_or : Payload → Str → Option J → Option J
  get_or payload key rest = elim (lookup Str-discrete key payload) [
    | none ↦ rest
    | some v ↦ if V.truthy v then some v else rest
  ]

  -- The direction, under any of its names; `none` is a falsy one.
  pub side_of : Payload → Option J
  unfolding get_or
  side_of payload =
      get_or payload (str "side")
        (get_or payload (str "action") (get_or payload (str "signal_type") none))

  pub action_of_side : J → Side
  action_of_side v = ite (Str-discrete (V.lower v) (str "long")) Side.buy (
      ite (Str-discrete (V.lower v) (str "buy")) Side.buy
        (ite (Str-discrete (V.lower v) (str "bullish")) Side.buy Side.sell))

  -- `own or payload.get(key)`.
  pub percentage : Option F → Payload → Str → Percentage F J
  percentage none payload key = given (lookup Str-discrete key payload)
  percentage (some x) payload key =
      if O.leb x (zero_F O) && O.leb (zero_F O) x
      then given (lookup Str-discrete key payload)
      else decided x

  -- `TradeEngineTranslator.to_legacy_signal`, of the strategy, the decision's id, the payload and
  -- the price of the context, and of the decision's size and percentages.
  pub to_legacy_signal :
      Str → Str → Payload → F → Option F → Option F → Option F → Option (Signal F J)
  unfolding side_of action_of_side percentage
  to_legacy_signal strategy_id decision_id payload price none sl tp = none
  to_legacy_signal strategy_id decision_id payload price (some size) sl tp =
      elim (side_of payload) [
        | none ↦ none
        | some side ↦
            if O.leb price (zero_F O)
            then none
            else some (record {
              strategy_id = strategy_id;
              decision_id = decision_id;
              symbol = lookup Str-discrete (str "symbol") payload;
              action = action_of_side side;
              price = price;
              quantity = O.div size price;
              original_size_usd = size;
              stop_loss = lookup Str-discrete (str "stop_loss") payload;
              stop_loss_pct = percentage sl payload (str "stop_loss_pct");
              take_profit = lookup Str-discrete (str "take_profit") payload;
              take_profit_pct = percentage tp payload (str "take_profit_pct");
            })
      ]
