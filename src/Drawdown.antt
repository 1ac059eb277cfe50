-- ===== src/Drawdown.antt =====
-- The emitter of drawdown alerts (cio/core/alerting/drawdown_breach_emitter.py):
-- `DrawdownBreachEmitter`. Drawdowns are exact integers of a common unit, and calls are awaited one
-- after another. An alert that the bus loses counts as sent, as in the code.
use petrosa_cio.Prelude.{
  ℕ, Str, Str-discrete, Bool, true, false, if◌then◌else◌, Option, none, some, List, [], ◌∷◌, map,
}
use petrosa_cio.Prelude.Int.{ℤ, leb_ℤ}
use petrosa_cio.Prelude.Dict.{lookup, insert, erase}
pub mod Rearm
mod Tests

-- `(strategy_id, position_id)`.
pub record Key : Type 0 where
  pub strategy_id : Str
  pub position_id : Str

unfoldable pub Key-discrete : Discrete Key
unfolding Str-discrete
Key-discrete = hlevel Str-discrete

pub record BreachRecord : Type 0 where
  pub key : Key
  pub observed_drawdown : ℤ
  pub envelope_p99 : ℤ
  pub fired_at : ℕ

-- `self._fired`.
abbrev pub Fired : Type 0
Fired = List (Key × BreachRecord)

-- The arguments of `check_and_emit`, with the time of the observation.
pub record Observation : Type 0 where
  pub key : Key
  pub realized_drawdown_pct : ℤ
  pub envelope_p99 : ℤ
  pub envelope_p100 : Option ℤ
  pub observed_at : ℕ

-- `realized_drawdown_pct <= envelope_p99` is no breach.
pub is_breach : Observation → Bool
is_breach o = if leb_ℤ o.realized_drawdown_pct o.envelope_p99 then false else true

abbrev pub record_of : Observation → BreachRecord
record_of o = record {
  key = o.key;
  observed_drawdown = o.realized_drawdown_pct;
  envelope_p99 = o.envelope_p99;
  fired_at = o.observed_at;
}

-- `check_and_emit`: the state that it leaves, and whether it published the alert.
pub check_and_emit : Fired → Observation → Fired × Bool
unfolding is_breach
check_and_emit fired o =
    if is_breach o
    then elim (lookup Key-discrete o.key fired) [
      | some r ↦ (fired, false)
      | none ↦ (insert Key-discrete o.key (record_of o) fired, true)
    ]
    else (fired, false)

pub notify_position_closed : Fired → Key → Fired
notify_position_closed fired key = erase Key-discrete key fired

pub fired_keys : Fired → List Key
fired_keys fired = map (λ item. item.0) fired
