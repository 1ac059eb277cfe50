-- ===== src/Portfolio.antt =====
-- The aggregate-leverage accountant (cio/core/portfolio_tracker.py). Sizes, leverages and equity
-- are exact: integers in fixed units, and ratios of such; the rounding of floats, and the values
-- `nan` and `inf` of a caller, are left out, and so is the text of the reason.
use petrosa_cio.Prelude.{
  ℕ, ◌+◌, ◌*◌, Str, Str-discrete, Bool, true, false, ltb, leb, if◌then◌else◌, Option, none, some,
  List, [], ◌∷◌, length,
}
use petrosa_cio.Prelude.Int.{ℤ, pos, negsuc, pos_part, leb_ℤ}
use petrosa_cio.Prelude.Dict.{insert, erase}
pub mod Ceiling
pub mod Exposure
mod Tests

-- A ratio `num / den`; `den` is not 0.
pub record Ratio : Type 0 where
  pub num : ℕ
  pub den : ℕ

-- The environment variable of the ceiling, read by `os.getenv` and `float`; `below_zero` is any
-- negative number.
pub data EnvFloat : Type 0 where
  unset malformed below_zero : EnvFloat
  value : Ratio → EnvFloat

-- `ceiling_from_env`: 5.0 by default, 0.0 for a negative value.
pub ceiling_from_env : EnvFloat → Ratio
ceiling_from_env (EnvFloat.value r) = r
ceiling_from_env EnvFloat.below_zero = record { num = 0; den = 1 }
ceiling_from_env _ = record { num = 5; den = 1 }

-- `_Position`; both fields went through `max(0.0, …)`.
pub record Position : Type 0 where
  pub position_size_usd : ℕ
  pub leverage : ℕ

-- `self._positions`.
abbrev pub Positions : Type 0
Positions = List (Str × Position)

-- An aggregate: `float("inf")`, or a ratio.
pub data Aggregate : Type 0 where
  infinite : Aggregate
  ratio : ℕ → ℕ → Aggregate

pub record CeilingCheckResult : Type 0 where
  pub would_breach : Bool
  pub current_aggregate : Aggregate
  pub projected_aggregate : Aggregate
  pub ceiling : Ratio

-- `max(0.0, float(x))`.
abbrev pub at_least_zero : ℤ → ℕ
at_least_zero = pos_part

-- The record of an admitted position.
abbrev pub position_of : ℤ → ℤ → Position
position_of size leverage = record {
  position_size_usd = at_least_zero size;
  leverage = at_least_zero leverage;
}

pub record_admit : Positions → Str → ℤ → ℤ → Positions
record_admit positions [] size leverage = positions
record_admit positions (c ∷ strategy_id) size leverage =
    insert Str-discrete (c ∷ strategy_id) (position_of size leverage) positions

pub record_exit : Positions → Str → Positions
record_exit positions strategy_id = erase Str-discrete strategy_id positions

-- `p.position_size_usd * p.leverage`, and the sum of it over the positions.
abbrev pub contribution : Position → ℕ
contribution p = p.position_size_usd * p.leverage

pub total : Positions → ℕ
total [] = 0
total ((id, p) ∷ positions) = contribution p + total positions

pub compute_aggregate : Positions → ℤ → Aggregate
compute_aggregate positions equity =
    if leb_ℤ equity (pos 0) then infinite else ratio (total positions) (pos_part equity)

-- `projected = current + new_contribution`, for a positive equity.
pub project : Aggregate → ℤ → Position → Aggregate
project infinite equity p = infinite
project (ratio n d) equity p =
    if leb_ℤ equity (pos 0) then infinite else ratio (n + contribution p) d

-- `projected > effective_ceiling`.
pub exceeds : Aggregate → Ratio → Bool
exceeds infinite c = true
exceeds (ratio n d) c = ltb (c.num * d) (n * c.den)

pub effective_ceiling : EnvFloat → Option Ratio → Ratio
unfolding ceiling_from_env
effective_ceiling env none = ceiling_from_env env
effective_ceiling env (some c) = c

pub would_breach_ceiling : Positions → EnvFloat → ℤ → ℤ → ℤ → Option Ratio → CeilingCheckResult
unfolding compute_aggregate project exceeds effective_ceiling
would_breach_ceiling positions env new_size new_leverage equity ceiling =
    let current = compute_aggregate positions equity in
    let projected = project current equity (position_of new_size new_leverage) in
    let limit = effective_ceiling env ceiling in
    record {
      would_breach = exceeds projected limit;
      current_aggregate = current;
      projected_aggregate = projected;
      ceiling = limit;
    }

pub tracked_strategy_count : Positions → ℕ
tracked_strategy_count positions = length positions
