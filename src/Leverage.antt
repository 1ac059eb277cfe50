-- ===== src/Leverage.antt =====
-- The admission-time leverage arbiter (cio/core/leverage_arbiter.py). Leverages are integers; the
-- audit text is left out, and the branch label is a data type.
use petrosa_cio.Prelude.{ℕ, Bool, true, false, Option, none, some, if◌then◌else◌, ◌&&◌}
use petrosa_cio.Prelude.Int.{ℤ, pos, negsuc, ltb_ℤ, leb_ℤ, min_ℤ}
pub mod Bounds
mod Tests

-- The value of the environment variable, read by `os.getenv` and `int`.
pub data EnvInt : Type 0 where
  unset : EnvInt
  malformed : EnvInt
  value : ℤ → EnvInt

-- `DEFAULT_OPERATOR_MAX_LEVERAGE`.
abbrev pub default_operator_max_leverage : ℤ
default_operator_max_leverage = pos 10

-- `unset` is also the empty string.
pub operator_max_from_env : EnvInt → ℤ
operator_max_from_env EnvInt.unset = default_operator_max_leverage
operator_max_from_env EnvInt.malformed = default_operator_max_leverage
operator_max_from_env (EnvInt.value v) = if ltb_ℤ v (pos 1) then pos 1 else v

pub data Branch : Type 0 where
  accept override fallback : Branch

pub record LeverageDecision : Type 0 where
  pub decided_leverage : ℤ
  pub per_strategy_bound : ℤ
  pub branch : Branch

-- `operator_max if operator_max is not None else operator_max_from_env()`, never below 1.
pub effective_operator_max : EnvInt → Option ℤ → ℤ
unfolding operator_max_from_env
effective_operator_max env none =
    let m = operator_max_from_env env in if ltb_ℤ m (pos 1) then pos 1 else m
effective_operator_max env (some m) = if ltb_ℤ m (pos 1) then pos 1 else m

pub per_strategy_bound_of : ℤ → Option ℤ → ℤ
per_strategy_bound_of operator_max none = operator_max
per_strategy_bound_of operator_max (some envelope) =
    if leb_ℤ (pos 1) envelope then min_ℤ operator_max envelope else operator_max

-- The branches on the recommendation.
decide : Option ℤ → ℤ → LeverageDecision
decide none bound = record {
  decided_leverage = bound;
  per_strategy_bound = bound;
  branch = Branch.fallback;
}
decide (some recommended) bound =
    if ltb_ℤ recommended (pos 1)
    then record { decided_leverage = bound; per_strategy_bound = bound; branch = Branch.fallback }
    else if leb_ℤ recommended bound
    then record {
      decided_leverage = recommended;
      per_strategy_bound = bound;
      branch = Branch.accept;
    }
    else record { decided_leverage = bound; per_strategy_bound = bound; branch = Branch.override }

pub arbitrate_leverage : EnvInt → Option ℤ → Option ℤ → Option ℤ → LeverageDecision
unfolding decide effective_operator_max per_strategy_bound_of
arbitrate_leverage env recommended operator_max envelope =
    decide recommended (per_strategy_bound_of (effective_operator_max env operator_max) envelope)
