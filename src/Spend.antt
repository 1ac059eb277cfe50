-- ===== src/Spend.antt =====
-- The spend tracker of the language model (cio/core/spend_tracker.py). Costs are exact whole
-- multiples of a unit in which both token rates are whole; the ceiling counts the same units.
use petrosa_cio.Prelude.{
  ℕ, suc, ◌+◌, ◌*◌, Str, str, Str-discrete, Bool, true, false, leb, ltb, ◌==◌, if◌then◌else◌,
  Option, none, some, List, [], ◌∷◌,
}
use petrosa_cio.Prelude.Dict.{lookup, insert}
pub mod Ledger
mod Tests

-- `_INPUT_COST_PER_MILLION` and `_OUTPUT_COST_PER_MILLION`, for one token.
pub record Rates : Type 0 where
  pub input : ℕ
  pub output : ℕ

pub record BucketAccumulator : Type 0 where
  pub input_tokens : ℕ
  pub output_tokens : ℕ
  pub call_count : ℕ

-- `PeriodSpend`; a bucket's `decision_type` is its key. Dates are counted in days.
pub record PeriodSpend : Type 0 where
  pub period_date : ℕ
  pub buckets : List (Str × BucketAccumulator)
  pub ceiling_usd_per_day : ℕ

-- The UTC clock: the day, the whole seconds of it that have passed, and the ceiling that
-- `LLM_SPEND_CEILING_USD_PER_DAY` gives then.
pub record Clock : Type 0 where
  pub today : ℕ
  pub elapsed_seconds : ℕ
  pub ceiling : ℕ

-- `DECISION_TYPE_LABELS`.
pub decision_type_labels : List (Str × Str)
decision_type_labels =
    (str "PETROSA_PROMPT_REGIME_CLASSIFIER", str "regime_classification")
    ∷ (str "PETROSA_PROMPT_STRATEGY_ASSESSOR", str "strategy_assessment")
    ∷ (str "PETROSA_PROMPT_ACTION_CLASSIFIER", str "action_classification")
    ∷ []

-- `DECISION_TYPE_LABELS.get(prompt_id, prompt_id)`.
pub label_of : Str → Str
unfolding decision_type_labels
label_of prompt_id = elim (lookup Str-discrete prompt_id decision_type_labels) [
  | none ↦ prompt_id
  | some label ↦ label
]

abbrev pub tokens_to_usd : Rates → ℕ → ℕ → ℕ
tokens_to_usd r input_tokens output_tokens = input_tokens * r.input + output_tokens * r.output

abbrev pub cost_usd : Rates → BucketAccumulator → ℕ
cost_usd r b = tokens_to_usd r b.input_tokens b.output_tokens

pub sum_cost : Rates → List (Str × BucketAccumulator) → ℕ
sum_cost r [] = 0
sum_cost r ((label, b) ∷ buckets) = cost_usd r b + sum_cost r buckets

abbrev pub total_cost_usd : Rates → PeriodSpend → ℕ
total_cost_usd r p = sum_cost r p.buckets

-- The bucket of a label, or a new one.
abbrev pub bucket_or_new : Option BucketAccumulator → BucketAccumulator
bucket_or_new none = record { input_tokens = 0; output_tokens = 0; call_count = 0 }
bucket_or_new (some b) = b

-- `PeriodSpend.record`.
pub record_in : PeriodSpend → Str → ℕ → ℕ → PeriodSpend
unfolding label_of
record_in p prompt_id input_tokens output_tokens =
    let label = label_of prompt_id in
    let b = bucket_or_new (lookup Str-discrete label p.buckets) in
    record p {
      buckets =
          insert Str-discrete label
            (record {
              input_tokens = b.input_tokens + input_tokens;
              output_tokens = b.output_tokens + output_tokens;
              call_count = suc b.call_count;
            })
            p.buckets;
    }

abbrev pub daily_seconds : ℕ
daily_seconds = 86400

-- `self.projected_daily_usd() >= self.ceiling_usd_per_day`, where the projection is the total cost,
-- times a day over the elapsed time from the first minute on.
pub ceiling_breached : Rates → PeriodSpend → Clock → Bool
ceiling_breached r p now =
    if ltb now.elapsed_seconds 60
    then leb p.ceiling_usd_per_day (total_cost_usd r p)
    else leb (p.ceiling_usd_per_day * now.elapsed_seconds) (total_cost_usd r p * daily_seconds)

abbrev pub new_period : Clock → PeriodSpend
new_period now = record { period_date = now.today; buckets = []; ceiling_usd_per_day = now.ceiling }

-- `_maybe_roll_period`, which also tells whether it did.
pub maybe_roll_period : PeriodSpend → Clock → PeriodSpend × Bool
maybe_roll_period p now = if now.today == p.period_date then (p, false) else (new_period now, true)

-- `LlmSpendTracker.record`.
pub record_call : PeriodSpend → Clock → Str → ℕ → ℕ → PeriodSpend
unfolding maybe_roll_period record_in
record_call p now prompt_id input_tokens output_tokens =
    record_in (maybe_roll_period p now).0 prompt_id input_tokens output_tokens

-- `check_ceiling`: the tracker it leaves, and `ceiling_breached`.
pub check_ceiling : Rates → PeriodSpend → Clock → PeriodSpend × Bool
unfolding maybe_roll_period ceiling_breached
check_ceiling r p now =
    let (current, rolled) = maybe_roll_period p now in
    (current, if rolled then false else ceiling_breached r current now)
