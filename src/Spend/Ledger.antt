-- ===== src/Spend/Ledger.antt =====
-- The tracked cost against the calls that were recorded.
use petrosa_cio.Prelude.{
  ℕ, ◌+◌, Str, Str-discrete, ◌≡◌, refl, ap, ◌∙◌, if_pos, if_neg, if◌then◌else◌, ◌==◌, Bool-cases,
  inl, inr, List, [], ◌∷◌, arith,
}
use petrosa_cio.Prelude.Dict.{lookup, insert}
use petrosa_cio.Spend.{
  Rates, BucketAccumulator, PeriodSpend, Clock, label_of, tokens_to_usd, cost_usd, sum_cost,
  total_cost_usd, bucket_or_new, record_in, new_period, maybe_roll_period, record_call,
}

-- A call of the language model, at its time.
pub record Call : Type 0 where
  pub at : Clock
  pub prompt_id : Str
  pub input_tokens : ℕ
  pub output_tokens : ℕ

unfoldable pub run : PeriodSpend → List Call → PeriodSpend
run p [] = p
run p (c ∷ cs) = run (record_call p c.at c.prompt_id c.input_tokens c.output_tokens) cs

-- The cost of the calls since the day last changed, given that of the day so far.
unfoldable pub spent : Rates → ℕ → ℕ → List Call → ℕ
spent r day cost [] = cost
spent r day cost (c ∷ cs) =
    let added = tokens_to_usd r c.input_tokens c.output_tokens in
    spent r c.at.today (if c.at.today == day then cost + added else added) cs

sum-insert :
    (r : Rates) (label : Str) (x : BucketAccumulator) (added : ℕ)
    (m : List (Str × BucketAccumulator))
    → cost_usd r x ≡ cost_usd r (bucket_or_new (lookup Str-discrete label m)) + added
    → sum_cost r (insert Str-discrete label x m) ≡ sum_cost r m + added
unfolding sum_cost insert lookup
sum-insert r label x added [] h = omega (arith, h)
sum-insert r label x added ((j, b) ∷ m) h = elim (Str-discrete j label) [
  | yes same ↦
      let grown : cost_usd r x ≡ cost_usd r b + added =
        h
        ∙ ap (λ o. cost_usd r (bucket_or_new o) + added) (if_pos (Str-discrete j label) same _ _) in
      rw (if_pos (Str-discrete j label) same) (omega (arith, grown))
  | no other ↦
      let grown : cost_usd r x ≡ cost_usd r (bucket_or_new (lookup Str-discrete label m)) + added =
        h
        ∙ ap (λ o. cost_usd r (bucket_or_new o) + added)
            (if_neg (Str-discrete j label) other _ _) in
      rw (if_neg (Str-discrete j label) other) (omega (arith, sum-insert r label x added m grown))
]

total-record_in :
    (r : Rates) (p : PeriodSpend) (id : Str) (i o : ℕ)
    → total_cost_usd r (record_in p id i o) ≡ total_cost_usd r p + tokens_to_usd r i o
unfolding record_in
total-record_in r p id i o =
    sum-insert r (label_of id) _ (tokens_to_usd r i o) p.buckets (grind arith)

date-record_call :
    (p : PeriodSpend) (now : Clock) (id : Str) (i o : ℕ)
    → (record_call p now id i o).period_date ≡ now.today
unfolding record_call record_in maybe_roll_period
date-record_call p now id i o = ground arith

total-record_call :
    (r : Rates) (p : PeriodSpend) (now : Clock) (id : Str) (i o : ℕ)
    → total_cost_usd r (record_call p now id i o) ≡ (
        if now.today == p.period_date
        then total_cost_usd r p + tokens_to_usd r i o
        else tokens_to_usd r i o)
unfolding record_call maybe_roll_period sum_cost
total-record_call r p now id i o = elim (Bool-cases (now.today == p.period_date)) [
  | inl same ↦ rw same (total-record_in r p id i o)
  | inr new ↦ rw new (total-record_in r (new_period now) id i o ∙ omega arith)
]

-- After any sequence of calls, the tracked total is the cost of the calls since the day last
-- changed, to the unit, whatever prompts they were for; a new day forgets the days before.
pub total-run :
    (r : Rates) (p : PeriodSpend) (cs : List Call)
    → total_cost_usd r (run p cs) ≡ spent r p.period_date (total_cost_usd r p) cs
unfolding run spent
total-run r p [] = refl
total-run r p (c ∷ cs) =
    let next = record_call p c.at c.prompt_id c.input_tokens c.output_tokens in
    total-run r next cs
    ∙ ap (λ day. spent r day (total_cost_usd r next) cs)
        (date-record_call p c.at c.prompt_id c.input_tokens c.output_tokens)
    ∙ ap (λ cost. spent r c.at.today cost cs)
        (total-record_call r p c.at c.prompt_id c.input_tokens c.output_tokens)
