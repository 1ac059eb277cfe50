-- ===== src/Health/Judgement.antt =====
-- What a tick judges, in terms of what the window holds.
use petrosa_cio.Prelude.{
  ℕ, ◌+◌, ◌*◌, ◌≤◌, ◌<◌, ◌≡◌, ◌≢◌, ◌⊎◌, ◌↔◌, List, [], ◌∷◌, length, Result, ok, raise, arith,
}
use petrosa_cio.Evaluators.{Verdict, unhealthy, unknown}
use petrosa_cio.Portfolio.{Ratio}
use petrosa_cio.Health
use petrosa_cio.Health.{
  Config, HealthEvaluator, DecisionRecord, Reason, count, lacks_context, is_degraded, is_empty,
  is_old, is_silent, judge, verdict_if, prune, evaluate,
}

-- The first intent of the window is old enough.
abbrev OldestBefore : ℕ → ℕ → List ℕ → Type 0
OldestBefore min_age now [] = ⊥
OldestBefore min_age now (t ∷ ts) = t + min_age ≤ now

-- Intents flow and nothing comes out.
abbrev pub Silent : Config → ℕ → HealthEvaluator → Type 0
Silent c now h =
    (h.decisions ≡ [])
    × (h.signals ≡ [])
    × (c.min_intents_for_silence_check ≤ length h.intents)
    × OldestBefore c.silence_min_age now h.intents

-- `n` of `total` are more than the ratio.
abbrev Most : ℕ → ℕ → Ratio → Type 0
Most n total r = r.num * total < n * r.den

-- Too many of the decisions lack their reasoning, or are of the degraded kind.
abbrev pub Dominated : Config → List DecisionRecord → Type 0
Dominated c ds =
    (ds ≢ [])
    × (Most (count lacks_context ds) (length ds) c.missing_context_threshold
        ⊎ Most (count is_degraded ds) (length ds) c.degraded_threshold)

-- The result is one verdict, and it is the right one for the window.
abbrev pub Judged : Config → ℕ → HealthEvaluator → Result Health.Error (Verdict × Reason) → Type 0
Judged c now h (raise e) = ⊥
Judged c now h (ok (v, reason)) =
    ((v ≡ unhealthy) ↔ (Silent c now h ⊎ Dominated c h.decisions))
    × ((v ≡ unknown) ↔ ((h.decisions ≡ []) × (¬ Silent c now h)))

verdict_if-Judged :
    (c : Config) (now : ℕ) (h : HealthEvaluator)
    → 1 ≤ c.min_intents_for_silence_check
    → Judged c now h (verdict_if c h (is_silent c h now))
unfolding is_silent judge is_old is_empty
verdict_if-Judged c now h few = go h.decisions h.signals h.intents
  where
    go :
        (ds : List DecisionRecord) (ss is : List ℕ)
        → let k = record h { decisions = ds; signals = ss; intents = is } in
          Judged c now k (verdict_if c k (is_silent c k now))
    go [] [] [] = ground arith
    go [] [] (t ∷ ts) = ground arith
    go [] (s ∷ ss) is = ground arith
    go (d ∷ ds) ss is = ground arith

-- For every configuration that asks for at least one intent, a tick's evaluation gives a verdict on
-- what pruning leaves: `unhealthy` exactly if intents flow with neither a signal nor a decision
-- (enough of them, and the first old enough), or if the decisions that lack their reasoning, or the
-- degraded ones, exceed their threshold; `unknown` exactly if there is no decision and no silence.
pub evaluate-Judged :
    (c : Config) (h : HealthEvaluator) (now : ℕ)
    → 1 ≤ c.min_intents_for_silence_check
    → Judged c now (prune c h now) (evaluate c h now).1
unfolding evaluate
evaluate-Judged c h now few = verdict_if-Judged c now (prune c h now) few
