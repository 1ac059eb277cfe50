-- ===== src/Health.antt =====
-- The health evaluator of the process itself (cio/core/health_evaluator.py): `CIOHealthEvaluator`,
-- which keeps the recent decisions, intents and signals, judges them at every tick, and publishes
-- a verdict with hysteresis. Times are whole units of a clock, and fractions are compared as ratios
-- of whole numbers; the wording of the reasons is left out. `lower` and `strip` are Python's.
use petrosa_cio.Prelude.{
  ℕ, suc, ◌+◌, ◌*◌, Str, str, Str-discrete, ite, Bool, true, false, ltb, leb, ◌&&◌, ◌||◌,
  if◌then◌else◌, or_else, Option, none, some, List, [], ◌∷◌, ◌++◌, length, Result, ok, raise,
}
use petrosa_cio.Portfolio.{Ratio}
use petrosa_cio.Evaluators.{Verdict, healthy, unhealthy, unknown, same_verdict}
pub mod Window
pub mod Judgement
pub mod Hysteresis
mod Tests

pub record DecisionRecord : Type 0 where
  pub observed_at : ℕ
  pub action : Str
  pub thought_trace : Str
  pub decision_id : Str
  pub strategy_id : Str
  pub correlation_id : Str

-- The constructor's arguments.
pub record Config : Type 0 where
  pub window : ℕ
  pub stable_ticks_required : ℕ
  pub missing_context_threshold : Ratio
  pub degraded_threshold : Ratio
  pub min_intents_for_silence_check : ℕ
  pub silence_min_age : ℕ

-- The state of the hysteresis.
pub record Emission : Type 0 where
  pub emitted_verdict : Verdict
  pub candidate_verdict : Verdict
  pub candidate_streak : ℕ

-- An `_EventTick` is its time.
pub record HealthEvaluator : Type 0 where
  pub decisions : List DecisionRecord
  pub intents : List ℕ
  pub signals : List ℕ
  pub emission : Emission

-- Why a verdict was given, with the numbers that the text shows.
pub data Reason : Type 0 where
  silence : ℕ → Reason
  no_decisions : Reason
  missing_context degraded_mode : ℕ → ℕ → Reason
  normal : ℕ → ℕ → ℕ → Reason

-- `intents[0]` of an empty list.
pub data Error : Type 0 where
  index_error : Error

-- The entries of an audit message's payload, as `str` shows them.
pub record Payload : Type 0 where
  pub action : Option Str
  pub thought_trace : Option Str
  pub decision_id : Option Str
  pub strategy_id : Option Str
  pub correlation_id : Option Str

unfoldable pub init_emission : Emission
init_emission = record {
  emitted_verdict = unknown;
  candidate_verdict = unknown;
  candidate_streak = 0;
}

pub init : HealthEvaluator
unfolding init_emission
init = record { decisions = []; intents = []; signals = []; emission = init_emission }

-- `max(1, stable_ticks_required)`.
pub ticks_required : Config → ℕ
ticks_required c = if ltb 1 c.stable_ticks_required then c.stable_ticks_required else 1

-- `_on_decision`; `none` is a message that does not parse, or is no object, for which it raises
-- before it changes anything.
pub on_decision : (lower strip : Str → Str) → HealthEvaluator → ℕ → Option Payload → HealthEvaluator
on_decision lower strip h now none = h
on_decision lower strip h now (some p) = record h {
  decisions =
      h.decisions
      ++ record {
        observed_at = now;
        action = lower (or_else p.action []);
        thought_trace = strip (or_else p.thought_trace []);
        decision_id = or_else p.decision_id [];
        strategy_id = or_else p.strategy_id [];
        correlation_id = or_else p.correlation_id [];
      }
        ∷ [];
}

pub on_intent : HealthEvaluator → ℕ → HealthEvaluator
on_intent h now = record h { intents = h.intents ++ now ∷ [] }

pub on_signal : HealthEvaluator → ℕ → HealthEvaluator
on_signal h now = record h { signals = h.signals ++ now ∷ [] }

-- `while q and q[0].observed_at < cutoff: q.popleft()`, where the cutoff is `now - window`.
pub prune_queue {ℓ} : {A : Type ℓ} → (A → ℕ) → ℕ → ℕ → List A → List A
prune_queue at window now [] = []
prune_queue at window now (x ∷ q) =
    let rest = prune_queue at window now q in if ltb (at x + window) now then rest else x ∷ q

pub prune : Config → HealthEvaluator → ℕ → HealthEvaluator
unfolding prune_queue
prune c h now = record h {
  decisions = prune_queue DecisionRecord.observed_at c.window now h.decisions;
  intents = prune_queue (λ t. t) c.window now h.intents;
  signals = prune_queue (λ t. t) c.window now h.signals;
}

-- `FALLBACK_TRACE_MARKERS` and `DEGRADED_ACTIONS`.
pub fallback_trace_markers : List Str
fallback_trace_markers =
    str "PARSE_FAILURE"
    ∷ str "SYSTEM_ERROR"
    ∷ str "CRITICAL_FAILURE_ENFORCEMENT"
    ∷ str "TIMEOUT_ENFORCEMENT"
    ∷ str "DETERMINISTIC_BYPASS"
    ∷ []

pub degraded_actions : List Str
degraded_actions = str "fail_safe" ∷ str "skip" ∷ []

-- `s in texts`.
pub is_in : Str → List Str → Bool
is_in s [] = false
is_in s (t ∷ texts) = let rest = is_in s texts in ite (Str-discrete t s) true rest

pub is_empty {ℓ} : {A : Type ℓ} → List A → Bool
is_empty [] = true
is_empty (x ∷ xs) = false

pub lacks_context : DecisionRecord → Bool
unfolding is_empty is_in fallback_trace_markers
lacks_context d = is_empty d.thought_trace || is_in d.thought_trace fallback_trace_markers

pub is_degraded : DecisionRecord → Bool
unfolding is_in degraded_actions
is_degraded d = is_in d.action degraded_actions

-- `sum(1 for d in decisions if …)`.
pub count {ℓ} : {A : Type ℓ} → (A → Bool) → List A → ℕ
count p [] = 0
count p (x ∷ xs) = let rest = count p xs in if p x then suc rest else rest

-- `n / total > threshold`.
abbrev pub exceeds : ℕ → ℕ → Ratio → Bool
exceeds n total r = ltb (r.num * total) (n * r.den)

-- `(now - oldest) >= self._silence_min_age`, of the first intent.
pub is_old : ℕ → ℕ → List ℕ → Result Error Bool
is_old min_age now [] = raise index_error
is_old min_age now (oldest ∷ intents) = ok (leb (oldest + min_age) now)

-- The first condition of `evaluate`, on the pruned queues.
pub is_silent : Config → HealthEvaluator → ℕ → Result Error Bool
unfolding is_empty is_old
is_silent c h now =
    if leb c.min_intents_for_silence_check (length h.intents)
      && (is_empty h.signals && is_empty h.decisions)
    then is_old c.silence_min_age now h.intents
    else ok false

-- The rest of `evaluate`: the decisions by themselves.
pub judge : Config → List DecisionRecord → Verdict × Reason
unfolding count lacks_context is_degraded
judge c [] = (unknown, no_decisions)
judge c (d ∷ ds) =
    let total = length (d ∷ ds) in
    let missing = count lacks_context (d ∷ ds) in
    let degraded = count is_degraded (d ∷ ds) in
    if exceeds missing total c.missing_context_threshold
    then (unhealthy, missing_context missing total)
    else if exceeds degraded total c.degraded_threshold
    then (unhealthy, degraded_mode degraded total)
    else (healthy, normal total missing degraded)

abbrev pub verdict_if :
    Config → HealthEvaluator → Result Error Bool → Result Error (Verdict × Reason)
verdict_if c h (raise e) = raise e
verdict_if c h (ok true) = ok (unhealthy, silence (length h.intents))
verdict_if c h (ok false) = ok (judge c h.decisions)

pub evaluate : Config → HealthEvaluator → ℕ → HealthEvaluator × Result Error (Verdict × Reason)
unfolding prune is_silent judge
evaluate c h now =
    let pruned = prune c h now in (pruned, verdict_if c pruned (is_silent c pruned now))

-- `if self._candidate_streak >= self._stable_ticks_required: …`.
unfoldable pub settle : ℕ → Verdict → Emission → Emission
settle required raw_verdict e =
    if leb required e.candidate_streak
    then record e { emitted_verdict = raw_verdict; candidate_streak = 0 }
    else e

-- `_apply_hysteresis`: the verdict to publish is the new `emitted_verdict`.
unfoldable pub apply_hysteresis : ℕ → Emission → Verdict → Emission
unfolding settle
apply_hysteresis required e raw_verdict =
    if same_verdict raw_verdict e.emitted_verdict
    then record e { candidate_verdict = raw_verdict; candidate_streak = 0 }
    else if same_verdict raw_verdict e.candidate_verdict
    then settle required raw_verdict (record e { candidate_streak = suc e.candidate_streak })
    else settle required raw_verdict
        (record e { candidate_verdict = raw_verdict; candidate_streak = 1 })

-- `tick`: the state it leaves, and what it publishes; an exception of `evaluate` ends it.
pub tick : Config → HealthEvaluator → ℕ → HealthEvaluator × Result Error (Verdict × Reason)
unfolding evaluate apply_hysteresis ticks_required
tick c h now =
    let (pruned, judged) = evaluate c h now in
    elim judged [
      | raise e ↦ (pruned, raise e)
      | ok (raw_verdict, reason) ↦
          let emission = apply_hysteresis (ticks_required c) pruned.emission raw_verdict in
          (record pruned { emission = emission }, ok (emission.emitted_verdict, reason))
    ]
