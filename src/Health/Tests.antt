-- ===== src/Health/Tests.antt =====
-- A window of ten units, in which one decision in two lacks its reasoning.
use petrosa_cio.Prelude.{ℕ, str, Str-discrete, ◌≡◌, refl, List, [], ◌∷◌, ok, arith}
use petrosa_cio.Portfolio.{Ratio}
use petrosa_cio.Evaluators.{healthy, unhealthy, unknown}
use petrosa_cio.Health.{
  Config, HealthEvaluator, DecisionRecord, normal, prune, prune_queue, evaluate, is_silent, judge,
  count, lacks_context, is_degraded, is_empty, is_in, is_old, fallback_trace_markers,
  degraded_actions,
}
use petrosa_cio.Health.Window.{in_window, prune_queue_lem}
use petrosa_cio.Health.Judgement.{Judged, evaluate-Judged}
use petrosa_cio.Health.Hysteresis.{emission_after, settled, emitted-settled}

program : Unit {0}
unfolding evaluate prune prune_queue is_silent judge count lacks_context is_degraded is_empty is_in
    is_old fallback_trace_markers degraded_actions Str-discrete
program = tt

abbrev half : Ratio
half = record { num = 1; den = 2 }

abbrev config : Config
config = record {
  window = 10;
  stable_ticks_required = 2;
  missing_context_threshold = half;
  degraded_threshold = half;
  min_intents_for_silence_check = 3;
  silence_min_age = 5;
}

abbrev decision : ℕ → List ℕ → DecisionRecord
decision t trace = record {
  observed_at = t;
  action = str "x";
  thought_trace = trace;
  decision_id = str "d";
  strategy_id = str "s";
  correlation_id = str "c";
}

abbrev busy : HealthEvaluator
busy = record {
  decisions = decision 1 (str "old") ∷ decision 12 [] ∷ decision 15 (str "y") ∷ [];
  intents = 3 ∷ 10 ∷ [];
  signals = [];
  emission = record {
    emitted_verdict = unknown;
    candidate_verdict = unknown;
    candidate_streak = 0;
  };
}

judged : (evaluate config busy 20).1 ≡ ok (healthy, normal 2 1 0)
unfolding program
judged = refl

pruned_window :
    prune_queue (λ t. t) 10 20 (3 ∷ 10 ∷ 12 ∷ []) ≡ in_window (λ t. t) 10 20 (3 ∷ 10 ∷ 12 ∷ [])
pruned_window =
    prune_queue_lem (λ t. t) 10 20 (3 ∷ 10 ∷ 12 ∷ [])
      ((omega arith, (omega arith, tt)), ((omega arith, tt), (tt, tt)))

evaluate-Judged_example : Judged config 20 (prune config busy 20) (evaluate config busy 20).1
evaluate-Judged_example = evaluate-Judged config busy 20 (omega arith)

emitted-settled_example :
    (emission_after 2 (healthy ∷ unhealthy ∷ unhealthy ∷ [])).emitted_verdict
    ≡ settled 2 (healthy ∷ unhealthy ∷ unhealthy ∷ [])
emitted-settled_example = emitted-settled 1 (healthy ∷ unhealthy ∷ unhealthy ∷ [])
