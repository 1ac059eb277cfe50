-- ===== src/Orchestrator/Tests.antt =====
-- A call that is admitted, and calls that find the personas off, on the next day too.
use petrosa_cio.Prelude.{
  ℕ, Str, str, ◌≡◌, refl, Bool, true, false, not, ◌&&◌, ◌||◌, none, some, [], ◌∷◌, ok,
}
use petrosa_cio.Prelude.Int.{pos}
use petrosa_cio.Leverage.{EnvInt}
use petrosa_cio.Portfolio.{EnvFloat}
use petrosa_cio.Spend.{Clock, new_period}
use petrosa_cio.Orchestrator
use petrosa_cio.Orchestrator.{Environment, Context, Answers, is_stale, transition}
use petrosa_cio.Orchestrator.Run.{run_all}
use petrosa_cio.Orchestrator.Bypass.{Idle, Exclusive, run_all-Idle, transition_lem}
use petrosa_cio.Orchestrator.Admission.{Admits, run-Admits}

abbrev env : Environment
env = record {
  operator_max = EnvInt.unset;
  portfolio_ceiling = EnvFloat.unset;
  rates = record { input = 1; output = 5 };
}

abbrev on_day : ℕ → Clock
on_day d = record { today = d; elapsed_seconds = 3600; ceiling = 1000 }

-- The personas on, or off after a breach.
abbrev state : Bool → Orchestrator.Orchestrator
state on = record {
  use_llm_reasoning = on;
  ceiling_triggered_bypass = not on;
  positions = [];
  spend = new_period (on_day 1);
}

abbrev context : Context
context = record {
  strategy_id = str "s";
  is_trade_intent = true;
  strategy_revision_id = none;
  available_capital_usd = pos 1000;
  recommended_leverage = none;
  strategy_leverage_envelope = some (pos 3);
}

abbrev answers : ℕ → Answers Str Str
answers d = record {
  stale = ok false;
  engine = λ bypass. ok (record { hard_blocked = false; kelly_position_usd = some (pos 100) });
  classify_bypassed = ok (str "execute");
  classify = λ spend. (spend, ok (str "execute"));
  personas = λ spend. (spend, ok (str "execute"));
  clock = on_day d;
}

run-Admits_example :
    let (after, d) = Orchestrator.run env (state true) context (answers 1) in
    Admits env context []
      (is_stale context (answers 1).stale)
      ((answers 1).engine false)
      after.positions
      d
run-Admits_example = run-Admits env (state true) context (answers 1)

run_all-Idle_example :
    Idle
      (state false)
      (run_all env (state false) ((context, answers 1) ∷ (context, answers 2) ∷ []))
run_all-Idle_example =
    run_all-Idle env (state false) ((context, answers 1) ∷ (context, answers 2) ∷ []) refl

bypass_kept :
    let o' = transition (state false) false in
    Exclusive o'
    × (o'.use_llm_reasoning ≡ (not false && (false || true)))
    × ((false ≡ false) → (true ≡ false) → (o'.ceiling_triggered_bypass ≡ false))
bypass_kept = transition_lem (state false) false (λ h. refl)
