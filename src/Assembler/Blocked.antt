-- ===== src/Assembler/Blocked.antt =====
-- The reasoning loop with the code engine, the action classifier and its client of the language
-- models in it (cio/core/orchestrator.py, cio/core/engine.py, cio/personas/action_classifier.py,
-- cio/clients/llm_client.py).
use petrosa_cio.Prelude.{
  ℕ, Str, ◌≡◌, refl, inl, inr, Bool, true, false, not, Option, none, some, Result, ok, raise,
  if◌then◌else◌, arith,
}
use petrosa_cio.Prelude.Int.{ℤ}
use petrosa_cio.Prelude.Floats.{Floats, IsOrdered, zero_F}
use petrosa_cio.Models.{ActionType, ConfidenceLevel}
use petrosa_cio.Engine
use petrosa_cio.Engine.{TriggerContext, CodeEngineResult, BlockReason}
use petrosa_cio.Engine.Gates.{Trips, run-Gated}
use petrosa_cio.Orchestrator
use petrosa_cio.Orchestrator.{
  Environment, Context, Answers, CodeResult, Decision, rejected_stale, rejected_ceiling, decided,
  safe, or_safe, is_stale, classify_blocked,
}
use petrosa_cio.Orchestrator.Hard.{
  run-hard_blocked, classify_blocked-on, classify_blocked-off, or_safe-ok, or_safe-raise,
}
use petrosa_cio.Spend.{PeriodSpend}
use petrosa_cio.Llm.{Breaker, Calls}
use petrosa_cio.Llm.Schema.{Json, Validate, complete_with_schema}
use petrosa_cio.Llm.Schema.Skip.{prompt_id, action_of}
use petrosa_cio.Assembler.{
  StrategyResult, DecisionResult, Failure, client, conservative, engine_context, bypass_strategy,
  blocked_decision, assemble, classify,
}

-- The engine's result as the loop reads it.
pub read : {F : Type 0} → (F → ℤ) → CodeEngineResult F → CodeResult
read units r = record {
  hard_blocked = r.hard_blocked;
  kelly_position_usd = elim r.kelly_position_usd [ none ↦ none | some x ↦ some (units x) ];
}

-- BLOCK with a position of 0, or the safe default.
abbrev pub IsHarmless : {F : Type 0} → Floats F → Decision (DecisionResult F) → Type 0
IsHarmless O rejected_stale = ⊥
IsHarmless O (rejected_ceiling check) = ⊥
IsHarmless O (decided d) =
    (d.action ≡ some ActionType.block) × (d.computed_position_size_usd ≡ some (zero_F O))
IsHarmless O safe = Unit

-- A stale intent is rejected and nothing changes; another changes only the spend, and its decision
-- is harmless.
abbrev pub IsCharged :
    {F : Type 0}
    → Floats F
    → Bool
    → Orchestrator.Orchestrator
    → PeriodSpend
    → Orchestrator.Orchestrator
    → Decision (DecisionResult F)
    → Type 0
IsCharged O true before spent after d = (after ≡ before) × (d ≡ rejected_stale)
IsCharged O false before spent after d = (after ≡ record before { spend = spent }) × IsHarmless O d

module _ {F : Type 0} (O : Floats F) where
  hard_blocked-Trips :
      (c : TriggerContext F) (g : BlockReason) → Trips O c g → (Engine.run O c).hard_blocked ≡ true
  hard_blocked-Trips c g t = elim (run-Gated O c) [
    | inl blocked ↦ blocked.0
    | inr free ↦ absurd (free.2 g t)
  ]

  -- If the portfolio cannot be fetched, the context trips the gate on the drawdown, in both modes.
  pub conservative-Trips :
      IsOrdered O
      → (mode : Bool) (c : TriggerContext F)
      → Trips O (engine_context mode (conservative O c)) BlockReason.global_drawdown
  unfolding conservative engine_context
  conservative-Trips laws true c = laws.lit_le 0 1 1 1 (omega arith) (omega arith) (omega arith)
  conservative-Trips laws false c = laws.lit_le 0 1 1 1 (omega arith) (omega arith) (omega arith)

-- The classifier's call of the client, whose spend is that of the loop.
pub ask_model :
    {J Y : Type 0}
    → Json J
    → Bool
    → Validate
    → Breaker
    → Calls Y
    → PeriodSpend
    → PeriodSpend × Result Str ActionType
ask_model json is_minimal validate breaker calls spend =
    let (left, answer) =
      complete_with_schema json is_minimal validate (record { breaker = breaker; spend = spend })
        prompt_id calls in
    (left.spend, action_of answer)

module _ {F : Type 0} (O : Floats F) {X : Type 0} (units : F → ℤ) where
  -- A call whose engine is `CodeEngine.run` and whose last classifier is `classify`, which in the
  -- bypass mode does not read an answer of the model.
  pub answers :
      ℕ
      → TriggerContext F
      → (PeriodSpend → PeriodSpend × Result X ActionType)
      → Answers (Failure X) (DecisionResult F)
      → Answers (Failure X) (DecisionResult F)
  unfolding read
  answers now c model a = record a {
    engine = λ bypass. ok (read units (Engine.run O (engine_context bypass c)));
    classify_bypassed =
        classify O now c (Engine.run O (engine_context true c)) ConfidenceLevel.high bypass_strategy
          true (ok ActionType.skip);
    classify = λ spend. (
      (model spend).0,
      classify O now c (Engine.run O (engine_context false c)) ConfidenceLevel.high bypass_strategy
          false (model spend).1,
    );
  }

  assemble-blocked :
      (now : ℕ) (c : TriggerContext F) (r : CodeEngineResult F) (k : ConfidenceLevel)
      (s : StrategyResult) (action : Option ActionType)
      → r.hard_blocked ≡ true
      → assemble O {X = X} now c r k s action ≡ ok (blocked_decision O r k s)
  unfolding assemble
  assemble-blocked now c r k s action h = rw (assemble, h) refl

  classify-IsHarmless :
      (now : ℕ) (c : TriggerContext F) (r : CodeEngineResult F) (k : ConfidenceLevel)
      (s : StrategyResult) (bypass : Bool) (model : Result X ActionType)
      → r.hard_blocked ≡ true
      → IsHarmless O (or_safe (classify O now c r k s bypass model))
  unfolding classify blocked_decision
  classify-IsHarmless now c r k s true model h =
      rw
        (
          assemble-blocked now c r k s
              (some (if r.hard_blocked then ActionType.block else ActionType.execute)) h,
          or_safe-ok (Failure X) (blocked_decision O r k s),
        )
        (refl, refl)
  classify-IsHarmless now c r k s false (raise e) h =
      rw (or_safe-raise (DecisionResult F) (client e)) tt
  classify-IsHarmless now c r k s false (ok action) h =
      rw
        (
          assemble-blocked now c r k s (some action) h,
          or_safe-ok (Failure X) (blocked_decision O r k s),
        )
        (refl, refl)

  classify_blocked-IsHarmless :
      (now : ℕ) (c : TriggerContext F) (model : PeriodSpend → PeriodSpend × Result X ActionType)
      (a : Answers (Failure X) (DecisionResult F)) (o : Orchestrator.Orchestrator) (mode : Bool)
      → o.use_llm_reasoning ≡ mode
      → (Engine.run O (engine_context (not mode) c)).hard_blocked ≡ true
      → let (after, decision) = classify_blocked o (answers now c model a) in
        (after ≡ record o { spend = if mode then (model o.spend).0 else o.spend })
        × IsHarmless O decision
  unfolding answers
  classify_blocked-IsHarmless now c model a o true on blocked =
      rw (classify_blocked-on o (answers now c model a) on) (
        refl,
        classify-IsHarmless now c (Engine.run O (engine_context false c)) ConfidenceLevel.high
            bypass_strategy false (model o.spend).1 blocked,
      )
  classify_blocked-IsHarmless now c model a o false off blocked =
      rw (classify_blocked-off o (answers now c model a) off) (
        refl,
        classify-IsHarmless now c (Engine.run O (engine_context true c)) ConfidenceLevel.high
            bypass_strategy true (ok ActionType.skip) blocked,
      )

  -- The loop with a classifier that asks any client.
  answered-IsHarmless :
      (now : ℕ) (c : TriggerContext F) (model : PeriodSpend → PeriodSpend × Result X ActionType)
      (a : Answers (Failure X) (DecisionResult F)) (env : Environment)
      (o : Orchestrator.Orchestrator) (context : Context) (g : BlockReason)
      → Trips O (engine_context (not o.use_llm_reasoning) c) g
      → let (after, decision) = Orchestrator.run env o context (answers now c model a) in
        IsCharged O
          (is_stale context a.stale)
          o
          (if o.use_llm_reasoning then (model o.spend).0 else o.spend)
          after
          decision
  unfolding answers read
  answered-IsHarmless now c model a env o context g t =
      let a' = answers now c model a in
      let r = Engine.run O (engine_context (not o.use_llm_reasoning) c) in
      let blocked = hard_blocked-Trips O (engine_context (not o.use_llm_reasoning) c) g t in
      elim (run-hard_blocked env o context a' (read units r) refl blocked) [
        | inl (stale, rejects) ↦ simp (stale, rejects) (refl, refl)
        | inr (fresh, decides) ↦
            simp (fresh, decides)
              (classify_blocked-IsHarmless now c model a o o.use_llm_reasoning refl blocked)
      ]

module _ {F : Type 0} (O : Floats F) {J Y : Type 0} (units : F → ℤ) (json : Json J)
    (is_minimal : Bool) (validate : Validate) where
  -- Whatever the personas, the stale gate and the language models answer, and whether they fail:
  -- while a condition of the engine holds, of the context that it is given in the present mode, a
  -- call of the loop rejects a stale intent and changes nothing of the flags, the ledger and the
  -- spend; on any other intent its decision is BLOCK with a position of 0 or the safe default, and
  -- it changes nothing of them but the spend: with the personas on that is what the classifier's
  -- call of the client leaves, and with the personas off it is as it was.
  pub run-IsHarmless :
      (breaker : Breaker) (calls : Calls Y) (now : ℕ) (c : TriggerContext F)
      (a : Answers (Failure Str) (DecisionResult F)) (env : Environment)
      (o : Orchestrator.Orchestrator) (context : Context) (g : BlockReason)
      → Trips O (engine_context (not o.use_llm_reasoning) c) g
      → let model = ask_model json is_minimal validate breaker calls in
        let (after, decision) = Orchestrator.run env o context (answers O units now c model a) in
        IsCharged O
          (is_stale context a.stale)
          o
          (if o.use_llm_reasoning then (model o.spend).0 else o.spend)
          after
          decision
  run-IsHarmless breaker calls now c a env o context g t =
      answered-IsHarmless O units now c (ask_model json is_minimal validate breaker calls) a env o
        context g t
