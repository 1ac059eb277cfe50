-- ===== src/Assembler/Decision.antt =====
-- What the classifier decides on the engine's results (cio/core/assembler.py and
-- cio/personas/action_classifier.py).
use petrosa_cio.Prelude.{
  ℕ, Str, ◌≡◌, refl, ap, inl, inr, Bool, true, false, Bool-cases, Option, none, some, Option-cases,
  some-ne-none, sym, ◌∙◌, false_ne_true, Result, ok, raise, Holds, if◌then◌else◌, arith,
}
use petrosa_cio.Prelude.Floats.{Floats, IsOrdered, zero_F, min-le_right, le-min}
use petrosa_cio.Models.{ActionType, ConfidenceLevel}
use petrosa_cio.Engine.{TriggerContext, CodeEngineResult, run}
use petrosa_cio.Engine.Sizing.{IsWithin, IsComplete, run-IsSized, run-IsComplete}
use petrosa_cio.Assembler.{
  ParamChangeSignal, StrategyResult, DecisionResult, Failure, type_error, client, blocked_decision,
  change_sl, change_tp, synthesize, final_size, action_or_skip, engine_context, final_decision,
  assemble, classify,
}

-- The action that the classifier is to take: without the personas, EXECUTE.
abbrev pub wanted : {X : Type 0} → Bool → Result X ActionType → Result X ActionType
wanted true answer = ok ActionType.execute
wanted false answer = answer

module _ {F : Type 0} (O : Floats F) where
  -- What a decision has to be, for the engine's result and the action wanted.
  abbrev pub Follows :
      {X : Type 0}
      → TriggerContext F
      → CodeEngineResult F
      → Result X ActionType
      → Result (Failure X) (DecisionResult F)
      → Type 0
  Follows c r wanted (raise type_error) = ⊥
  Follows c r wanted (raise (client e)) = wanted ≡ raise e
  Follows c r wanted (ok d) =
      (d.hard_blocked ≡ r.hard_blocked)
      × (r.hard_blocked ≡ true
          → (d.action ≡ some ActionType.block) × (d.computed_position_size_usd ≡ some (zero_F O)))
      × (r.hard_blocked ≡ false
          → ((a : ActionType) × (wanted ≡ ok a) × (d.action ≡ some a))
            × Holds (IsWithin O c.risk_limits.max_position_size_usd) d.computed_position_size_usd
            × (d.leverage ≡ r.leverage))

  synthesize-some :
      (now : ℕ) (id : Str) (g : Option ParamChangeSignal) (sl tp : F)
      → ¬ (synthesize O now id g (some sl) (some tp) ≡ none)
  unfolding synthesize change_sl change_tp
  synthesize-some now id none sl tp = some-ne-none _
  synthesize-some now id (some g) sl tp = ground arith

  module _ (laws : IsOrdered O) where
    final_size-IsWithin :
        (c : TriggerContext F) (kelly : Option F)
        → O.leb (zero_F O) c.risk_limits.max_position_size_usd ≡ true
        → Holds (IsWithin O c.risk_limits.max_position_size_usd) kelly
        → IsWithin O c.risk_limits.max_position_size_usd (final_size O c kelly)
    unfolding final_size
    final_size-IsWithin c (some k) h fits = fits
    final_size-IsWithin c none h fits =
        let limit = c.risk_limits.max_position_size_usd in
        let tenth = O.mul limit (O.lit 1 10) in
        let small : O.leb tenth limit ≡ true =
          laws.mul_shrinks limit 1 10 (omega arith) (omega arith) h in
        let large : O.leb (zero_F O) tenth ≡ true =
          laws.mul_nonneg limit _ h
            (laws.lit_le 0 1 1 10 (omega arith) (omega arith) (omega arith)) in
        (
          le-min O laws (O.lit 500 1) tenth (zero_F O)
              (laws.lit_le 0 1 500 1 (omega arith) (omega arith) (omega arith)) large,
          laws.trans _ tenth limit (min-le_right O laws (O.lit 500 1) tenth) small,
        )

    assemble-Follows :
        (X : Type 0) (now : ℕ) (c : TriggerContext F) (r : CodeEngineResult F) (k : ConfidenceLevel)
        (s : StrategyResult) (a w : ActionType)
        → (r.hard_blocked ≡ false → w ≡ a)
        → O.leb (zero_F O) c.risk_limits.max_position_size_usd ≡ true
        → Holds (IsWithin O c.risk_limits.max_position_size_usd) r.kelly_position_usd
        → IsComplete O r
        → Follows {X = X} c r (ok w) (assemble O now c r k s (some a))
    unfolding assemble blocked_decision final_decision action_or_skip
    assemble-Follows X now c r k s a w same h fits complete = elim (Bool-cases r.hard_blocked) [
      | inl blocked ↦
          rw (assemble, blocked) (refl, (λ e. (refl, refl)), λ e. absurd (false_ne_true (sym e)))
      | inr free ↦ elim complete [
        | inl blocked ↦ absurd (false_ne_true (sym free ∙ blocked))
        | inr (sl, tp, e1, e2) ↦
            elim (Option-cases
              (synthesize O now c.strategy_id s.param_change (some sl) (some tp))) [
                | inl e ↦ absurd (synthesize-some now c.strategy_id s.param_change sl tp e)
                | inr (parameters, e) ↦
                    rw (assemble, free, e1, e2, e)
                      (
                        refl,
                        (λ b. absurd (false_ne_true b)),
                        λ b. (
                          (w, refl, ap some (sym (same free))),
                          final_size-IsWithin c r.kelly_position_usd h fits,
                          refl,
                        ),
                      )
              ]
      ]
    ]

    -- Provided that the limit on positions and the capital are not negative, and that floats are
    -- ordered: the classifier, on the engine's result, fails only if the client does. If the engine
    -- blocks, its decision is BLOCK with a position of 0, whatever the language model answers; if
    -- not, it is the action that the model answered, or EXECUTE without the personas, with a
    -- position between 0 and its limit and the engine's leverage.
    pub classify-Follows :
        (X : Type 0) (now : ℕ) (c : TriggerContext F) (k : ConfidenceLevel) (s : StrategyResult)
        (bypass_mode : Bool) (answer : Result X ActionType)
        → O.leb (zero_F O) c.risk_limits.max_position_size_usd ≡ true
        → O.leb (zero_F O) c.available_capital_usd ≡ true
        → Follows c
            (run O (engine_context bypass_mode c))
            (wanted bypass_mode answer)
            (classify O now c (run O (engine_context bypass_mode c)) k s bypass_mode answer)
    unfolding classify engine_context
    classify-Follows X now c k s true answer h solvent =
        let e = engine_context true c in
        assemble-Follows X now c (run O e) k s
          (if (run O e).hard_blocked then ActionType.block else ActionType.execute)
          ActionType.execute (λ free. rw free refl) h (run-IsSized O laws e h solvent).1
          (run-IsComplete O e)
    classify-Follows X now c k s false (raise e) h solvent = refl
    classify-Follows X now c k s false (ok a) h solvent =
        assemble-Follows X now c (run O c) k s a a (λ e. refl) h (run-IsSized O laws c h solvent).1
          (run-IsComplete O c)
