-- ===== src/Orchestrator/Hard.antt =====
-- What the loop does with a result that the engine blocks (cio/core/orchestrator.py).
use petrosa_cio.Prelude.{◌≡◌, refl, ◌⊎◌, inl, inr, true, false, Bool-cases, not, ok, raise, arith}
use petrosa_cio.Orchestrator
use petrosa_cio.Orchestrator.{
  Environment, Context, Answers, CodeResult, rejected_stale, decided, safe, is_stale, admit,
  or_safe, classify_blocked, conclude, admit_and_conclude, run_engine,
}

admit-blocked :
    (env : Environment) (o : Orchestrator.Orchestrator) (c : Context) (r : CodeResult)
    → r.hard_blocked ≡ true
    → admit env o.positions c r ≡ ok o.positions
unfolding admit
admit-blocked env o c r h = rw (h, admit) refl

module _ {X D : Type 0} (env : Environment) (o : Orchestrator.Orchestrator) (c : Context) where
  -- A blocked result reaches the classifier alone, past the gate, unless the intent is stale.
  pub run-hard_blocked :
      (a : Answers X D) (r : CodeResult)
      → a.engine (not o.use_llm_reasoning) ≡ ok r
      → r.hard_blocked ≡ true
      → ((is_stale c a.stale ≡ true) × (Orchestrator.run env o c a ≡ (o, rejected_stale)))
        ⊎ ((is_stale c a.stale ≡ false) × (Orchestrator.run env o c a ≡ classify_blocked o a))
  unfolding Orchestrator.run run_engine admit_and_conclude conclude
  run-hard_blocked a r answers h = elim (Bool-cases (is_stale c a.stale)) [
    | inl stale ↦ rw stale (inl (refl, refl))
    | inr fresh ↦
        rw
          (
            Orchestrator.run,
            fresh,
            run_engine,
            answers,
            admit_and_conclude,
            admit-blocked env o c r h,
            conclude,
            h,
          )
          (inr (refl, refl))
  ]

module _ {X D : Type 0} (o : Orchestrator.Orchestrator) (a : Answers X D) where
  -- With the personas on, the classifier's call is charged.
  pub classify_blocked-on :
      o.use_llm_reasoning ≡ true
      → classify_blocked o a
        ≡ (record o { spend = (a.classify o.spend).0 }, or_safe (a.classify o.spend).1)
  unfolding classify_blocked
  classify_blocked-on h = ground (arith, h)

  pub classify_blocked-off :
      o.use_llm_reasoning ≡ false → classify_blocked o a ≡ (o, or_safe a.classify_bypassed)
  unfolding classify_blocked
  classify_blocked-off h = ground (arith, h)

pub or_safe-ok : (X : Type 0) {D : Type 0} (d : D) → or_safe {X = X} (ok d) ≡ decided d
unfolding or_safe
or_safe-ok X d = refl

pub or_safe-raise : {X : Type 0} (D : Type 0) (e : X) → or_safe {D = D} (raise e) ≡ safe
unfolding or_safe
or_safe-raise D e = refl
