-- ===== src/Orchestrator/Admission.antt =====
-- The ledger across the loop: what a call admits, and when.
use petrosa_cio.Prelude.{
  ◌+◌, ◌*◌, ◌<◌, ◌≡◌, refl, sym, ◌∙◌, subst, false_ne_true, ◌⊎◌, inl, inr, Bool, true, false,
  Bool-cases, not, none, Result, ok, raise, Result-cases, arith,
}
use petrosa_cio.Prelude.Int.{ℤ, pos, pos_part, ltb_ℤ, ◌≤ℤ◌}
use petrosa_cio.Portfolio.{
  Position, Positions, CeilingCheckResult, contribution, position_of, total, effective_ceiling,
}
use petrosa_cio.Portfolio.Exposure.{IsAdded, record_admit-IsAdded}
use petrosa_cio.Portfolio.Ceiling.{IsCovered, would_breach_iff, admitted-IsCovered}
use petrosa_cio.Spend.{Clock, check_ceiling}
use petrosa_cio.Orchestrator
use petrosa_cio.Orchestrator.{
  Environment, Context, Answers, Decision, CodeResult, rejected_stale, rejected_ceiling, decided,
  safe, is_stale, new_position_size, leverage_of, ceiling_check, admit, transition,
  check_spend_ceiling, or_safe, reason, classify_blocked, conclude, admit_and_conclude, run_engine,
}

-- The engine lets the intent through, with a position to open.
abbrev pub Wants : CodeResult → Type 0
Wants r = (r.hard_blocked ≡ false) × (¬ (new_position_size r ≤ℤ pos 0))

-- The position of the intent, at the leverage that the arbiter decides.
abbrev pub wanted : Environment → Context → CodeResult → Position
wanted env c r = position_of (new_position_size r) (leverage_of env c)

-- The capital is not positive, or the exposure with the position is over the ceiling times it.
abbrev pub IsOver : Environment → Context → Positions → Position → Type 0
IsOver env c before p =
    let limit = effective_ceiling env.portfolio_ceiling none in
    (c.available_capital_usd ≤ℤ pos 0)
    ⊎ (limit.num * pos_part c.available_capital_usd < (total before + contribution p) * limit.den)

abbrev pub IsCeilingRejection {κ} : {D : Type κ} → Decision D → Type 0
IsCeilingRejection rejected_stale = ⊥
IsCeilingRejection (rejected_ceiling check) = Unit
IsCeilingRejection (decided d) = ⊥
IsCeilingRejection safe = ⊥

-- The position is within the ceiling, stands in the ledger and leaves the aggregate within it.
abbrev pub Grants : Environment → Context → Positions → CodeResult → Positions → Type 0
Grants env c before r after =
    Wants r
    × (¬ IsOver env c before (wanted env c r))
    × IsAdded c.strategy_id (wanted env c r) before after
    × IsCovered after (pos_part c.available_capital_usd)
        (effective_ceiling env.portfolio_ceiling none)

-- Nothing to open, a refusal by the ceiling, or an admission.
abbrev pub Settles {κ} :
    {D : Type κ} → Environment → Context → Positions → CodeResult → Positions → Decision D → Type 0
Settles env c before r after d =
    ((¬ Wants r) × (after ≡ before) × (¬ IsCeilingRejection d))
    ⊎ (Wants r × IsOver env c before (wanted env c r) × (after ≡ before) × IsCeilingRejection d)
    ⊎ (Grants env c before r after × (¬ IsCeilingRejection d))

-- The ledger after a call, by whether the intent is stale and by what the engine answers.
abbrev pub Admits {ℓ κ} :
    {X : Type ℓ} {D : Type κ}
    → Environment
    → Context
    → Positions
    → Bool
    → Result X CodeResult
    → Positions
    → Decision D
    → Type 0
Admits env c before true engine after d = (after ≡ before) × (¬ IsCeilingRejection d)
Admits env c before false (raise e) after d = (after ≡ before) × (¬ IsCeilingRejection d)
Admits env c before false (ok r) after d = Settles env c before r after d

-- What the portfolio gate answers.
abbrev Admitted :
    Environment → Context → Positions → CodeResult → Result CeilingCheckResult Positions → Type 0
Admitted env c before r (raise check) = Wants r × IsOver env c before (wanted env c r)
Admitted env c before r (ok after) = ((¬ Wants r) × (after ≡ before)) ⊎ Grants env c before r after

positive-ltb : (n : ℤ) → ltb_ℤ (pos 0) n ≡ true → ¬ (n ≤ℤ pos 0)
positive-ltb n h k = ground (arith, h, k)

small-ltb : (n : ℤ) → ltb_ℤ (pos 0) n ≡ false → n ≤ℤ pos 0
small-ltb n h = ground (arith, h)

admit-Admitted :
    (env : Environment) (m : Positions) (c : Context) (r : CodeResult)
    → Admitted env c m r (admit env m c r)
unfolding admit ceiling_check
admit-Admitted env m c r =
    let size = new_position_size r in
    let leverage = leverage_of env c in
    let breaches =
      would_breach_iff m env.portfolio_ceiling size leverage c.available_capital_usd none in
    elim (Bool-cases r.hard_blocked) [
      | inl blocked ↦ simp blocked (inl (λ wants. false_ne_true (sym wants.0), refl))
      | inr free ↦ elim (Bool-cases (ltb_ℤ (pos 0) size)) [
        | inr small ↦ simp (free, small) (inl (λ wants. wants.1 (small-ltb size small), refl))
        | inl sized ↦ elim (Bool-cases (ceiling_check env m c size leverage).would_breach) [
          | inl breach ↦
              simp (free, sized, breach) ((refl, positive-ltb size sized), breaches.0 breach)
          | inr fits ↦
              simp (free, sized, fits)
                (inr (
                  (refl, positive-ltb size sized),
                  (λ over. false_ne_true (sym fits ∙ breaches.1 over)),
                  record_admit-IsAdded m c.strategy_id size leverage,
                  (admitted-IsCovered m env.portfolio_ceiling c.strategy_id size leverage
                      c.available_capital_usd none fits).1,
                ))
        ]
      ]
    ]

positions-transition :
    (o : Orchestrator.Orchestrator) (b : Bool) → (transition o b).positions ≡ o.positions
unfolding transition
positions-transition o b = ground arith

positions-check :
    (env : Environment) (o : Orchestrator.Orchestrator) (now : Clock)
    → (check_spend_ceiling env o now).positions ≡ o.positions
unfolding check_spend_ceiling
positions-check env o now =
    let checked = check_ceiling env.rates o.spend now in
    positions-transition (record o { spend = checked.0 }) checked.1

module _ {ℓ κ} {X : Type ℓ} {D : Type κ} where
  positions-reason :
      (env : Environment) (o : Orchestrator.Orchestrator) (a : Answers X D)
      → (reason env o a).0.positions ≡ o.positions
  unfolding reason
  positions-reason env o a = elim (Result-cases (a.personas o.spend).1) [
    | inl (e, fails) ↦ rw (fails, reason) refl
    | inr (d, answers) ↦
        rw (answers, reason)
          (positions-check env (record o { spend = (a.personas o.spend).0 }) a.clock)
  ]

  positions-classify_blocked :
      (o : Orchestrator.Orchestrator) (a : Answers X D)
      → (classify_blocked o a).0.positions ≡ o.positions
  unfolding classify_blocked
  positions-classify_blocked o a = ground arith

  positions-conclude :
      (env : Environment) (o : Orchestrator.Orchestrator) (a : Answers X D) (r : CodeResult)
      → (conclude env o a r).0.positions ≡ o.positions
  unfolding conclude
  positions-conclude env o a r = elim (Bool-cases r.hard_blocked) [
    | inl blocked ↦ rw blocked (positions-classify_blocked o a)
    | inr free ↦ elim (Bool-cases o.use_llm_reasoning) [
      | inl on ↦ rw (free, on) (positions-reason env (record o { use_llm_reasoning = true }) a)
      | inr off ↦ rw (free, off) refl
    ]
  ]

  or_safe-accepts : (x : Result X D) → ¬ IsCeilingRejection (or_safe x)
  unfolding or_safe
  or_safe-accepts (ok d) h = h
  or_safe-accepts (raise e) h = h

  reason-accepts :
      (env : Environment) (o : Orchestrator.Orchestrator) (a : Answers X D)
      → ¬ IsCeilingRejection (reason env o a).1
  unfolding reason
  reason-accepts env o a = elim (Result-cases (a.personas o.spend).1) [
    | inl (e, fails) ↦ rw (fails, reason) (λ h. h)
    | inr (d, answers) ↦ rw (answers, reason) (λ h. h)
  ]

  classify_blocked-accepts :
      (o : Orchestrator.Orchestrator) (a : Answers X D)
      → ¬ IsCeilingRejection (classify_blocked o a).1
  unfolding classify_blocked
  classify_blocked-accepts o a = elim (Bool-cases o.use_llm_reasoning) [
    | inl on ↦ simp on (or_safe-accepts (a.classify o.spend).1)
    | inr off ↦ simp off (or_safe-accepts a.classify_bypassed)
  ]

  -- Past the portfolio gate, nothing is rejected for the ceiling.
  conclude-accepts :
      (env : Environment) (o : Orchestrator.Orchestrator) (a : Answers X D) (r : CodeResult)
      → ¬ IsCeilingRejection (conclude env o a r).1
  unfolding conclude
  conclude-accepts env o a r = elim (Bool-cases r.hard_blocked) [
    | inl blocked ↦ simp blocked (classify_blocked-accepts o a)
    | inr free ↦ elim (Bool-cases o.use_llm_reasoning) [
      | inl on ↦ simp (free, on) (reason-accepts env o a)
      | inr off ↦ simp (free, off) (or_safe-accepts a.classify_bypassed)
    ]
  ]

  admit_and_conclude-Settles :
      (env : Environment) (o : Orchestrator.Orchestrator) (c : Context) (a : Answers X D)
      (r : CodeResult)
      → let (after, d) = admit_and_conclude env o c a r in
        Settles env c o.positions r after.positions d
  unfolding admit_and_conclude
  admit_and_conclude-Settles env o c a r =
      let gate = admit-Admitted env o.positions c r in
      elim (Result-cases (admit env o.positions c r)) [
        | inl (check, refused) ↦
            let (wants, over) : Admitted env c o.positions r (raise check) =
              subst (Admitted env c o.positions r) refused gate in
            rw (refused, admit_and_conclude) (inr (inl (wants, over, refl, tt)))
        | inr (after, granted) ↦
            let kept = positions-conclude env (record o { positions = after }) a r in
            let admitted : Admitted env c o.positions r (ok after) =
              subst (Admitted env c o.positions r) granted gate in
            let accepts = conclude-accepts env (record o { positions = after }) a r in
            rw (granted, admit_and_conclude, kept)
              (elim admitted [
                | inl (idle, same) ↦ inl (idle, same, accepts)
                | inr added ↦ inr (inr (added, accepts))
              ])
      ]

  -- A call of the loop leaves the ledger as it was if the intent is stale, if the engine fails or
  -- blocks, or if it gives no positive size. Otherwise the intent is rejected for the ceiling, with
  -- the ledger as it was, exactly if the capital is not positive or the exposure with the new
  -- position is over the ceiling times it; and if not, the position stands in the ledger under the
  -- strategy, at its size and the decided leverage, the positions of the others are as before, and
  -- the aggregate is within the ceiling. So it is whatever the gates and the personas answer, and
  -- whether they fail; a strategy without a name is not recorded.
  pub run-Admits :
      (env : Environment) (o : Orchestrator.Orchestrator) (c : Context) (a : Answers X D)
      → let (after, d) = Orchestrator.run env o c a in
        Admits env c o.positions
          (is_stale c a.stale)
          (a.engine (not o.use_llm_reasoning))
          after.positions
          d
  unfolding Orchestrator.run run_engine
  run-Admits env o c a = elim (Bool-cases (is_stale c a.stale)) [
    | inl stale ↦ rw stale (refl, λ h. h)
    | inr fresh ↦ elim (Result-cases (a.engine (not o.use_llm_reasoning))) [
      | inl (e, fails) ↦ rw (fresh, fails, run_engine) (refl, λ h. h)
      | inr (r, answers) ↦ rw (fresh, answers, run_engine) (admit_and_conclude-Settles env o c a r)
    ]
  ]
