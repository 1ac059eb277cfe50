-- ===== src/Orchestrator/Bypass.antt =====
-- The switch between the personas and the deterministic bypass.
use petrosa_cio.Prelude.{
  ◌≡◌, refl, ◌∙◌, inl, inr, Bool, true, false, Bool-cases, not, ◌&&◌, ◌||◌, List, [], ◌∷◌,
  Result-cases, arith,
}
use petrosa_cio.Orchestrator
use petrosa_cio.Orchestrator.{
  Environment, Context, Answers, Decision, CodeResult, is_stale, admit, transition,
  check_spend_ceiling, or_safe, reason, classify_blocked, conclude, admit_and_conclude, run_engine,
}
use petrosa_cio.Orchestrator.Run.{run_all}

-- The flags and the spend of two states are the same.
abbrev pub Idle : Orchestrator.Orchestrator → Orchestrator.Orchestrator → Type 0
Idle o o' =
    (o'.use_llm_reasoning ≡ o.use_llm_reasoning)
    × (o'.ceiling_triggered_bypass ≡ o.ceiling_triggered_bypass)
    × (o'.spend ≡ o.spend)

module _ {ℓ κ} {X : Type ℓ} {D : Type κ} where
  conclude-Idle :
      (env : Environment) (o : Orchestrator.Orchestrator) (a : Answers X D) (r : CodeResult)
      → o.use_llm_reasoning ≡ false
      → Idle o (conclude env o a r).0
  unfolding conclude classify_blocked
  conclude-Idle env o a r off = elim (Bool-cases r.hard_blocked) [
    | inl blocked ↦ rw (blocked, off) (refl, refl, refl)
    | inr free ↦ rw (free, off) (refl, refl, refl)
  ]

  admit_and_conclude-Idle :
      (env : Environment) (o : Orchestrator.Orchestrator) (c : Context) (a : Answers X D)
      (r : CodeResult)
      → o.use_llm_reasoning ≡ false
      → Idle o (admit_and_conclude env o c a r).0
  unfolding admit_and_conclude
  admit_and_conclude-Idle env o c a r off = elim (Result-cases (admit env o.positions c r)) [
    | inl (check, refused) ↦ rw (refused, admit_and_conclude) (refl, refl, refl)
    | inr (after, granted) ↦
        rw (granted, admit_and_conclude)
          (conclude-Idle env (record o { positions = after }) a r off)
  ]

  run-Idle :
      (env : Environment) (o : Orchestrator.Orchestrator) (c : Context) (a : Answers X D)
      → o.use_llm_reasoning ≡ false
      → Idle o (Orchestrator.run env o c a).0
  unfolding Orchestrator.run run_engine
  run-Idle env o c a off = elim (Bool-cases (is_stale c a.stale)) [
    | inl stale ↦ rw stale (refl, refl, refl)
    | inr fresh ↦ elim (Result-cases (a.engine (not o.use_llm_reasoning))) [
      | inl (e, fails) ↦ rw (fresh, fails, run_engine) (refl, refl, refl)
      | inr (r, answers) ↦ rw (fresh, answers, run_engine) (admit_and_conclude-Idle env o c a r off)
    ]
  ]

  -- Once the personas are off, no sequence of calls of the loop turns them on again, on whatever
  -- days the calls fall: neither flag changes, nor does the tracked spend, its period included.
  pub run_all-Idle :
      (env : Environment) (o : Orchestrator.Orchestrator) (calls : List (Context × Answers X D))
      → o.use_llm_reasoning ≡ false
      → Idle o (run_all env o calls)
  unfolding run_all
  run_all-Idle env o [] off = (refl, refl, refl)
  run_all-Idle env o ((c, a) ∷ calls) off =
      let first = run-Idle env o c a off in
      let rest = run_all-Idle env (Orchestrator.run env o c a).0 calls (first.0 ∙ off) in
      (rest.0 ∙ first.0, rest.1 ∙ first.1, rest.2 ∙ first.2)

-- The two flags are never both set.
abbrev pub Exclusive : Orchestrator.Orchestrator → Type 0
Exclusive o = o.ceiling_triggered_bypass ≡ true → o.use_llm_reasoning ≡ false

-- The check after a call of the personas sets the flags by its answer: a breach turns the personas
-- off, and its absence turns on again what a breach turned off; a bypass that the operator set
-- stays, with or without a breach.
pub transition_lem :
    (o : Orchestrator.Orchestrator) (breached : Bool)
    → Exclusive o
    → let o' = transition o breached in
      Exclusive o'
      × (o'.use_llm_reasoning
          ≡ (not breached && (o.use_llm_reasoning || o.ceiling_triggered_bypass)))
      × ((o.use_llm_reasoning ≡ false)
          → (o.ceiling_triggered_bypass ≡ false)
          → (o'.ceiling_triggered_bypass ≡ false))
unfolding transition
transition_lem o breached h = (ground arith, ground arith, ground arith)
