-- ===== src/Lifecycle/Admission.antt =====
-- No strategy trades, or has traded, without an admission on record.
use petrosa_cio.Prelude.{
  Str, Str-discrete, ◌≡◌, ◌⊎◌, inl, inr, Holds, some, none, Option-cases, Bool, true, false,
  Bool-cases, List, [], ◌∷◌, All, Any, Any-append_left, Any-append_right, arith,
}
use petrosa_cio.Prelude.Dict.{lookup}
use petrosa_cio.Models.{ActionType, Env}
use petrosa_cio.Lifecycle.{
  LifecycleState, LifecycleEvent, StrategyLifecycle, Args, allowed, event_of,
}
use petrosa_cio.Lifecycle.Run.{Command, run}
use petrosa_cio.Lifecycle.Machine.{
  act, start_characterized, step_entry, genesis, lookup-run, run_one-Holds,
}

-- The states past admission: in the market, or taken out of it again.
abbrev pub is_live : LifecycleState → Bool
is_live LifecycleState.admitted = true
is_live LifecycleState.on_trial = true
is_live LifecycleState.graduated = true
is_live LifecycleState.demoted = true
is_live LifecycleState.retired = true
is_live _ = false

allowed-is_live :
    (s t : LifecycleState) (a : ActionType)
    → is_live s ≡ false
    → allowed s a ≡ some t
    → is_live t ≡ true
    → (s ≡ LifecycleState.characterized) × ((a ≡ ActionType.admit) ⊎ (a ≡ ActionType.admit_small))
unfolding allowed
allowed-is_live s t a n h l = ground arith

module _ {ℓ} {J : Type ℓ} where
  -- An `admit` or `admit_small` of a strategy whose backtest was complete.
  abbrev pub IsAdmission : LifecycleEvent J → Type 0
  IsAdmission e =
      (e.from_state ≡ some LifecycleState.characterized)
      × ((e.action ≡ some ActionType.admit) ⊎ (e.action ≡ some ActionType.admit_small))

  abbrev pub IsAdmitted : StrategyLifecycle J → Type 0
  IsAdmitted e = is_live e.current_state ≡ true → Any IsAdmission e.history

  act-IsAdmitted :
      (env : Env) (id : Str) (a : ActionType) (args : Args J) (e : StrategyLifecycle J)
      → IsAdmitted e
      → IsAdmitted (act env id a args e)
  unfolding act
  act-IsAdmitted env id a args e h = elim (Option-cases (allowed e.current_state a)) [
    | inl refused ↦ rw (refused, act) h
    | inr (to, fine) ↦
        let event = event_of id (some e.current_state) to (some a) env args in
        rw (fine, act)
          (λ live. elim (Bool-cases (is_live e.current_state)) [
            | inl before ↦ Any-append_left IsAdmission e.history (event ∷ []) (h before)
            | inr fresh ↦
                let (from, by) = allowed-is_live e.current_state to a fresh fine live in
                Any-append_right IsAdmission e.history (event ∷ []) (inl (rw from, ground arith))
          ])
  ]

  start_characterized-IsAdmitted :
      (s : LifecycleState) (env : Env) (id : Str) (args : Args J) (e : StrategyLifecycle J)
      → IsAdmitted e
      → IsAdmitted (start_characterized s env id args e)
  unfolding start_characterized
  start_characterized-IsAdmitted LifecycleState.registered env id args e h = λ live. cc
  start_characterized-IsAdmitted _ env id args e h = h

  step_entry-IsAdmitted :
      (env : Env) (c : Command J) (e : StrategyLifecycle J)
      → IsAdmitted e
      → IsAdmitted (step_entry env c e)
  unfolding step_entry
  step_entry-IsAdmitted env (Command.register id d args) e h = h
  step_entry-IsAdmitted env (Command.characterize id args) e h =
      start_characterized-IsAdmitted e.current_state env id args e h
  step_entry-IsAdmitted env (Command.admit id args) e h = act-IsAdmitted env id _ args e h
  step_entry-IsAdmitted env (Command.admit_small id args) e h = act-IsAdmitted env id _ args e h
  step_entry-IsAdmitted env (Command.reject id args) e h = act-IsAdmitted env id _ args e h
  step_entry-IsAdmitted env (Command.promote id args) e h = act-IsAdmitted env id _ args e h
  step_entry-IsAdmitted env (Command.demote id args) e h = act-IsAdmitted env id _ args e h
  step_entry-IsAdmitted env (Command.retire id args) e h = act-IsAdmitted env id _ args e h

  always : (cs : List (Env × Command J)) → All (λ call. Unit {0}) cs
  always [] = tt
  always (c ∷ cs) = (tt, always cs)

  genesis-IsAdmitted :
      (env : Env) (id : Str) (d : List (Str × J)) (args : Args J)
      → IsAdmitted (genesis env id d args)
  unfolding genesis
  genesis-IsAdmitted env id d args = λ live. cc

  -- After any sequence of calls on an empty store, a strategy that is admitted, on trial,
  -- graduated, demoted or retired has in its history an `admit` or `admit_small` that was taken
  -- while it was characterized.
  pub run-IsAdmitted :
      (cs : List (Env × Command J)) (id : Str)
      → Holds IsAdmitted (lookup Str-discrete id (run [] cs))
  unfolding lookup
  run-IsAdmitted cs id = rw (lookup-run id [] cs) (
      run_one-Holds IsAdmitted id (λ env. Unit) (λ env d args _. genesis-IsAdmitted env id d args)
        (λ env c e _ t h. step_entry-IsAdmitted env c e h) cs none (always cs) tt)
