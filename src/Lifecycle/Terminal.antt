-- ===== src/Lifecycle/Terminal.antt =====
-- What calls can never do: leave a terminal state, shorten a history, or change the store and raise.
use petrosa_cio.Prelude.{
  Str, Str-discrete, ◌≡◌, refl, sym, ◌∙◌, ap, ◌⊎◌, inl, inr, if_pos, if_neg, none, some,
  Option-cases, List, [], ◌∷◌, ◌++◌, append-nil, append_assoc, arith,
}
use petrosa_cio.Prelude.Dict.{lookup}
use petrosa_cio.Models.{ActionType, Env}
use petrosa_cio.Lifecycle.{
  LifecycleState, LifecycleEvent, StrategyLifecycle, Store, Args, allowed, event_of,
}
use petrosa_cio.Lifecycle.Run.{Command, run}
use petrosa_cio.Lifecycle.Machine.{
  target, act, start_characterized, step_entry, step, run_one, lookup-run,
}

abbrev pub IsTerminal : LifecycleState → Type 0
IsTerminal s = (s ≡ LifecycleState.retired) ⊎ (s ≡ LifecycleState.rejected)

allowed-terminal : (s : LifecycleState) (a : ActionType) → IsTerminal s → allowed s a ≡ none
unfolding allowed
allowed-terminal s a h = ground arith

module _ {ℓ} {J : Type ℓ} where
  act-terminal :
      (env : Env) (id : Str) (a : ActionType) (args : Args J) (e : StrategyLifecycle J)
      → IsTerminal e.current_state
      → act env id a args e ≡ e
  unfolding act
  act-terminal env id a args e h = ground (arith, allowed-terminal e.current_state a h)

  step_entry-terminal :
      (env : Env) (c : Command J) (e : StrategyLifecycle J)
      → IsTerminal e.current_state
      → step_entry env c e ≡ e
  unfolding step_entry start_characterized
  step_entry-terminal env (Command.register id d args) e h = refl
  step_entry-terminal env (Command.characterize id args) e h = ground arith
  step_entry-terminal env (Command.admit id args) e h = act-terminal env id _ args e h
  step_entry-terminal env (Command.admit_small id args) e h = act-terminal env id _ args e h
  step_entry-terminal env (Command.reject id args) e h = act-terminal env id _ args e h
  step_entry-terminal env (Command.promote id args) e h = act-terminal env id _ args e h
  step_entry-terminal env (Command.demote id args) e h = act-terminal env id _ args e h
  step_entry-terminal env (Command.retire id args) e h = act-terminal env id _ args e h

  run_one-terminal :
      (id : Str) (cs : List (Env × Command J)) (e : StrategyLifecycle J)
      → IsTerminal e.current_state
      → run_one id (some e) cs ≡ some e
  unfolding run_one step
  run_one-terminal id [] e h = refl
  run_one-terminal id ((env, c) ∷ cs) e h = elim (Str-discrete (target c) id) [
    | yes same ↦ rw (if_pos _ same, step_entry-terminal env c e h) (run_one-terminal id cs e h)
    | no other ↦ rw (if_neg _ other) (run_one-terminal id cs e h)
  ]

  -- Once a strategy is retired or rejected, no sequence of calls changes anything of its record:
  -- neither its state, nor its definition, nor its history.
  pub run-terminal :
      (store : Store J) (id : Str) (e : StrategyLifecycle J) (cs : List (Env × Command J))
      → lookup Str-discrete id store ≡ some e
      → IsTerminal e.current_state
      → lookup Str-discrete id (run store cs) ≡ some e
  run-terminal store id e cs h t =
      lookup-run id store cs ∙ ap (λ o. run_one id o cs) h ∙ run_one-terminal id cs e t

  -- `e'` is a later record of the same strategy: the definition is the one that was registered,
  -- and the history begins with the earlier history.
  abbrev pub IsLater : StrategyLifecycle J → StrategyLifecycle J → Type ℓ
  IsLater e e' =
      (more : List (LifecycleEvent J)) × (e'.history ≡ e.history ++ more)
      × (e'.definition ≡ e.definition)

  act-IsLater :
      (env : Env) (id : Str) (a : ActionType) (args : Args J) (e : StrategyLifecycle J)
      → IsLater e (act env id a args e)
  unfolding act
  act-IsLater env id a args e = elim (Option-cases (allowed e.current_state a)) [
    | inl refused ↦ rw (refused, act) ([], sym (append-nil e.history), refl)
    | inr (to, fine) ↦
        rw (fine, act) (event_of id (some e.current_state) to (some a) env args ∷ [], refl, refl)
  ]

  start_characterized-IsLater :
      (s : LifecycleState) (env : Env) (id : Str) (args : Args J) (e : StrategyLifecycle J)
      → IsLater e (start_characterized s env id args e)
  unfolding start_characterized
  start_characterized-IsLater LifecycleState.registered env id args e = (
    event_of id (some LifecycleState.registered) LifecycleState.characterized none env args ∷ [],
    refl,
    refl,
  )
  start_characterized-IsLater _ env id args e = ([], sym (append-nil e.history), refl)

  step_entry-IsLater :
      (env : Env) (c : Command J) (e : StrategyLifecycle J) → IsLater e (step_entry env c e)
  unfolding step_entry
  step_entry-IsLater env (Command.register id d args) e = ([], sym (append-nil e.history), refl)
  step_entry-IsLater env (Command.characterize id args) e =
      start_characterized-IsLater e.current_state env id args e
  step_entry-IsLater env (Command.admit id args) e = act-IsLater env id _ args e
  step_entry-IsLater env (Command.admit_small id args) e = act-IsLater env id _ args e
  step_entry-IsLater env (Command.reject id args) e = act-IsLater env id _ args e
  step_entry-IsLater env (Command.promote id args) e = act-IsLater env id _ args e
  step_entry-IsLater env (Command.demote id args) e = act-IsLater env id _ args e
  step_entry-IsLater env (Command.retire id args) e = act-IsLater env id _ args e

  IsLater-trans : (e f g : StrategyLifecycle J) → IsLater e f → IsLater f g → IsLater e g
  IsLater-trans e f g (more, h, d) (rest, h', d') =
      (more ++ rest, h' ∙ ap (λ l. l ++ rest) h ∙ append_assoc e.history more rest, d' ∙ d)

  run_one-IsLater :
      (id : Str) (cs : List (Env × Command J)) (e : StrategyLifecycle J)
      → (e' : StrategyLifecycle J) × (run_one id (some e) cs ≡ some e') × IsLater e e'
  unfolding run_one step
  run_one-IsLater id [] e = (e, refl, ([], sym (append-nil e.history), refl))
  run_one-IsLater id ((env, c) ∷ cs) e = elim (Str-discrete (target c) id) [
    | yes same ↦
        let e1 = step_entry env c e in
        let (e', r, l) = run_one-IsLater id cs e1 in
        (e', rw (if_pos _ same) r, IsLater-trans e e1 e' (step_entry-IsLater env c e) l)
    | no other ↦ let (e', r, l) = run_one-IsLater id cs e in (e', rw (if_neg _ other) r, l)
  ]

  -- A registered strategy stays registered under every sequence of calls, with the definition that
  -- it was registered with, and its history is only ever extended at the end.
  pub run-IsLater :
      (store : Store J) (id : Str) (e : StrategyLifecycle J) (cs : List (Env × Command J))
      → lookup Str-discrete id store ≡ some e
      → (e' : StrategyLifecycle J) × (lookup Str-discrete id (run store cs) ≡ some e')
        × IsLater e e'
  run-IsLater store id e cs h =
      let (e', r, l) = run_one-IsLater id cs e in
      (e', lookup-run id store cs ∙ ap (λ o. run_one id o cs) h ∙ r, l)
