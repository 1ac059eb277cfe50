-- ===== src/Lifecycle/Outcome.antt =====
-- What each mutating call returns, beside the store that it leaves.
use petrosa_cio.Prelude.{
  Str, Str-discrete, ◌≡◌, refl, sym, subst, inl, inr, none, some, Option-cases, List, [], ◌∷◌, ◌++◌,
  Result, ok, raise,
}
use petrosa_cio.Prelude.Dict.{lookup, insert, lookup-insert_self}
use petrosa_cio.Models.{ActionType, Env}
use petrosa_cio.Lifecycle.{
  LifecycleState, LifecycleEvent, StrategyLifecycle, Store, Args, Error, strategy_not_registered,
  strategy_already_registered, cannot_act, allowed, event_of, moved, register, transition_entry,
  transition, characterize_entry, characterize, admit, admit_small, reject, promote, demote, retire,
}
use petrosa_cio.Lifecycle.Run.{Command, perform}
use petrosa_cio.Lifecycle.Machine.{target}

module _ {ℓ} {J : Type ℓ} where
  -- A raise leaves the store as it was. A returned event is the last of the history of the
  -- strategy that the call named, and the strategy is in the state that the event leads to.
  abbrev pub Explains : Store J → Str → Store J × Result Error (LifecycleEvent J) → Type ℓ
  Explains store id (after, raise e) = after ≡ store
  Explains store id (after, ok event) =
      (entry : StrategyLifecycle J) × (older : List (LifecycleEvent J)) × (lookup Str-discrete id
          after
        ≡ some entry)
      × (entry.current_state ≡ event.to_state)
      × (entry.history ≡ older ++ event ∷ [])

  recorded :
      (store : Store J) (id : Str) (entry : StrategyLifecycle J) (event : LifecycleEvent J)
      → Explains store id (insert Str-discrete id (moved entry event) store, ok event)
  recorded store id entry event = (
    moved entry event,
    entry.history,
    lookup-insert_self Str-discrete id (moved entry event) store,
    refl,
    refl,
  )

  transition_entry-Explains :
      (store : Store J) (env : Env) (id : Str) (a : ActionType) (args : Args J)
      (e : StrategyLifecycle J)
      → Explains store id (transition_entry store env id a args e)
  unfolding transition_entry
  transition_entry-Explains store env id a args e =
      elim (Option-cases (allowed e.current_state a)) [
        | inl refused ↦
            let same : transition_entry store env id a args e
                ≡ (store, raise (cannot_act id a e.current_state)) =
              rw (refused, transition_entry) in
            subst (Explains store id) (sym same) refl
        | inr (to, fine) ↦
            let event = event_of id (some e.current_state) to (some a) env args in
            let same : transition_entry store env id a args e
                ≡ (insert Str-discrete id (moved e event) store, ok event) =
              rw (fine, transition_entry) in
            subst (Explains store id) (sym same) (recorded store id e event)
      ]

  transition-Explains :
      (store : Store J) (env : Env) (id : Str) (a : ActionType) (args : Args J)
      → Explains store id (transition store env id a args)
  unfolding transition
  transition-Explains store env id a args = elim (Option-cases (lookup Str-discrete id store)) [
    | inl absent ↦
        let same : transition store env id a args ≡ (store, raise (strategy_not_registered id)) =
          rw (absent, transition) in
        subst (Explains store id) (sym same) refl
    | inr (e, found) ↦
        let same : transition store env id a args ≡ transition_entry store env id a args e =
          rw (found, transition) in
        subst (Explains store id) (sym same) (transition_entry-Explains store env id a args e)
  ]

  characterize_entry-Explains :
      (s : LifecycleState) (store : Store J) (env : Env) (id : Str) (args : Args J)
      (e : StrategyLifecycle J)
      → Explains store id (characterize_entry s store env id args e)
  unfolding characterize_entry
  characterize_entry-Explains LifecycleState.registered store env id args e =
      recorded store id e
        (event_of id (some LifecycleState.registered) LifecycleState.characterized none env args)
  characterize_entry-Explains _ store env id args e = refl

  characterize-Explains :
      (store : Store J) (env : Env) (id : Str) (args : Args J)
      → Explains store id (characterize store env id args)
  unfolding characterize
  characterize-Explains store env id args = elim (Option-cases (lookup Str-discrete id store)) [
    | inl absent ↦
        let same : characterize store env id args ≡ (store, raise (strategy_not_registered id)) =
          rw (absent, characterize) in
        subst (Explains store id) (sym same) refl
    | inr (e, found) ↦
        let same : characterize store env id args
            ≡ characterize_entry e.current_state store env id args e =
          rw (found, characterize) in
        subst (Explains store id) (sym same)
          (characterize_entry-Explains e.current_state store env id args e)
  ]

  register-Explains :
      (store : Store J) (env : Env) (id : Str) (d : List (Str × J)) (args : Args J)
      → Explains store id (register store env id d args)
  unfolding register
  register-Explains store env id d args = elim (Option-cases (lookup Str-discrete id store)) [
    | inr (e, found) ↦
        let same : register store env id d args ≡ (store, raise (strategy_already_registered id)) =
          rw (found, register) in
        subst (Explains store id) (sym same) refl
    | inl absent ↦
        let event = event_of id none LifecycleState.registered none env args in
        let entry : StrategyLifecycle J = record {
          strategy_id = id;
          definition = d;
          current_state = LifecycleState.registered;
          history = event ∷ [];
        } in
        let same : register store env id d args ≡ (insert Str-discrete id entry store, ok event) =
          rw (absent, register) in
        subst (Explains store id) (sym same)
          (entry, [], lookup-insert_self Str-discrete id entry store, refl, refl)
  ]

  -- Every call, on every branch: if it raises, the store is as before; if it returns an event, the
  -- event is the last of the history of the strategy that the call named, and that strategy is now
  -- in the state that the event leads to.
  pub perform-Explains :
      (store : Store J) (env : Env) (c : Command J)
      → Explains store (target c) (perform store env c)
  unfolding perform admit admit_small reject promote demote retire
  perform-Explains store env (Command.register id d args) = register-Explains store env id d args
  perform-Explains store env (Command.characterize id args) =
      characterize-Explains store env id args
  perform-Explains store env (Command.admit id args) = transition-Explains store env id _ args
  perform-Explains store env (Command.admit_small id args) = transition-Explains store env id _ args
  perform-Explains store env (Command.reject id args) = transition-Explains store env id _ args
  perform-Explains store env (Command.promote id args) = transition-Explains store env id _ args
  perform-Explains store env (Command.demote id args) = transition-Explains store env id _ args
  perform-Explains store env (Command.retire id args) = transition-Explains store env id _ args
