-- ===== src/Lifecycle/History.antt =====
-- The recorded history of a strategy against its standing state: an audit reader that replays the
-- events from nothing, refusing any link that the lifecycle does not permit, ends in the state that
-- the store reports.
use petrosa_cio.Prelude.{
  Str, Str-discrete, or_else, ◌≡◌, refl, sym, subst, ◌≢◌, inl, inr, ite, Holds, Option, none, some,
  Option-cases, List, [], ◌∷◌, ◌++◌, All, All-append, arith,
}
use petrosa_cio.Prelude.Dict.{lookup}
use petrosa_cio.Models.{ActionType, Env}
use petrosa_cio.Lifecycle.{
  LifecycleState, LifecycleEvent, StrategyLifecycle, Args, allowed, event_of,
}
use petrosa_cio.Lifecycle.Run.{Command, run}
use petrosa_cio.Lifecycle.Machine.{
  target, act, start_characterized, step_entry, genesis, lookup-run, run_one-Holds,
}

unfoldable pub LifecycleState-discrete : Discrete LifecycleState
LifecycleState-discrete = hlevel

-- Where the lifecycle says that an event leads: characterization has no action.
unfoldable pub destination : LifecycleState → Option ActionType → Option LifecycleState
destination s (some a) = allowed s a
destination LifecycleState.registered none = some LifecycleState.characterized
destination _ none = none

or_else-ne-nil : (o : Option Str) (t : Str) → t ≢ [] → or_else o t ≢ []
or_else-ne-nil none t h = h
or_else-ne-nil (some []) t h = h
or_else-ne-nil (some (c ∷ s)) t h = cc

module _ {ℓ} {J : Type ℓ} where
  -- One link of the audit trail, read after state `s`.
  unfoldable pub follow : LifecycleState → LifecycleEvent J → Option LifecycleState
  unfolding destination
  follow s e = elim (destination s e.action) [
    | none ↦ none
    | some t ↦ elim e.from_state [
      | none ↦ none
      | some f ↦
          ite (LifecycleState-discrete f s)
            (ite (LifecycleState-discrete e.to_state t) (some t) none) none
    ]
  ]

  unfoldable pub replay_from : LifecycleState → List (LifecycleEvent J) → Option LifecycleState
  replay_from s [] = some s
  replay_from s (e ∷ es) = elim (follow s e) [ none ↦ none | some t ↦ replay_from t es ]

  -- The whole trail: a genesis event into `registered`, then links.
  unfoldable pub replay : List (LifecycleEvent J) → Option LifecycleState
  replay [] = none
  replay (e ∷ es) = elim e.from_state [
    | some f ↦ none
    | none ↦ elim e.action [
      | some a ↦ none
      | none ↦
          ite (LifecycleState-discrete e.to_state LifecycleState.registered)
            (replay_from LifecycleState.registered es) none
    ]
  ]

  replay_from-append :
      (s t u : LifecycleState) (es : List (LifecycleEvent J)) (e : LifecycleEvent J)
      → replay_from s es ≡ some t
      → follow t e ≡ some u
      → replay_from s (es ++ e ∷ []) ≡ some u
  unfolding replay_from
  replay_from-append s t u [] e h f = ground arith
  replay_from-append s t u (d ∷ es) e h f = elim (Option-cases (follow s d)) [
    | inl bad ↦ absurd (ground arith)
    | inr (m, good) ↦
        rw (good, replay_from) (replay_from-append m t u es e (rw (good, replay_from) at h) f)
  ]

  replay-append :
      (t u : LifecycleState) (es : List (LifecycleEvent J)) (e : LifecycleEvent J)
      → replay es ≡ some t
      → follow t e ≡ some u
      → replay (es ++ e ∷ []) ≡ some u
  unfolding replay
  replay-append t u [] e h f = absurd (ground arith)
  replay-append t u (d ∷ es) e h f =
      ground (arith, replay_from-append LifecycleState.registered t u es e)

  -- The events name the strategy, and each carries a decision id (the P0.1 contract).
  abbrev pub Carries : Str → LifecycleEvent J → Type 0
  Carries id e = (e.strategy_id ≡ id) × (e.decision_id ≢ [])

  -- The record of `id` is what its trail says.
  pub record IsTraced (id : Str) (entry : StrategyLifecycle J) : Type ℓ where
    pub replayed : replay entry.history ≡ some entry.current_state
    pub labelled : All (Carries id) entry.history

  act-replayed :
      (env : Env) (id : Str) (a : ActionType) (args : Args J) (e : StrategyLifecycle J)
      → replay e.history ≡ some e.current_state
      → replay (act env id a args e).history ≡ some (act env id a args e).current_state
  unfolding act follow
  act-replayed env id a args e h = elim (Option-cases (allowed e.current_state a)) [
    | inl refused ↦ rw (refused, act) h
    | inr (to, fine) ↦
        rw (fine, act)
          (replay-append e.current_state to e.history
            (event_of id (some e.current_state) to (some a) env args) h (ground arith))
  ]

  event-Carries :
      (env : Env) (id : Str) (from : Option LifecycleState) (to : LifecycleState)
      (a : Option ActionType) (args : Args J)
      → env.uuid ≢ []
      → Carries id (event_of id from to a env args)
  event-Carries env id from to a args g = (refl, or_else-ne-nil args.decision_id env.uuid g)

  act-labelled :
      (env : Env) (id : Str) (a : ActionType) (args : Args J) (e : StrategyLifecycle J)
      → env.uuid ≢ []
      → All (Carries id) e.history
      → All (Carries id) (act env id a args e).history
  unfolding act
  act-labelled env id a args e g h = elim (Option-cases (allowed e.current_state a)) [
    | inl refused ↦ rw (refused, act) h
    | inr (to, fine) ↦
        rw (fine, act)
          (All-append (Carries id) e.history _ h
            (event-Carries env id (some e.current_state) to (some a) args g, tt))
  ]

  act-IsTraced :
      (env : Env) (id : Str) (a : ActionType) (args : Args J) (e : StrategyLifecycle J)
      → env.uuid ≢ []
      → IsTraced id e
      → IsTraced id (act env id a args e)
  act-IsTraced env id a args e g h = record {
    replayed = act-replayed env id a args e h.replayed;
    labelled = act-labelled env id a args e g h.labelled;
  }

  start_characterized-IsTraced :
      (s : LifecycleState) (env : Env) (id : Str) (args : Args J) (e : StrategyLifecycle J)
      → e.current_state ≡ s
      → env.uuid ≢ []
      → IsTraced id e
      → IsTraced id (start_characterized s env id args e)
  unfolding start_characterized follow
  start_characterized-IsTraced LifecycleState.registered env id args e p g h =
      let event =
        event_of id (some LifecycleState.registered) LifecycleState.characterized none env args in
      record {
        replayed =
            replay-append LifecycleState.registered LifecycleState.characterized e.history event
              (rw p at h.replayed) (ground arith);
        labelled = All-append (Carries id) e.history _ h.labelled (
          event-Carries env id (some LifecycleState.registered) LifecycleState.characterized none
              args g,
          tt,
        );
      }
  start_characterized-IsTraced _ env id args e p g h = h

  step_entry-IsTraced :
      (env : Env) (c : Command J) (e : StrategyLifecycle J)
      → env.uuid ≢ []
      → IsTraced (target c) e
      → IsTraced (target c) (step_entry env c e)
  unfolding step_entry
  step_entry-IsTraced env (Command.register id d args) e g h = h
  step_entry-IsTraced env (Command.characterize id args) e g h =
      start_characterized-IsTraced e.current_state env id args e refl g h
  step_entry-IsTraced env (Command.admit id args) e g h = act-IsTraced env id _ args e g h
  step_entry-IsTraced env (Command.admit_small id args) e g h = act-IsTraced env id _ args e g h
  step_entry-IsTraced env (Command.reject id args) e g h = act-IsTraced env id _ args e g h
  step_entry-IsTraced env (Command.promote id args) e g h = act-IsTraced env id _ args e g h
  step_entry-IsTraced env (Command.demote id args) e g h = act-IsTraced env id _ args e g h
  step_entry-IsTraced env (Command.retire id args) e g h = act-IsTraced env id _ args e g h

  genesis-IsTraced :
      (id : Str) (env : Env) (d : List (Str × J)) (args : Args J)
      → env.uuid ≢ []
      → IsTraced id (genesis env id d args)
  unfolding genesis replay replay_from LifecycleState-discrete
  genesis-IsTraced id env d args g = record {
    replayed = refl;
    labelled = (event-Carries env id none LifecycleState.registered none args g, tt);
  }

  -- After any sequence of calls on an empty store, every record is the one that its own history
  -- replays to, link by link from the genesis event, and every event of it names the strategy and
  -- carries a non-empty decision id, provided that the generated ids are not empty.
  pub run-IsTraced :
      (cs : List (Env × Command J)) (id : Str)
      → All (λ call. call.0.uuid ≢ []) cs
      → Holds (IsTraced id) (lookup Str-discrete id (run [] cs))
  unfolding lookup
  run-IsTraced cs id g = rw (lookup-run id [] cs) (
      run_one-Holds (IsTraced id) id (λ env. env.uuid ≢ [])
        (λ env d args. genesis-IsTraced id env d args)
        (λ env c e ok_env t h.
          subst (λ k. IsTraced k (step_entry env c e)) t
            (step_entry-IsTraced env c e ok_env (subst (λ k. IsTraced k e) (sym t) h)))
        cs none g tt)
