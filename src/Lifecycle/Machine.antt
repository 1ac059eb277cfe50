-- ===== src/Lifecycle/Machine.antt =====
-- The lifecycle of one strategy on its own: what a call of the store leaves of the record of one
-- strategy, and that the store is nothing but these machines side by side.
use petrosa_cio.Prelude.{
  Str, Str-discrete, ◌≡◌, refl, sym, subst, Holds, ite, if_pos, if_neg, Option, none, some, List,
  [], ◌∷◌, All, arith,
}
use petrosa_cio.Prelude.Dict.{lookup, lookup-insert}
use petrosa_cio.Models.{ActionType, Env}
use petrosa_cio.Lifecycle.{
  LifecycleState, Store, Args, StrategyLifecycle, allowed, event_of, moved, register, transition,
  characterize, admit, admit_small, reject, promote, demote, retire,
}
use petrosa_cio.Lifecycle.Run.{Command, perform, run}

module _ {ℓ} {J : Type ℓ} where
  -- The strategy that a call names.
  abbrev pub target : Command J → Str
  target (Command.register id definition args) = id
  target (Command.characterize id args) = id
  target (Command.admit id args) = id
  target (Command.admit_small id args) = id
  target (Command.reject id args) = id
  target (Command.promote id args) = id
  target (Command.demote id args) = id
  target (Command.retire id args) = id

  -- An action on a record: a move along the table, or nothing.
  unfoldable pub act : Env → Str → ActionType → Args J → StrategyLifecycle J → StrategyLifecycle J
  act env id action args entry = elim (allowed entry.current_state action) [
    | none ↦ entry
    | some to ↦ moved entry (event_of id (some entry.current_state) to (some action) env args)
  ]

  unfoldable pub start_characterized :
      LifecycleState → Env → Str → Args J → StrategyLifecycle J → StrategyLifecycle J
  start_characterized LifecycleState.registered env id args entry =
      moved entry
        (event_of id (some LifecycleState.registered) LifecycleState.characterized none env args)
  start_characterized other env id args entry = entry

  -- A call on the record of a registered strategy.
  unfoldable pub step_entry : Env → Command J → StrategyLifecycle J → StrategyLifecycle J
  step_entry env (Command.register id definition args) entry = entry
  step_entry env (Command.characterize id args) entry =
      start_characterized entry.current_state env id args entry
  step_entry env (Command.admit id args) entry = act env id ActionType.admit args entry
  step_entry env (Command.admit_small id args) entry = act env id ActionType.admit_small args entry
  step_entry env (Command.reject id args) entry = act env id ActionType.reject args entry
  step_entry env (Command.promote id args) entry = act env id ActionType.promote args entry
  step_entry env (Command.demote id args) entry = act env id ActionType.demote args entry
  step_entry env (Command.retire id args) entry = act env id ActionType.retire args entry

  unfoldable pub genesis : Env → Str → List (Str × J) → Args J → StrategyLifecycle J
  genesis env id definition args = record {
    strategy_id = id;
    definition = definition;
    current_state = LifecycleState.registered;
    history = event_of id none LifecycleState.registered none env args ∷ [];
  }

  -- A call on the record, if any: only `register` makes one.
  unfoldable pub step :
      Env → Command J → Option (StrategyLifecycle J) → Option (StrategyLifecycle J)
  step env c (some entry) = some (step_entry env c entry)
  step env (Command.register id definition args) none = some (genesis env id definition args)
  step env c none = none

  lookup-transition :
      (store : Store J) (env : Env) (key id : Str) (action : ActionType) (args : Args J)
      (o : Option (StrategyLifecycle J))
      → lookup Str-discrete key store ≡ o
      → lookup Str-discrete id (transition store env key action args).0
        ≡ ite
            (Str-discrete key id)
            (elim o [ none ↦ none | some e ↦ some (act env key action args e) ])
            (lookup Str-discrete id store)
  unfolding transition act
  lookup-transition store env key id action args none h = ground arith
  lookup-transition store env key id action args (some e) h =
      ground (arith, lookup-insert Str-discrete key id (act env key action args e) store)

  lookup-characterize :
      (store : Store J) (env : Env) (key id : Str) (args : Args J)
      (o : Option (StrategyLifecycle J))
      → lookup Str-discrete key store ≡ o
      → lookup Str-discrete id (characterize store env key args).0
        ≡ ite
            (Str-discrete key id)
            (elim o [
              | none ↦ none
              | some e ↦ some (start_characterized e.current_state env key args e)
            ])
            (lookup Str-discrete id store)
  unfolding characterize start_characterized
  lookup-characterize store env key id args none h = ground arith
  lookup-characterize store env key id args (some e) h = ground (
    arith,
    lookup-insert Str-discrete key id (start_characterized e.current_state env key args e) store,
  )

  lookup-register :
      (store : Store J) (env : Env) (key id : Str) (definition : List (Str × J)) (args : Args J)
      (o : Option (StrategyLifecycle J))
      → lookup Str-discrete key store ≡ o
      → lookup Str-discrete id (register store env key definition args).0
        ≡ ite
            (Str-discrete key id)
            (elim o [ none ↦ some (genesis env key definition args) | some e ↦ some e ])
            (lookup Str-discrete id store)
  unfolding register genesis
  lookup-register store env key id definition args none h =
      ground (arith, lookup-insert Str-discrete key id (genesis env key definition args) store)
  lookup-register store env key id definition args (some e) h = ground arith

  -- A call changes the record of the strategy that it names, by the machine, and no other record.
  pub lookup-perform :
      (store : Store J) (env : Env) (c : Command J) (id : Str)
      → lookup Str-discrete id (perform store env c).0
        ≡ ite
            (Str-discrete (target c) id)
            (step env c (lookup Str-discrete id store))
            (lookup Str-discrete id store)
  unfolding perform step step_entry admit admit_small reject promote demote retire
  lookup-perform store env (Command.register key definition args) id =
      ground (arith, lookup-register store env key id definition args _ refl)
  lookup-perform store env (Command.characterize key args) id =
      ground (arith, lookup-characterize store env key id args _ refl)
  lookup-perform store env (Command.admit key args) id =
      ground (arith, lookup-transition store env key id ActionType.admit args _ refl)
  lookup-perform store env (Command.admit_small key args) id =
      ground (arith, lookup-transition store env key id ActionType.admit_small args _ refl)
  lookup-perform store env (Command.reject key args) id =
      ground (arith, lookup-transition store env key id ActionType.reject args _ refl)
  lookup-perform store env (Command.promote key args) id =
      ground (arith, lookup-transition store env key id ActionType.promote args _ refl)
  lookup-perform store env (Command.demote key args) id =
      ground (arith, lookup-transition store env key id ActionType.demote args _ refl)
  lookup-perform store env (Command.retire key args) id =
      ground (arith, lookup-transition store env key id ActionType.retire args _ refl)

  -- The machine of one strategy over a sequence of calls: calls that name another are skipped.
  unfoldable pub run_one :
      Str → Option (StrategyLifecycle J) → List (Env × Command J) → Option (StrategyLifecycle J)
  run_one id o [] = o
  run_one id o ((env, c) ∷ cs) = run_one id (ite (Str-discrete (target c) id) (step env c o) o) cs

  -- For every store, sequence of calls and strategy: the record that the sequence leaves is what
  -- the machine of that strategy alone makes of its record, whatever the other strategies do.
  pub lookup-run :
      (id : Str) (store : Store J) (cs : List (Env × Command J))
      → lookup Str-discrete id (run store cs) ≡ run_one id (lookup Str-discrete id store) cs
  unfolding run run_one
  lookup-run id store [] = refl
  lookup-run id store ((env, c) ∷ cs) =
      rw (← lookup-perform store env c id) (lookup-run id (perform store env c).0 cs)

  -- A call keeps an invariant of records if `register` makes it and every call on a record keeps
  -- it. `Good` is what the invariant asks of the surroundings.
  module _ {κ} (P : StrategyLifecycle J → Type κ) (id : Str) (Good : Env → Type 0)
      (start : (env : Env) (d : List (Str × J)) (args : Args J)
        → Good env
        → P (genesis env id d args))
      (keep : (env : Env) (c : Command J) (e : StrategyLifecycle J)
        → Good env
        → target c ≡ id
        → P e
        → P (step_entry env c e)) where
    step-Holds :
        (env : Env) (c : Command J) (o : Option (StrategyLifecycle J))
        → Good env
        → target c ≡ id
        → Holds P o
        → Holds P (step env c o)
    unfolding step
    step-Holds env c (some e) g t h = keep env c e g t h
    step-Holds env (Command.register key d args) none g t h =
        subst (λ k. P (genesis env k d args)) (sym t) (start env d args g)
    step-Holds env c none g t h = tt

    pub run_one-Holds :
        (cs : List (Env × Command J)) (o : Option (StrategyLifecycle J))
        → All (λ call. Good call.0) cs
        → Holds P o
        → Holds P (run_one id o cs)
    unfolding run_one
    run_one-Holds [] o g h = h
    run_one-Holds ((env, c) ∷ cs) o g h = elim (Str-discrete (target c) id) [
      | yes same ↦
          rw (if_pos _ same) (run_one-Holds cs (step env c o) g.1 (step-Holds env c o g.0 same h))
      | no other ↦ rw (if_neg _ other) (run_one-Holds cs o g.1 h)
    ]
