-- ===== src/Lifecycle.antt =====
-- The strategy lifecycle authority (cio/core/lifecycle.py): the states, the table of permitted
-- transitions, and `StrategyLifecycleStore`. A method returns the store that it leaves beside its
-- result. Each runs under the store's one mutex, so a concurrent history is a sequence of calls.
-- `J` is the type of the values inside the free-form dictionaries (`Any`).
use petrosa_cio.Prelude.{
  ℕ, Str, Str-discrete, Option, none, some, List, [], ◌∷◌, ◌++◌, map, Result, ok, raise, or_else,
}
use petrosa_cio.Prelude.Dict.{Dict, lookup, insert}
use petrosa_cio.Models.{ActionType, Env}
pub mod Run
pub mod Machine
pub mod History
pub mod Terminal
pub mod Admission
pub mod Outcome
mod Tests

pub data LifecycleState : Type 0 where
  registered characterized admitted on_trial graduated demoted retired rejected : LifecycleState

-- `_ALLOWED.get((from_state, action))`.
pub allowed : LifecycleState → ActionType → Option LifecycleState
allowed LifecycleState.characterized ActionType.admit = some LifecycleState.admitted
allowed LifecycleState.characterized ActionType.admit_small = some LifecycleState.on_trial
allowed LifecycleState.characterized ActionType.reject = some LifecycleState.rejected
allowed LifecycleState.on_trial ActionType.promote = some LifecycleState.graduated
allowed LifecycleState.on_trial ActionType.demote = some LifecycleState.demoted
allowed LifecycleState.graduated ActionType.demote = some LifecycleState.demoted
allowed LifecycleState.graduated ActionType.retire = some LifecycleState.retired
allowed LifecycleState.demoted ActionType.promote = some LifecycleState.graduated
allowed LifecycleState.demoted ActionType.retire = some LifecycleState.retired
allowed LifecycleState.admitted ActionType.retire = some LifecycleState.retired
allowed LifecycleState.admitted ActionType.demote = some LifecycleState.demoted
allowed _ _ = none

-- The exceptions, with the values that their messages show.
pub data Error : Type 0 where
  strategy_not_registered : Str → Error
  strategy_already_registered : Str → Error
  cannot_act : Str → ActionType → LifecycleState → Error
  cannot_characterize : Str → LifecycleState → Error

pub record LifecycleEvent {ℓ} (J : Type ℓ) : Type ℓ where
  pub strategy_id : Str
  pub from_state : Option LifecycleState
  pub to_state : LifecycleState
  pub action : Option ActionType
  pub decision_id : Str
  pub reasoning : List (Str × J)
  pub at : ℕ

pub record StrategyLifecycle {ℓ} (J : Type ℓ) : Type ℓ where
  pub strategy_id : Str
  pub definition : List (Str × J)
  pub current_state : LifecycleState
  pub history : List (LifecycleEvent J)

-- The keyword arguments that every mutating method takes.
pub record Args {ℓ} (J : Type ℓ) : Type ℓ where
  pub decision_id : Option Str
  pub reasoning : Option (List (Str × J))

-- `self._strategies`.
abbrev pub Store {ℓ} : Type ℓ → Type ℓ
Store J = List (Str × StrategyLifecycle J)

module _ {ℓ} {J : Type ℓ} where
  -- `dict(reasoning or {})`.
  abbrev pub reasoning_or : Option (List (Str × J)) → List (Str × J)
  reasoning_or none = []
  reasoning_or (some r) = r

  -- The event that a move of `id` records, built from the arguments and the surroundings.
  abbrev pub event_of :
      Str
      → Option LifecycleState
      → LifecycleState
      → Option ActionType
      → Env
      → Args J
      → LifecycleEvent J
  event_of id from to action env args = record {
    strategy_id = id;
    from_state = from;
    to_state = to;
    action = action;
    decision_id = or_else args.decision_id env.uuid;
    reasoning = reasoning_or args.reasoning;
    at = env.now;
  }

  -- `record.current_state = to_state; record.history.append(event)`.
  abbrev pub moved : StrategyLifecycle J → LifecycleEvent J → StrategyLifecycle J
  moved entry event = record entry {
    current_state = event.to_state;
    history = entry.history ++ event ∷ [];
  }

  pub register :
      Store J → Env → Str → List (Str × J) → Args J → Store J × Result Error (LifecycleEvent J)
  register store env id definition args =
      let event = event_of id none LifecycleState.registered none env args in
      elim (lookup Str-discrete id store) [
        | some _ ↦ (store, raise (strategy_already_registered id))
        | none ↦ (
          insert Str-discrete id
              (record {
                strategy_id = id;
                definition = definition;
                current_state = LifecycleState.registered;
                history = event ∷ [];
              })
              store,
          ok event,
        )
      ]

  -- What `_transition` does with the record that it found.
  transition_entry :
      Store J
      → Env
      → Str
      → ActionType
      → Args J
      → StrategyLifecycle J
      → Store J × Result Error (LifecycleEvent J)
  transition_entry store env id action args entry = elim (allowed entry.current_state action) [
    | none ↦ (store, raise (cannot_act id action entry.current_state))
    | some to ↦
        let event = event_of id (some entry.current_state) to (some action) env args in
        (insert Str-discrete id (moved entry event) store, ok event)
  ]

  pub transition :
      Store J → Env → Str → ActionType → Args J → Store J × Result Error (LifecycleEvent J)
  unfolding transition_entry
  transition store env id action args = elim (lookup Str-discrete id store) [
    | none ↦ (store, raise (strategy_not_registered id))
    | some entry ↦ transition_entry store env id action args entry
  ]

  -- What `characterize` does with the record that it found, by its current state.
  characterize_entry :
      LifecycleState
      → Store J
      → Env
      → Str
      → Args J
      → StrategyLifecycle J
      → Store J × Result Error (LifecycleEvent J)
  characterize_entry LifecycleState.registered store env id args entry =
      let event =
        event_of id (some LifecycleState.registered) LifecycleState.characterized none env args in
      (insert Str-discrete id (moved entry event) store, ok event)
  characterize_entry other store env id args entry = (store, raise (cannot_characterize id other))

  pub characterize : Store J → Env → Str → Args J → Store J × Result Error (LifecycleEvent J)
  unfolding characterize_entry
  characterize store env id args = elim (lookup Str-discrete id store) [
    | none ↦ (store, raise (strategy_not_registered id))
    | some entry ↦ characterize_entry entry.current_state store env id args entry
  ]

  pub admit : Store J → Env → Str → Args J → Store J × Result Error (LifecycleEvent J)
  admit store env id args = transition store env id ActionType.admit args

  pub admit_small : Store J → Env → Str → Args J → Store J × Result Error (LifecycleEvent J)
  admit_small store env id args = transition store env id ActionType.admit_small args

  pub reject : Store J → Env → Str → Args J → Store J × Result Error (LifecycleEvent J)
  reject store env id args = transition store env id ActionType.reject args

  pub promote : Store J → Env → Str → Args J → Store J × Result Error (LifecycleEvent J)
  promote store env id args = transition store env id ActionType.promote args

  pub demote : Store J → Env → Str → Args J → Store J × Result Error (LifecycleEvent J)
  demote store env id args = transition store env id ActionType.demote args

  pub retire : Store J → Env → Str → Args J → Store J × Result Error (LifecycleEvent J)
  retire store env id args = transition store env id ActionType.retire args

  -- The three readers of one record.
  pub get_state : Store J → Str → Result Error LifecycleState
  get_state store id = elim (lookup Str-discrete id store) [
    | none ↦ raise (strategy_not_registered id)
    | some entry ↦ ok entry.current_state
  ]

  pub get_history : Store J → Str → Result Error (List (LifecycleEvent J))
  get_history store id = elim (lookup Str-discrete id store) [
    | none ↦ raise (strategy_not_registered id)
    | some entry ↦ ok entry.history
  ]

  pub get_definition : Store J → Str → Result Error (List (Str × J))
  get_definition store id = elim (lookup Str-discrete id store) [
    | none ↦ raise (strategy_not_registered id)
    | some entry ↦ ok entry.definition
  ]

  pub list_strategies : Store J → List Str
  list_strategies store = map (λ item. item.0) store
