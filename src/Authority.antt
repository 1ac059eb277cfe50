-- ===== src/Authority.antt =====
-- The per-action authority layer (cio/core/authority.py): `AuthorityStore`, which holds the state
-- of each action, the audit log and the queue of decisions that wait for an operator, and
-- `apply_authority`, which the router asks before it dispatches. Each method runs under the
-- store's one mutex, and returns the store that it leaves beside its result. `J` is the type of
-- the values inside the free-form payloads (`Any`).
use petrosa_cio.Prelude.{
  ℕ, Str, Str-discrete, Bool, true, false, Option, none, some, List, [], ◌∷◌, ◌++◌, map, foldl,
  Result, ok, raise,
}
use petrosa_cio.Prelude.Dict.{lookup, insert, erase}
use petrosa_cio.Models.{ActionType, ActionType-discrete, action_types, Env}
pub mod Run
pub mod Audit
pub mod Queue
pub mod Dispatch
pub mod Verdict
mod Tests

pub data ActionAuthority : Type 0 where
  enabled operator_approval_required disabled : ActionAuthority

-- `KeyError` with its key, or the `ValueError` of a missing operator.
pub data Error : Type 0 where
  unknown_action : ActionType → Error
  unknown_queue_id : Str → Error
  operator_id_required : Error

-- `DEFAULT_FALLBACKS`.
pub default_fallbacks : List (ActionType × ActionType)
default_fallbacks =
    (ActionType.execute, ActionType.skip)
    ∷ (ActionType.modify_params, ActionType.skip)
    ∷ (ActionType.pause_strategy, ActionType.block)
    ∷ (ActionType.escalate, ActionType.block)
    ∷ (ActionType.retry_safe, ActionType.skip)
    ∷ (ActionType.fail_safe, ActionType.block)
    ∷ (ActionType.down_weight, ActionType.skip)
    ∷ (ActionType.throttle, ActionType.skip)
    ∷ (ActionType.veto, ActionType.block)
    ∷ (ActionType.admit, ActionType.reject)
    ∷ (ActionType.admit_small, ActionType.reject)
    ∷ (ActionType.promote, ActionType.skip)
    ∷ (ActionType.demote, ActionType.skip)
    ∷ (ActionType.retire, ActionType.skip)
    ∷ []

pub record AuthorityChange : Type 0 where
  pub action : ActionType
  pub from_state : ActionAuthority
  pub to_state : ActionAuthority
  pub operator_id : Str
  pub reason : Str
  pub at : ℕ

pub record PendingDecision {ℓ} (J : Type ℓ) : Type ℓ where
  pub queue_id : Str
  pub action : ActionType
  pub strategy_id : Str
  pub decision_id : Str
  pub correlation_id : Str
  pub context_payload : List (Str × J)
  pub decision_payload : List (Str × J)
  pub at : ℕ

pub record PendingResolution {ℓ} (J : Type ℓ) : Type ℓ where
  pub queue_id : Str
  pub approved : Bool
  pub operator_id : Str
  pub reason : Str
  pub at : ℕ
  pub pending : PendingDecision J

pub record AuthorityStore {ℓ} (J : Type ℓ) : Type ℓ where
  pub state : List (ActionType × ActionAuthority)
  pub audit : List AuthorityChange
  pub pending : List (Str × PendingDecision J)
  pub fallbacks : List (ActionType × ActionType)

-- `AuthorityDecision`: what the router is told.
pub record AuthorityDecision {ℓ} (J : Type ℓ) : Type ℓ where
  pub action : ActionType
  pub pending : Option (PendingDecision J)
  pub was_disabled : Bool
  pub original : ActionType

-- The keyword arguments of `enqueue_pending` and `apply_authority`.
pub record Request {ℓ} (J : Type ℓ) : Type ℓ where
  pub action : ActionType
  pub strategy_id : Str
  pub decision_id : Str
  pub correlation_id : Str
  pub context_payload : List (Str × J)
  pub decision_payload : List (Str × J)

-- `{a: ActionAuthority.ENABLED for a in ActionType}`.
pub all_enabled : List (ActionType × ActionAuthority)
all_enabled = map (λ a. (a, ActionAuthority.enabled)) action_types

-- `self._state.update(defaults)`.
pub update_all :
    List (ActionType × ActionAuthority)
    → List (ActionType × ActionAuthority)
    → List (ActionType × ActionAuthority)
update_all m [] = m
update_all m ((a, s) ∷ defaults) = update_all (insert ActionType-discrete a s m) defaults

-- `fallbacks if fallbacks is not None else DEFAULT_FALLBACKS`.
pub fallbacks_or : Option (List (ActionType × ActionType)) → List (ActionType × ActionType)
unfolding default_fallbacks
fallbacks_or none = default_fallbacks
fallbacks_or (some fallbacks) = fallbacks

module _ {ℓ} {J : Type ℓ} where
  -- `__init__`. `if defaults:` skips an update by nothing, which changes nothing.
  pub init :
      List (ActionType × ActionAuthority)
      → Option (List (ActionType × ActionType))
      → AuthorityStore J
  unfolding fallbacks_or
  init defaults fallbacks = record {
    state = update_all all_enabled defaults;
    audit = [];
    pending = [];
    fallbacks = fallbacks_or fallbacks;
  }

  pub get_state : AuthorityStore J → ActionType → Result Error ActionAuthority
  get_state store action = elim (lookup ActionType-discrete action store.state) [
    | none ↦ raise (unknown_action action)
    | some s ↦ ok s
  ]

  -- `set_state`, once an operator is given: `not operator_id` is the test for the empty string.
  record_change :
      AuthorityStore J
      → Env
      → ActionType
      → ActionAuthority
      → Str
      → Str
      → AuthorityStore J × Result Error AuthorityChange
  record_change store env action new_state operator_id reason =
      elim (lookup ActionType-discrete action store.state) [
        | none ↦ (store, raise (unknown_action action))
        | some previous ↦
            let change : AuthorityChange = record {
              action = action;
              from_state = previous;
              to_state = new_state;
              operator_id = operator_id;
              reason = reason;
              at = env.now;
            } in
            (
              record store {
                state = insert ActionType-discrete action new_state store.state;
                audit = store.audit ++ change ∷ [];
              },
              ok change,
            )
      ]

  pub set_state :
      AuthorityStore J
      → Env
      → ActionType
      → ActionAuthority
      → Str
      → Str
      → AuthorityStore J × Result Error AuthorityChange
  unfolding record_change
  set_state store env action new_state [] reason = (store, raise operator_id_required)
  set_state store env action new_state (c ∷ operator_id) reason =
      record_change store env action new_state (c ∷ operator_id) reason

  pub get_fallback : AuthorityStore J → ActionType → ActionType
  get_fallback store action = elim (lookup ActionType-discrete action store.fallbacks) [
    | none ↦ ActionType.skip
    | some a ↦ a
  ]

  -- The decision that waits, under the queue id that `uuid4` gives.
  abbrev pub pending_of : Env → Request J → PendingDecision J
  pending_of env r = record {
    queue_id = env.uuid;
    action = r.action;
    strategy_id = r.strategy_id;
    decision_id = r.decision_id;
    correlation_id = r.correlation_id;
    context_payload = r.context_payload;
    decision_payload = r.decision_payload;
    at = env.now;
  }

  pub enqueue_pending : AuthorityStore J → Env → Request J → AuthorityStore J × PendingDecision J
  enqueue_pending store env r = (
    record store { pending = insert Str-discrete env.uuid (pending_of env r) store.pending },
    pending_of env r,
  )

  pub list_pending : AuthorityStore J → List (PendingDecision J)
  list_pending store = map (λ item. item.1) store.pending

  pub get_pending : AuthorityStore J → Str → Result Error (PendingDecision J)
  get_pending store queue_id = elim (lookup Str-discrete queue_id store.pending) [
    | none ↦ raise (unknown_queue_id queue_id)
    | some p ↦ ok p
  ]

  -- `_resolve_pending`, once an operator is given.
  pop_pending :
      AuthorityStore J
      → Env
      → Str
      → Bool
      → Str
      → Str
      → AuthorityStore J × Result Error (PendingResolution J)
  pop_pending store env queue_id approved operator_id reason =
      elim (lookup Str-discrete queue_id store.pending) [
        | none ↦ (store, raise (unknown_queue_id queue_id))
        | some p ↦ (
          record store { pending = erase Str-discrete queue_id store.pending },
          ok (record {
            queue_id = queue_id;
            approved = approved;
            operator_id = operator_id;
            reason = reason;
            at = env.now;
            pending = p;
          }),
        )
      ]

  pub resolve_pending :
      AuthorityStore J
      → Env
      → Str
      → Bool
      → Str
      → Str
      → AuthorityStore J × Result Error (PendingResolution J)
  unfolding pop_pending
  resolve_pending store env queue_id approved [] reason = (store, raise operator_id_required)
  resolve_pending store env queue_id approved (c ∷ operator_id) reason =
      pop_pending store env queue_id approved (c ∷ operator_id) reason

  pub approve_pending :
      AuthorityStore J
      → Env
      → Str
      → Str
      → Str
      → AuthorityStore J × Result Error (PendingResolution J)
  approve_pending store env queue_id operator_id reason =
      resolve_pending store env queue_id true operator_id reason

  pub reject_pending :
      AuthorityStore J
      → Env
      → Str
      → Str
      → Str
      → AuthorityStore J × Result Error (PendingResolution J)
  reject_pending store env queue_id operator_id reason =
      resolve_pending store env queue_id false operator_id reason

  -- What `apply_authority` does with the state that it read.
  apply_state :
      ActionAuthority
      → AuthorityStore J
      → Env
      → Request J
      → AuthorityStore J × Result Error (AuthorityDecision J)
  apply_state ActionAuthority.enabled store env r = (
    store,
    ok (record { action = r.action; pending = none; was_disabled = false; original = r.action }),
  )
  apply_state ActionAuthority.operator_approval_required store env r =
      let (store', p) = enqueue_pending store env r in
      (
        store',
        ok (record {
          action = r.action;
          pending = some p;
          was_disabled = false;
          original = r.action;
        }),
      )
  apply_state ActionAuthority.disabled store env r = (
    store,
    ok (record {
      action = get_fallback store r.action;
      pending = none;
      was_disabled = true;
      original = r.action;
    }),
  )

  -- The exception of `get_state`, if it raises, passes through.
  pub apply_authority :
      AuthorityStore J → Env → Request J → AuthorityStore J × Result Error (AuthorityDecision J)
  unfolding apply_state
  apply_authority store env r = elim (get_state store r.action) [
    | raise e ↦ (store, raise e)
    | ok s ↦ apply_state s store env r
  ]
