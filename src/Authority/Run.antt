-- ===== src/Authority/Run.antt =====
-- Sequences of calls on the authority store: an operator's and the router's, in any order.
use petrosa_cio.Prelude.{Str, List, [], ◌∷◌}
use petrosa_cio.Models.{ActionType, Env}
use petrosa_cio.Authority
use petrosa_cio.Authority.{ActionAuthority, AuthorityStore, Request}

-- A call that may change the store, with its arguments.
pub data Op {ℓ} (J : Type ℓ) : Type ℓ where
  set_state : ActionType → ActionAuthority → Str → Str → Op J
  apply_authority : Request J → Op J
  approve_pending reject_pending : Str → Str → Str → Op J

module _ {ℓ} {J : Type ℓ} where
  -- The store that the call leaves.
  unfoldable pub perform : AuthorityStore J → Env → Op J → AuthorityStore J
  perform store env (Op.set_state action new_state operator_id reason) =
      (Authority.set_state store env action new_state operator_id reason).0
  perform store env (Op.apply_authority r) = (Authority.apply_authority store env r).0
  perform store env (Op.approve_pending queue_id operator_id reason) =
      (Authority.approve_pending store env queue_id operator_id reason).0
  perform store env (Op.reject_pending queue_id operator_id reason) =
      (Authority.reject_pending store env queue_id operator_id reason).0

  unfoldable pub run : AuthorityStore J → List (Env × Op J) → AuthorityStore J
  run store [] = store
  run store ((env, op) ∷ ops) = run (perform store env op) ops
