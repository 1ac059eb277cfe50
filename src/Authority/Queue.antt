-- ===== src/Authority/Queue.antt =====
-- The queue of decisions that wait for an operator: a decision stays until it is resolved, comes
-- back as it was queued, and is resolved once.
use petrosa_cio.Prelude.{
  Str, Str-discrete, ◌≡◌, ◌≢◌, refl, ◌∙◌, Bool, true, false, Option, none, some, List, [], ◌∷◌, All,
  Result, ok, raise, arith,
}
use petrosa_cio.Prelude.Dict.{lookup, lookup-insert, lookup-erase, lookup-insert_self}
use petrosa_cio.Models.{ActionType, Env}
use petrosa_cio.Authority.{
  Error, unknown_queue_id, ActionAuthority, AuthorityStore, PendingDecision, PendingResolution,
  Request, get_state, record_change, set_state, pending_of, enqueue_pending, pop_pending,
  resolve_pending, approve_pending, reject_pending, apply_state, apply_authority,
}
use petrosa_cio.Authority.Run.{Op, perform, run}

module _ {ℓ} {J : Type ℓ} where
  -- What the queue holds under an id.
  abbrev held : Str → AuthorityStore J → Option (PendingDecision J)
  held q store = lookup Str-discrete q store.pending

  -- The call does not resolve `q`.
  abbrev pub Spares : Str → Op J → Type 0
  Spares q (Op.approve_pending id o reason) = id ≢ q
  Spares q (Op.reject_pending id o reason) = id ≢ q
  Spares q _ = Unit

  held-set_state :
      (q : Str) (store : AuthorityStore J) (env : Env) (a : ActionType) (s : ActionAuthority)
      (o reason : Str)
      → held q (set_state store env a s o reason).0 ≡ held q store
  unfolding set_state record_change
  held-set_state q store env a s [] reason = refl
  held-set_state q store env a s (c ∷ o) reason = ground arith

  held-apply_state :
      (q : Str) (s : ActionAuthority) (store : AuthorityStore J) (env : Env) (r : Request J)
      → env.uuid ≢ q
      → held q (apply_state s store env r).0 ≡ held q store
  unfolding apply_state enqueue_pending
  held-apply_state q ActionAuthority.operator_approval_required store env r h =
      ground (arith, lookup-insert Str-discrete env.uuid q (pending_of env r) store.pending)
  held-apply_state q _ store env r h = refl

  held-apply_authority :
      (q : Str) (store : AuthorityStore J) (env : Env) (r : Request J)
      → env.uuid ≢ q
      → held q (apply_authority store env r).0 ≡ held q store
  unfolding apply_authority
  held-apply_authority q store env r h = go (get_state store r.action) refl
    where
      go :
          (x : Result Error ActionAuthority)
          → get_state store r.action ≡ x
          → held q (apply_authority store env r).0 ≡ held q store
      go (raise e) p = rw (p, apply_authority) refl
      go (ok s) p = rw (p, apply_authority) (held-apply_state q s store env r h)

  held-resolve_pending :
      (q id : Str) (store : AuthorityStore J) (env : Env) (approved : Bool) (o reason : Str)
      → id ≢ q
      → held q (resolve_pending store env id approved o reason).0 ≡ held q store
  unfolding resolve_pending pop_pending
  held-resolve_pending q id store env approved [] reason h = refl
  held-resolve_pending q id store env approved (c ∷ o) reason h =
      ground (arith, lookup-erase Str-discrete id q store.pending)

  held-perform :
      (q : Str) (store : AuthorityStore J) (env : Env) (op : Op J)
      → env.uuid ≢ q
      → Spares q op
      → held q (perform store env op) ≡ held q store
  unfolding perform approve_pending reject_pending
  held-perform q store env (Op.set_state a s o reason) u h = held-set_state q store env a s o reason
  held-perform q store env (Op.apply_authority r) u h = held-apply_authority q store env r u
  held-perform q store env (Op.approve_pending id o reason) u h =
      held-resolve_pending q id store env true o reason h
  held-perform q store env (Op.reject_pending id o reason) u h =
      held-resolve_pending q id store env false o reason h

  -- Calls that draw other ids and do not resolve `q`.
  abbrev pub Elsewhere : Str → List (Env × Op J) → Type 0
  Elsewhere q ops = All (λ call. (call.0.uuid ≢ q) × Spares q call.1) ops

  held-run :
      (q : Str) (store : AuthorityStore J) (ops : List (Env × Op J))
      → Elsewhere q ops
      → held q (run store ops) ≡ held q store
  unfolding run
  held-run q store [] h = refl
  held-run q store ((env, op) ∷ ops) h =
      held-run q (perform store env op) ops h.1 ∙ held-perform q store env op h.0.0 h.0.1

  -- The resolution that an operator gets of a waiting decision.
  abbrev pub resolved : Env → Str → Bool → Str → Str → PendingDecision J → PendingResolution J
  resolved env q approved o reason p = record {
    queue_id = q;
    approved = approved;
    operator_id = o;
    reason = reason;
    at = env.now;
    pending = p;
  }

  resolve_held :
      (q : Str) (store : AuthorityStore J) (env : Env) (approved : Bool) (o reason : Str)
      (p : PendingDecision J)
      → o ≢ []
      → held q store ≡ some p
      → (resolve_pending store env q approved o reason).1 ≡ ok (resolved env q approved o reason p)
  unfolding resolve_pending pop_pending
  resolve_held q store env approved [] reason p g h = absurd (g refl)
  resolve_held q store env approved (c ∷ o) reason p g h = ground arith

  resolve_absent :
      (q : Str) (store : AuthorityStore J) (env : Env) (approved : Bool) (o reason : Str)
      → o ≢ []
      → held q store ≡ none
      → (resolve_pending store env q approved o reason).1 ≡ raise (unknown_queue_id q)
  unfolding resolve_pending pop_pending
  resolve_absent q store env approved [] reason g h = absurd (g refl)
  resolve_absent q store env approved (c ∷ o) reason g h = ground arith

  held-hold :
      (store : AuthorityStore J) (env : Env) (r : Request J)
      → get_state store r.action ≡ ok ActionAuthority.operator_approval_required
      → held env.uuid (apply_authority store env r).0 ≡ some (pending_of env r)
  unfolding apply_authority apply_state enqueue_pending
  held-hold store env r h =
      rw (h, apply_authority)
        (lookup-insert_self Str-discrete env.uuid (pending_of env r) store.pending)

  -- A decision whose action needs approval is diverted to the queue; whatever other calls follow,
  -- as long as none resolves it and no generated id repeats its own, a named operator who resolves
  -- it is handed the decision exactly as it was diverted.
  pub resolve-apply :
      (store : AuthorityStore J) (env later : Env) (r : Request J) (ops : List (Env × Op J))
      (approved : Bool) (o reason : Str)
      → get_state store r.action ≡ ok ActionAuthority.operator_approval_required
      → Elsewhere env.uuid ops
      → o ≢ []
      → (resolve_pending
          (run (apply_authority store env r).0 ops)
          later
          env.uuid
          approved
          o
          reason).1
        ≡ ok (resolved later env.uuid approved o reason (pending_of env r))
  resolve-apply store env later r ops approved o reason h e g =
      resolve_held env.uuid (run (apply_authority store env r).0 ops) later approved o reason
        (pending_of env r) g
        (held-run env.uuid (apply_authority store env r).0 ops e ∙ held-hold store env r h)

  absent-resolve_pending :
      (q id : Str) (store : AuthorityStore J) (env : Env) (approved : Bool) (o reason : Str)
      → held q store ≡ none
      → held q (resolve_pending store env id approved o reason).0 ≡ none
  unfolding resolve_pending pop_pending
  absent-resolve_pending q id store env approved [] reason h = h
  absent-resolve_pending q id store env approved (c ∷ o) reason h =
      ground (arith, lookup-erase Str-discrete id q store.pending)

  absent-perform :
      (q : Str) (store : AuthorityStore J) (env : Env) (op : Op J)
      → env.uuid ≢ q
      → held q store ≡ none
      → held q (perform store env op) ≡ none
  unfolding perform approve_pending reject_pending
  absent-perform q store env (Op.set_state a s o reason) u h =
      held-set_state q store env a s o reason ∙ h
  absent-perform q store env (Op.apply_authority r) u h = held-apply_authority q store env r u ∙ h
  absent-perform q store env (Op.approve_pending id o reason) u h =
      absent-resolve_pending q id store env true o reason h
  absent-perform q store env (Op.reject_pending id o reason) u h =
      absent-resolve_pending q id store env false o reason h

  absent-run :
      (q : Str) (store : AuthorityStore J) (ops : List (Env × Op J))
      → All (λ call. call.0.uuid ≢ q) ops
      → held q store ≡ none
      → held q (run store ops) ≡ none
  unfolding run
  absent-run q store [] u h = h
  absent-run q store ((env, op) ∷ ops) u h =
      absent-run q (perform store env op) ops u.1 (absent-perform q store env op u.0 h)

  held-resolved :
      (q : Str) (store : AuthorityStore J) (env : Env) (approved : Bool) (o reason : Str)
      (res : PendingResolution J)
      → (resolve_pending store env q approved o reason).1 ≡ ok res
      → held q (resolve_pending store env q approved o reason).0 ≡ none
  unfolding resolve_pending pop_pending
  held-resolved q store env approved [] reason res h = absurd (cc)
  held-resolved q store env approved (c ∷ o) reason res h =
      ground (arith, lookup-erase Str-discrete q q store.pending)

  -- Once a decision is approved or rejected, every later attempt by a named operator to approve or
  -- reject it raises `KeyError`, whatever calls come between, as long as no generated id repeats
  -- its own.
  pub resolve_once :
      (q : Str) (store : AuthorityStore J) (env later : Env) (approved again : Bool)
      (o reason o' reason' : Str) (res : PendingResolution J) (ops : List (Env × Op J))
      → (resolve_pending store env q approved o reason).1 ≡ ok res
      → All (λ call. call.0.uuid ≢ q) ops
      → o' ≢ []
      → (resolve_pending
          (run (resolve_pending store env q approved o reason).0 ops)
          later
          q
          again
          o'
          reason').1
        ≡ raise (unknown_queue_id q)
  resolve_once q store env later approved again o reason o' reason' res ops h u g =
      let after = (resolve_pending store env q approved o reason).0 in
      resolve_absent q (run after ops) later again o' reason' g
        (absent-run q after ops u (held-resolved q store env approved o reason res h))
