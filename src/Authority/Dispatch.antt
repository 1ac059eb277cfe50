-- ===== src/Authority/Dispatch.antt =====
-- What `apply_authority` tells the router, and that a disabled action is never replaced by one
-- that trades.
use petrosa_cio.Prelude.{
  ◌≡◌, refl, ◌⊎◌, Bool, true, false, Str, Option, none, some, List, [], ◌∷◌, ◌∙◌, ok, arith,
}
use petrosa_cio.Prelude.Dict.{lookup}
use petrosa_cio.Models.{ActionType, ActionType-discrete, Env}
use petrosa_cio.Authority.{
  ActionAuthority, AuthorityStore, AuthorityDecision, Request, default_fallbacks, fallbacks_or,
  init, record_change, set_state, pop_pending, resolve_pending, approve_pending, reject_pending,
  get_state, get_fallback, pending_of, enqueue_pending, apply_state, apply_authority,
}
use petrosa_cio.Authority.Audit.{current, configured, run-IsAudited}
use petrosa_cio.Authority.Run.{Op, perform, run}

-- The actions that dispatch nothing to an exchange and start nothing.
abbrev pub IsSafe : ActionType → Type 0
IsSafe a = (a ≡ ActionType.skip) ⊎ ((a ≡ ActionType.block) ⊎ (a ≡ ActionType.reject))

-- The replacement that a store with the default fallbacks gives any action.
fallback-IsSafe :
    (a : ActionType) (o : Option ActionType)
    → lookup ActionType-discrete a default_fallbacks ≡ o
    → IsSafe (elim o [ none ↦ ActionType.skip | some b ↦ b ])
unfolding default_fallbacks lookup ActionType-discrete
fallback-IsSafe ActionType.execute o h = ground arith
fallback-IsSafe _ o h = ground arith

module _ {ℓ} {J : Type ℓ} where
  get_fallback-IsSafe :
      (store : AuthorityStore J) (a : ActionType)
      → store.fallbacks ≡ default_fallbacks
      → IsSafe (get_fallback store a)
  unfolding get_fallback
  get_fallback-IsSafe store a h =
      ground (arith, fallback-IsSafe a (lookup ActionType-discrete a default_fallbacks) refl)

  fallbacks-set_state :
      (store : AuthorityStore J) (env : Env) (a : ActionType) (s : ActionAuthority) (o reason : Str)
      → (set_state store env a s o reason).0.fallbacks ≡ store.fallbacks
  unfolding set_state record_change
  fallbacks-set_state store env a s [] reason = refl
  fallbacks-set_state store env a s (c ∷ o) reason = ground arith

  fallbacks-resolve_pending :
      (store : AuthorityStore J) (env : Env) (q : Str) (approved : Bool) (o reason : Str)
      → (resolve_pending store env q approved o reason).0.fallbacks ≡ store.fallbacks
  unfolding resolve_pending pop_pending
  fallbacks-resolve_pending store env q approved [] reason = refl
  fallbacks-resolve_pending store env q approved (c ∷ o) reason = ground arith

  fallbacks-apply_authority :
      (store : AuthorityStore J) (env : Env) (r : Request J)
      → (apply_authority store env r).0.fallbacks ≡ store.fallbacks
  unfolding apply_authority apply_state enqueue_pending
  fallbacks-apply_authority store env r = ground arith

  fallbacks-run :
      (store : AuthorityStore J) (ops : List (Env × Op J))
      → (run store ops).fallbacks ≡ store.fallbacks
  unfolding run perform approve_pending reject_pending
  fallbacks-run store [] = refl
  fallbacks-run store ((env, Op.set_state a s o reason) ∷ ops) =
      fallbacks-run (set_state store env a s o reason).0 ops
      ∙ fallbacks-set_state store env a s o reason
  fallbacks-run store ((env, Op.apply_authority r) ∷ ops) =
      fallbacks-run (apply_authority store env r).0 ops ∙ fallbacks-apply_authority store env r
  fallbacks-run store ((env, Op.approve_pending q o reason) ∷ ops) =
      fallbacks-run (resolve_pending store env q true o reason).0 ops
      ∙ fallbacks-resolve_pending store env q true o reason
  fallbacks-run store ((env, Op.reject_pending q o reason) ∷ ops) =
      fallbacks-run (resolve_pending store env q false o reason).0 ops
      ∙ fallbacks-resolve_pending store env q false o reason

  -- What the router may be told of a request, by the state of its action: to dispatch it; that it
  -- waits in the queue; or to dispatch a safe action in its place.
  abbrev pub Answers : ActionAuthority → Env → Request J → AuthorityDecision J → Type ℓ
  Answers ActionAuthority.enabled env r d =
      d ≡ record { action = r.action; pending = none; was_disabled = false; original = r.action }
  Answers ActionAuthority.operator_approval_required env r d = d ≡ record {
    action = r.action;
    pending = some (pending_of env r);
    was_disabled = false;
    original = r.action;
  }
  Answers ActionAuthority.disabled env r d =
      (safe : ActionType) × IsSafe safe
      × (d ≡ record { action = safe; pending = none; was_disabled = true; original = r.action })

  apply_state-Answers :
      (s : ActionAuthority) (store : AuthorityStore J) (env : Env) (r : Request J)
      → store.fallbacks ≡ default_fallbacks
      → (d : AuthorityDecision J) × ((apply_state s store env r).1 ≡ ok d) × Answers s env r d
  unfolding apply_state enqueue_pending
  apply_state-Answers ActionAuthority.enabled store env r h = (
    record { action = r.action; pending = none; was_disabled = false; original = r.action },
    refl,
    refl,
  )
  apply_state-Answers ActionAuthority.operator_approval_required store env r h = (
    record {
      action = r.action;
      pending = some (pending_of env r);
      was_disabled = false;
      original = r.action;
    },
    refl,
    refl,
  )
  apply_state-Answers ActionAuthority.disabled store env r h =
      let safe = get_fallback store r.action in
      (
        record { action = safe; pending = none; was_disabled = true; original = r.action },
        refl,
        (safe, get_fallback-IsSafe store r.action h, refl),
      )

  -- However the states were configured and whatever calls were made, with the default fallbacks
  -- `apply_authority` never raises. It answers by the state that the audit log tells of the action:
  -- an enabled action is dispatched as it is; one that needs approval waits in the queue with its
  -- request; a disabled one is replaced by SKIP, BLOCK or REJECT.
  pub run-Answers :
      (defaults : List (ActionType × ActionAuthority)) (ops : List (Env × Op J)) (env : Env)
      (r : Request J)
      → let store = run (init defaults none) ops in
        (d : AuthorityDecision J) × ((apply_authority store env r).1 ≡ ok d)
        × Answers (current (configured defaults r.action) r.action store.audit) env r d
  unfolding apply_authority get_state init fallbacks_or
  run-Answers defaults ops env r =
      let store = run (init defaults none) ops in
      let told = (run-IsAudited defaults none ops).told r.action in
      let (d, e, a) =
        apply_state-Answers (current (configured defaults r.action) r.action store.audit) store env
          r (fallbacks-run (init defaults none) ops) in
      (d, ground arith, a)
