-- ===== src/Authority/Audit.antt =====
-- The audit log against the standing configuration.
use petrosa_cio.Prelude.{
  Str, ◌≡◌, ◌≢◌, refl, ite, Option, none, some, List, [], ◌∷◌, ◌++◌, All, All-append, Bool, true,
  false, Result, ok, raise, arith,
}
use petrosa_cio.Prelude.Dict.{lookup, insert, lookup-insert}
use petrosa_cio.Models.{ActionType, ActionType-discrete, Env}
use petrosa_cio.Authority.{
  Error, ActionAuthority, AuthorityChange, AuthorityStore, Request, all_enabled, update_all, init,
  get_state, record_change, set_state, enqueue_pending, resolve_pending, approve_pending,
  reject_pending, apply_state, apply_authority,
}
use petrosa_cio.Authority.Run.{Op, perform, run}

-- The state of an action as the log tells it, from the state `s` that it was configured with.
unfoldable pub current : ActionAuthority → ActionType → List AuthorityChange → ActionAuthority
current s a [] = s
current s a (c ∷ cs) = current (ite (ActionType-discrete c.action a) c.to_state s) a cs

-- Each change starts from the state that the log before it tells.
abbrev pub Linked : (ActionType → ActionAuthority) → List AuthorityChange → Type 0
Linked start [] = Unit
Linked start (c ∷ cs) =
    (c.from_state ≡ start c.action)
    × Linked (λ a. ite (ActionType-discrete c.action a) c.to_state (start a)) cs

current-append :
    (s : ActionAuthority) (a : ActionType) (cs : List AuthorityChange) (c : AuthorityChange)
    → current s a (cs ++ c ∷ []) ≡ ite (ActionType-discrete c.action a) c.to_state (current s a cs)
unfolding current
current-append s a [] c = refl
current-append s a (d ∷ cs) c =
    current-append (ite (ActionType-discrete d.action a) d.to_state s) a cs c

Linked-append :
    (start : ActionType → ActionAuthority) (cs : List AuthorityChange) (c : AuthorityChange)
    → Linked start cs
    → c.from_state ≡ current (start c.action) c.action cs
    → Linked start (cs ++ c ∷ [])
unfolding current
Linked-append start [] c h e = (e, tt)
Linked-append start (d ∷ cs) c h e =
    (h.0, Linked-append (λ a. ite (ActionType-discrete d.action a) d.to_state (start a)) cs c h.1 e)

-- The state that the constructor gives an action: `enabled` unless `defaults` says otherwise.
unfoldable pub configured : List (ActionType × ActionAuthority) → ActionType → ActionAuthority
configured defaults a = elim (lookup ActionType-discrete a (update_all all_enabled defaults)) [
  | none ↦ ActionAuthority.enabled
  | some s ↦ s
]

lookup-all_enabled :
    (a : ActionType) → lookup ActionType-discrete a all_enabled ≡ some ActionAuthority.enabled
unfolding all_enabled lookup ActionType-discrete
lookup-all_enabled ActionType.execute = refl
lookup-all_enabled _ = refl

lookup-update_all :
    (a : ActionType) (defaults m : List (ActionType × ActionAuthority)) (s : ActionAuthority)
    → lookup ActionType-discrete a m ≡ some s
    → (t : ActionAuthority) × (lookup ActionType-discrete a (update_all m defaults) ≡ some t)
unfolding update_all
lookup-update_all a [] m s h = (s, h)
lookup-update_all a ((b, t) ∷ defaults) m s h = elim (ActionType-discrete b a) [
  | yes same ↦
      lookup-update_all a defaults (insert ActionType-discrete b t m) t
        (ground (arith, lookup-insert ActionType-discrete b a t m))
  | no other ↦
      lookup-update_all a defaults (insert ActionType-discrete b t m) s
        (ground (arith, lookup-insert ActionType-discrete b a t m))
]

lookup-configured :
    (defaults : List (ActionType × ActionAuthority)) (a : ActionType)
    → lookup ActionType-discrete a (update_all all_enabled defaults) ≡ some (configured defaults a)
unfolding configured
lookup-configured defaults a =
    let (t, h) =
      lookup-update_all a defaults all_enabled ActionAuthority.enabled (lookup-all_enabled a) in
    ground arith

module _ {ℓ} {J : Type ℓ} where
  -- The standing configuration is what the log tells, action by action; the log is linked; every
  -- change has an operator.
  pub record IsAudited (start : ActionType → ActionAuthority) (store : AuthorityStore J)
      : Type 0 where
    pub told :
        (a : ActionType)
        → lookup ActionType-discrete a store.state ≡ some (current (start a) a store.audit)
    pub linked : Linked start store.audit
    pub signed : All (λ c. c.operator_id ≢ []) store.audit

  init-IsAudited :
      (defaults : List (ActionType × ActionAuthority)) (f : Option (List (ActionType × ActionType)))
      → IsAudited (configured defaults) (init {J = J} defaults f)
  unfolding init current
  init-IsAudited defaults f = record { told = lookup-configured defaults; linked = tt; signed = tt }

  record_change-IsAudited :
      (start : ActionType → ActionAuthority) (store : AuthorityStore J) (env : Env) (a : ActionType)
      (s : ActionAuthority) (operator_id reason : Str)
      → operator_id ≢ []
      → IsAudited start store
      → IsAudited start (record_change store env a s operator_id reason).0
  unfolding record_change
  record_change-IsAudited start store env a s operator_id reason given h =
      let change : AuthorityChange = record {
        action = a;
        from_state = current (start a) a store.audit;
        to_state = s;
        operator_id = operator_id;
        reason = reason;
        at = env.now;
      } in
      rw (h.told a, record_change)
        (record {
          told = λ b. ground (
            arith,
            h.told b,
            lookup-insert ActionType-discrete a b s store.state,
            current-append (start b) b store.audit change,
          );
          linked = Linked-append start store.audit change h.linked refl;
          signed = All-append (λ c. c.operator_id ≢ []) store.audit _ h.signed (given, tt);
        })

  set_state-IsAudited :
      (start : ActionType → ActionAuthority) (store : AuthorityStore J) (env : Env) (a : ActionType)
      (s : ActionAuthority) (operator_id reason : Str)
      → IsAudited start store
      → IsAudited start (set_state store env a s operator_id reason).0
  unfolding set_state
  set_state-IsAudited start store env a s [] reason h = h
  set_state-IsAudited start store env a s (c ∷ o) reason h =
      record_change-IsAudited start store env a s (c ∷ o) reason (cc) h

  -- A call that leaves the configuration and the log alone.
  abbrev Same : AuthorityStore J → AuthorityStore J → Type 0
  Same store store' = (store'.state ≡ store.state) × (store'.audit ≡ store.audit)

  Same-IsAudited :
      (start : ActionType → ActionAuthority) (store store' : AuthorityStore J)
      → Same store store'
      → IsAudited start store
      → IsAudited start store'
  Same-IsAudited start store store' (p, q) h = record {
    told = λ a. rw (p, q) (h.told a);
    linked = rw q h.linked;
    signed = rw q h.signed;
  }

  resolve_pending-Same :
      (store : AuthorityStore J) (env : Env) (q : Str) (approved : Bool) (o reason : Str)
      → Same store (resolve_pending store env q approved o reason).0
  unfolding resolve_pending
  resolve_pending-Same store env q approved [] reason = (refl, refl)
  resolve_pending-Same store env q approved (c ∷ o) reason = (ground arith, ground arith)

  apply_state-Same :
      (s : ActionAuthority) (store : AuthorityStore J) (env : Env) (r : Request J)
      → Same store (apply_state s store env r).0
  unfolding apply_state enqueue_pending
  apply_state-Same ActionAuthority.enabled store env r = (refl, refl)
  apply_state-Same _ store env r = (refl, refl)

  apply_authority-Same :
      (store : AuthorityStore J) (env : Env) (r : Request J)
      → Same store (apply_authority store env r).0
  unfolding apply_authority
  apply_authority-Same store env r = go (get_state store r.action) refl
    where
      go :
          (x : Result Error ActionAuthority)
          → get_state store r.action ≡ x
          → Same store (apply_authority store env r).0
      go (raise e) h = rw (h, apply_authority) (refl, refl)
      go (ok s) h = rw (h, apply_authority) (apply_state-Same s store env r)

  perform-IsAudited :
      (start : ActionType → ActionAuthority) (store : AuthorityStore J) (env : Env) (op : Op J)
      → IsAudited start store
      → IsAudited start (perform store env op)
  unfolding perform approve_pending reject_pending
  perform-IsAudited start store env (Op.set_state a s o reason) h =
      set_state-IsAudited start store env a s o reason h
  perform-IsAudited start store env (Op.apply_authority r) h =
      Same-IsAudited start store _ (apply_authority-Same store env r) h
  perform-IsAudited start store env (Op.approve_pending q o reason) h =
      Same-IsAudited start store _ (resolve_pending-Same store env q true o reason) h
  perform-IsAudited start store env (Op.reject_pending q o reason) h =
      Same-IsAudited start store _ (resolve_pending-Same store env q false o reason) h

  run_from-IsAudited :
      (start : ActionType → ActionAuthority) (store : AuthorityStore J) (ops : List (Env × Op J))
      → IsAudited start store
      → IsAudited start (run store ops)
  unfolding run
  run_from-IsAudited start store [] h = h
  run_from-IsAudited start store ((env, op) ∷ ops) h =
      run_from-IsAudited start (perform store env op) ops (perform-IsAudited start store env op h)

  -- However a store was configured and whatever calls were made on it, the standing state of every
  -- action is the one that the audit log tells from the configured one, so no lookup of an action
  -- ever fails; each change in the log starts from the state that the log before it tells, and has
  -- a non-empty operator.
  pub run-IsAudited :
      (defaults : List (ActionType × ActionAuthority)) (f : Option (List (ActionType × ActionType)))
      (ops : List (Env × Op J))
      → IsAudited (configured defaults) (run (init defaults f) ops)
  run-IsAudited defaults f ops =
      run_from-IsAudited (configured defaults) (init defaults f) ops (init-IsAudited defaults f)
