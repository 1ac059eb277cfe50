-- ===== src/Authority/Verdict.antt =====
-- The answer of `apply_authority` by the standing state of the action (cio/core/authority.py).
use petrosa_cio.Prelude.{
  ◌≡◌, refl, ◌⊎◌, inl, inr, true, false, none, some, Result, Result-cases, ok, raise,
}
use petrosa_cio.Models.{ActionType, Env}
use petrosa_cio.Authority.{
  ActionAuthority, AuthorityStore, AuthorityDecision, PendingDecision, Request, Error, get_state,
  get_fallback, enqueue_pending, apply_state, apply_authority,
}

module _ {J : Type 0} (store : AuthorityStore J) where
  -- Enabled, diverted, or replaced.
  abbrev pub Rules : ActionType → Result Error (AuthorityDecision J) → Type 0
  Rules action (raise e) = get_state store action ≡ raise e
  Rules action (ok a) =
      ((get_state store action ≡ ok ActionAuthority.enabled)
        × (a.pending ≡ none)
        × (a.was_disabled ≡ false))
      ⊎ (((get_state store action ≡ ok ActionAuthority.operator_approval_required)
            × ((p : PendingDecision J) × (a.pending ≡ some p)))
          ⊎ ((get_state store action ≡ ok ActionAuthority.disabled)
              × (a.pending ≡ none)
              × (a.was_disabled ≡ true)
              × (a.action ≡ get_fallback store action)))

  apply_state-Rules :
      (s : ActionAuthority) (env : Env) (r : Request J)
      → get_state store r.action ≡ ok s
      → Rules r.action (apply_state s store env r).1
  unfolding apply_state
  apply_state-Rules ActionAuthority.enabled env r h = inl (h, refl, refl)
  apply_state-Rules ActionAuthority.operator_approval_required env r h =
      inr (inl (h, ((enqueue_pending store env r).1, refl)))
  apply_state-Rules ActionAuthority.disabled env r h = inr (inr (h, refl, refl, refl))

  pub apply_authority-Rules :
      (env : Env) (r : Request J) → Rules r.action (apply_authority store env r).1
  unfolding apply_authority
  apply_authority-Rules env r = elim (Result-cases (get_state store r.action)) [
    | inl (e, h) ↦ rw (apply_authority, h) h
    | inr (s, h) ↦ rw (apply_authority, h) (apply_state-Rules s env r h)
  ]
