-- ===== src/Router/Route/Effects.antt =====
-- What every call of `route` asks for (cio/core/router.py).
use petrosa_cio.Prelude.{
  ◌≡◌, refl, sym, ◌∙◌, inl, inr, Str, Bool, true, false, Bool-cases, false_ne_true, if◌then◌else◌,
  Option, none, some, Option-cases, List, [], ◌∷◌, ◌++◌, All, All-append, Result, Result-cases, ok,
  raise,
}
use petrosa_cio.Prelude.Floats.{Floats}
use petrosa_cio.Models.{ActionType, Env}
use petrosa_cio.Authority.{AuthorityStore, AuthorityDecision, PendingDecision, apply_authority}
use petrosa_cio.Router.{
  Decision, Context, Config, HttpAnswer, Effect, upsert_decision, upsert_pending, publish, post,
  freeze, action_or_skip,
}
use petrosa_cio.Router.Translator.{Values}
use petrosa_cio.Router.Route.{
  apply_change, rest_effects, action_messages, audit_message, store_effects, alert_effects,
  dispatch, request_of, authorized, route,
}

-- A predicate of the value that a call returns, if it returns.
abbrev pub Returns : {A E : Type 0} → (A → Type 0) → Result E A → Type 0
Returns P (raise e) = Unit
Returns P (ok a) = P a

-- The parts that only a run in earnest has.
when_live :
    {A : Type 0} (P : A → Type 0) (dry : Bool) (xs : List A)
    → (dry ≡ false → All P xs)
    → All P (if dry then [] else xs)
when_live P true xs h = tt
when_live P false xs h = h refl

module _ {F J : Type 0} (O : Floats F) (V : Values J) (P : Effect F J → Type 0) where
  -- A predicate of all effects, part by part.
  pub dispatch-All :
      (cfg : Config) (c : Context F J) (d : Decision F J) (answer : HttpAnswer)
      (action : ActionType) (replaced : Option ActionType)
      → All P (rest_effects cfg c.strategy_id d answer action)
      → P (upsert_decision action replaced)
      → (cfg.is_dry_run ≡ false → All P (action_messages O V cfg c d action))
      → (cfg.is_dry_run ≡ false → P (audit_message O V c d action replaced))
      → All P (store_effects O V cfg c d action)
      → (cfg.is_dry_run ≡ false → All P (alert_effects O V c d action))
      → All P (dispatch O V cfg c d answer action replaced)
  unfolding dispatch
  dispatch-All cfg c d answer action replaced rest upserted messages audit stored alerts =
      All-append P _ _
        (All-append P _ _
          (All-append P _ _ rest (
            upserted,
            when_live P cfg.is_dry_run
                (action_messages O V cfg c d action ++ audit_message O V c d action replaced ∷ [])
                λ live.
                  All-append P (action_messages O V cfg c d action) _ (messages live)
                    (audit live, tt),
          ))
          stored)
        (when_live P cfg.is_dry_run (alert_effects O V c d action) alerts)

  authorized-All :
      (cfg : Config) (c : Context F J) (d : Decision F J) (answer : HttpAnswer)
      (action : ActionType) (a : AuthorityDecision J)
      → ((p : PendingDecision J) → a.pending ≡ some p → P (upsert_pending p))
      → (a.pending ≡ none
          → a.was_disabled ≡ true
          → All P (dispatch O V cfg c d answer a.action (some action)))
      → (a.pending ≡ none
          → a.was_disabled ≡ false
          → All P (dispatch O V cfg c d answer action none))
      → All P (authorized O V cfg c d answer action a)
  unfolding authorized
  authorized-All cfg c d answer action a pending replaced kept = elim (Option-cases a.pending) [
    | inr (p, e) ↦ rw (authorized, e) (pending p e, tt)
    | inl e ↦ elim (Bool-cases a.was_disabled) [
      | inl h ↦ rw (authorized, e, h) (replaced e h)
      | inr h ↦ rw (authorized, e, h) (kept e h)
    ]
  ]

  -- The effects of a call with a store: those that the answer of the authority leads to.
  pub route_store-All :
      (cfg : Config) (store : AuthorityStore J) (env : Env) (c : Context F J) (d : Decision F J)
      (answer : HttpAnswer)
      → ((a : AuthorityDecision J)
          → (apply_authority store env (request_of O V c d (action_or_skip d.action))).1 ≡ ok a
          → ((p : PendingDecision J) → a.pending ≡ some p → P (upsert_pending p))
            × (a.pending ≡ none
                → a.was_disabled ≡ true
                → All P (dispatch O V cfg c d answer a.action (some (action_or_skip d.action))))
            × (a.pending ≡ none
                → a.was_disabled ≡ false
                → All P (dispatch O V cfg c d answer (action_or_skip d.action) none)))
      → Returns (All P) (route O V cfg (some store) env c d answer).1
  unfolding route
  route_store-All cfg store env c d answer h =
      elim (Result-cases
        (apply_authority store env (request_of O V c d (action_or_skip d.action))).1) [
          | inl (e, k) ↦ rw (route, k) tt
          | inr (a, k) ↦
              let (pending, replaced, kept) = h a k in
              rw (route, k)
                (authorized-All cfg c d answer (action_or_skip d.action) a pending replaced kept)
        ]

  -- A predicate of all that any action sets off holds of all effects of a call.
  pub route-All :
      (cfg : Config) (s : Option (AuthorityStore J)) (env : Env) (c : Context F J)
      (d : Decision F J) (answer : HttpAnswer)
      → ((p : PendingDecision J) → P (upsert_pending p))
      → ((action : ActionType) (replaced : Option ActionType)
          → All P (dispatch O V cfg c d answer action replaced))
      → Returns (All P) (route O V cfg s env c d answer).1
  unfolding route
  route-All cfg none env c d answer pending all = all (action_or_skip d.action) none
  route-All cfg (some store) env c d answer pending all =
      route_store-All cfg store env c d answer λ a h.
        ((λ p e. pending p), (λ e k. all a.action _), λ e k. all (action_or_skip d.action) none)

-- What stays inside the process and its vector store.
abbrev pub IsLocal : {F J : Type 0} → Effect F J → Type 0
IsLocal (publish subject message) = ⊥
IsLocal (post url change) = ⊥
IsLocal (freeze key ttl) = ⊥
IsLocal _ = Unit

module _ {F J : Type 0} (O : Floats F) (V : Values J) where
  rest-IsLocal :
      (cfg : Config) (id : Str) (d : Decision F J) (answer : HttpAnswer) (action : ActionType)
      → cfg.is_dry_run ≡ true
      → All IsLocal (rest_effects cfg id d answer action)
  unfolding rest_effects apply_change
  rest-IsLocal cfg id d answer ActionType.modify_params h = rw (apply_change, h) tt
  rest-IsLocal cfg id d answer ActionType.pause_strategy h = rw (apply_change, h) tt
  rest-IsLocal cfg id d answer ActionType.fail_safe h = rw h tt
  rest-IsLocal cfg id d answer _ h = tt

  store-IsLocal :
      (cfg : Config) (c : Context F J) (d : Decision F J) (action : ActionType)
      → All IsLocal (store_effects O V cfg c d action)
  unfolding store_effects
  store-IsLocal cfg c d action = elim (Bool-cases cfg.has_decision_store) [
    | inl h ↦ rw (store_effects, h) (tt, tt)
    | inr h ↦ rw (store_effects, h) tt
  ]

  -- In a dry run nothing is published, no service is called and nothing is frozen, whatever the
  -- decision, the authority and the services.
  pub route-IsLocal :
      (cfg : Config) (s : Option (AuthorityStore J)) (env : Env) (c : Context F J)
      (d : Decision F J) (answer : HttpAnswer)
      → cfg.is_dry_run ≡ true
      → Returns (All IsLocal) (route O V cfg s env c d answer).1
  route-IsLocal cfg s env c d answer dry =
      route-All O V IsLocal cfg s env c d answer (λ p. tt)
        λ action replaced.
          dispatch-All O V IsLocal cfg c d answer action replaced
            (rest-IsLocal cfg c.strategy_id d answer action dry) tt
            (λ live. absurd (false_ne_true (sym live ∙ dry)))
            (λ live. absurd (false_ne_true (sym live ∙ dry))) (store-IsLocal cfg c d action)
            (λ live. absurd (false_ne_true (sym live ∙ dry)))
