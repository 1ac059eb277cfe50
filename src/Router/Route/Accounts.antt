-- ===== src/Router/Route/Accounts.antt =====
-- Where a decision is accounted for (cio/core/router.py): in the vector store, on the audit subject
-- and on the dashboard.
use petrosa_cio.Prelude.{
  ◌≡◌, refl, ap, ◌∙◌, ◌⊎◌, inl, inr, Str, Bool, true, false, Bool-cases, ◌==◌, leb, if◌then◌else◌,
  Option, none, some, Option-cases, List, [], ◌∷◌, ◌++◌, All, All-append, All-if, All-ite, All-map,
  append-nil, Result-cases,
}
use petrosa_cio.Prelude.Floats.{Floats}
use petrosa_cio.Models.{ActionType, ActionType-discrete, Env}
use petrosa_cio.Authority.{AuthorityStore, AuthorityDecision, PendingDecision, apply_authority}
use petrosa_cio.Router.{
  Decision, Context, Config, HttpAnswer, failed, response, decision_json, legacy_json, audit_copy,
  action_alert, context_gap, Effect, upsert_decision, upsert_pending, publish, post, freeze,
  record_decision, action_or_skip, subject_of, is_alerted,
}
use petrosa_cio.Router.Translator.{Values, to_legacy_signal}
use petrosa_cio.Router.Route.{
  freeze_after, apply_change, rest_effects, trade_messages, action_messages, audit_message,
  record_of, store_effects, alert_effects, dispatch, request_of, authorized, route,
}
use petrosa_cio.Router.Route.Effects.{Returns}

-- Where, and as what.
pub data Channel : Type 0 where
  memory audit dashboard : Channel

abbrev pub account_of : {F J : Type 0} → Effect F J → Option (Channel × ActionType)
account_of (upsert_decision a replaced) = some (memory, a)
account_of (publish subject (audit_copy c)) = some (audit, c.action)
account_of (publish subject (decision_json d)) = none
account_of (publish subject (legacy_json g)) = none
account_of (publish subject (action_alert a why)) = none
account_of (publish subject (context_gap g)) = none
account_of (record_decision r) = some (dashboard, r.action)
account_of (upsert_pending p) = none
account_of (post url change) = none
account_of (freeze key ttl) = none

abbrev add :
    Option (Channel × ActionType) → List (Channel × ActionType) → List (Channel × ActionType)
add none xs = xs
add (some x) xs = x ∷ xs

abbrev pub accounts : {F J : Type 0} → List (Effect F J) → List (Channel × ActionType)
accounts [] = []
accounts (e ∷ es) = add (account_of e) (accounts es)

-- The accounts of a decision: always in the vector store, on the audit subject unless it is a dry
-- run, and on the dashboard if there is one.
abbrev pub full : Config → ActionType → List (Channel × ActionType)
full cfg a =
    (memory, a) ∷ (if cfg.is_dry_run then [] else (audit, a) ∷ [])
    ++ (if cfg.has_decision_store then (dashboard, a) ∷ [] else [])

add-append :
    (o : Option (Channel × ActionType)) (xs ys : List (Channel × ActionType))
    → add o (xs ++ ys) ≡ add o xs ++ ys
add-append none xs ys = refl
add-append (some x) xs ys = refl

accounts-append :
    {F J : Type 0} (xs ys : List (Effect F J)) → accounts (xs ++ ys) ≡ accounts xs ++ accounts ys
accounts-append [] ys = refl
accounts-append (e ∷ xs) ys =
    ap (add (account_of e)) (accounts-append xs ys)
    ∙ add-append (account_of e) (accounts xs) (accounts ys)

-- What is no account.
abbrev IsUncounted : {F J : Type 0} → Effect F J → Type 0
IsUncounted e = account_of e ≡ none

accounts-IsUncounted :
    {F J : Type 0} (xs : List (Effect F J)) → All IsUncounted xs → accounts xs ≡ []
accounts-IsUncounted [] h = refl
accounts-IsUncounted (e ∷ xs) h = rw (h.0) (accounts-IsUncounted xs h.1)

module _ {F J : Type 0} (O : Floats F) (V : Values J) where
  freeze-IsUncounted :
      (cfg : Config) (id : Str) (answer : HttpAnswer)
      → All (IsUncounted {F = F} {J = J}) (freeze_after cfg id answer)
  unfolding freeze_after
  freeze-IsUncounted cfg id failed = tt
  freeze-IsUncounted cfg id (response status retry) =
      All-if IsUncounted cfg.has_cache _ _
        (All-if IsUncounted (leb 400 status) _ _
          (All-if IsUncounted (status == 429) _ _ (refl, tt) tt) (refl, tt))
        tt

  rest-IsUncounted :
      (cfg : Config) (id : Str) (d : Decision F J) (answer : HttpAnswer) (action : ActionType)
      → All IsUncounted (rest_effects cfg id d answer action)
  unfolding rest_effects apply_change
  rest-IsUncounted cfg id d answer ActionType.modify_params =
      All-if IsUncounted cfg.is_dry_run _ _ tt (refl, freeze-IsUncounted cfg id answer)
  rest-IsUncounted cfg id d answer ActionType.pause_strategy =
      All-if IsUncounted cfg.is_dry_run _ _ tt (refl, freeze-IsUncounted cfg id answer)
  rest-IsUncounted cfg id d answer ActionType.fail_safe =
      All-if IsUncounted cfg.is_dry_run _ _ tt (refl, tt)
  rest-IsUncounted cfg id d answer _ = tt

  trade_messages-IsUncounted :
      (cfg : Config) (c : Context F J) (d : Decision F J)
      → All IsUncounted (trade_messages O V cfg c d)
  unfolding trade_messages
  trade_messages-IsUncounted cfg c d =
      elim (Option-cases (
        to_legacy_signal O V c.strategy_id c.decision_id c.trigger_payload c.current_price
          d.computed_position_size_usd d.stop_loss_pct d.take_profit_pct)) [
            | inl e ↦ rw (trade_messages, e) (refl, tt)
            | inr (g, e) ↦ rw (trade_messages, e) (refl, (refl, tt))
          ]

  messages-IsUncounted :
      (cfg : Config) (c : Context F J) (d : Decision F J) (action : ActionType)
      → All IsUncounted (action_messages O V cfg c d action)
  unfolding action_messages
  messages-IsUncounted cfg c d action =
      All-ite IsUncounted (ActionType-discrete action ActionType.execute) _ _
        (λ e. trade_messages-IsUncounted cfg c d)
        (elim (Option-cases (subject_of action c.strategy_id)) [
          | inl e ↦ rw e tt
          | inr (s, e) ↦ rw e (refl, tt)
        ])

  alerts-IsUncounted :
      (c : Context F J) (d : Decision F J) (action : ActionType)
      → All IsUncounted (alert_effects O V c d action)
  unfolding alert_effects
  alerts-IsUncounted c d action =
      All-append IsUncounted _ _ (All-if IsUncounted (is_alerted action) _ _ (refl, tt) tt)
        (All-map IsUncounted _ c.gaps λ g. refl)

  -- The accounts of the two parts that have any.
  accounts_published :
      (cfg : Config) (c : Context F J) (d : Decision F J) (action : ActionType)
      (replaced : Option ActionType)
      → accounts (action_messages O V cfg c d action ++ audit_message O V c d action replaced ∷ [])
        ≡ (audit, action) ∷ []
  unfolding audit_message
  accounts_published cfg c d action replaced =
      accounts-append (action_messages O V cfg c d action) _
      ∙ ap (λ xs. xs ++ (audit, action) ∷ [])
          (accounts-IsUncounted _ (messages-IsUncounted cfg c d action))

  accounts_store :
      (cfg : Config) (c : Context F J) (d : Decision F J) (action : ActionType)
      → accounts (store_effects O V cfg c d action)
        ≡ (if cfg.has_decision_store then (dashboard, action) ∷ [] else [])
  unfolding store_effects record_of
  accounts_store cfg c d action = elim (Bool-cases cfg.has_decision_store) [
    | inl h ↦ rw (store_effects, h) refl
    | inr h ↦ rw (store_effects, h) refl
  ]

  accounts_if :
      (b : Bool) (xs : List (Effect F J))
      → accounts (if b then [] else xs) ≡ (if b then [] else accounts xs)
  accounts_if true xs = refl
  accounts_if false xs = refl

  none_if :
      (b : Bool) (xs : List (Effect F J)) → accounts xs ≡ [] → accounts (if b then [] else xs) ≡ []
  none_if true xs h = refl
  none_if false xs h = h

  pub accounts-dispatch :
      (cfg : Config) (c : Context F J) (d : Decision F J) (answer : HttpAnswer)
      (action : ActionType) (replaced : Option ActionType)
      → accounts (dispatch O V cfg c d answer action replaced) ≡ full cfg action
  unfolding dispatch
  accounts-dispatch cfg c d answer action replaced =
      let published =
        action_messages O V cfg c d action ++ audit_message O V c d action replaced ∷ [] in
      let rest = rest_effects cfg c.strategy_id d answer action in
      let upserted = upsert_decision action replaced ∷ (if cfg.is_dry_run then [] else published) in
      let stored = store_effects O V cfg c d action in
      let alerts = if cfg.is_dry_run then [] else alert_effects O V c d action in
      accounts-append (rest ++ upserted ++ stored) alerts
      ∙ rw
          (
            accounts-append (rest ++ upserted) stored,
            accounts-append rest upserted,
            none_if cfg.is_dry_run (alert_effects O V c d action)
                (accounts-IsUncounted _ (alerts-IsUncounted c d action)),
            accounts-IsUncounted rest (rest-IsUncounted cfg c.strategy_id d answer action),
            accounts_if cfg.is_dry_run published,
            accounts_published cfg c d action replaced,
            accounts_store cfg c d action,
          )
          (append-nil _)

  -- What a call leaves: a decision that waits and is only noted as such, or the full accounts of
  -- the action that was dispatched.
  abbrev pub IsAccounted : Config → List (Effect F J) → Type 0
  IsAccounted cfg effects =
      ((p : PendingDecision J) × (effects ≡ upsert_pending p ∷ []))
      ⊎ ((a : ActionType) × (accounts effects ≡ full cfg a))

  authorized-IsAccounted :
      (cfg : Config) (c : Context F J) (d : Decision F J) (answer : HttpAnswer)
      (action : ActionType) (a : AuthorityDecision J)
      → IsAccounted cfg (authorized O V cfg c d answer action a)
  unfolding authorized
  authorized-IsAccounted cfg c d answer action a = elim (Option-cases a.pending) [
    | inr (p, e) ↦ rw (authorized, e) (inl (p, refl))
    | inl e ↦ elim (Bool-cases a.was_disabled) [
      | inl h ↦
          rw (authorized, e, h)
            (inr (a.action, accounts-dispatch cfg c d answer a.action (some action)))
      | inr h ↦ rw (authorized, e, h) (inr (action, accounts-dispatch cfg c d answer action none))
    ]
  ]

  -- Every call that returns either diverts the decision to an operator, and then it does nothing
  -- else, or accounts for it: once in the vector store, once on the audit subject unless it is a
  -- dry run, and once on the dashboard if there is one, and everywhere as the same action.
  pub route-IsAccounted :
      (cfg : Config) (s : Option (AuthorityStore J)) (env : Env) (c : Context F J)
      (d : Decision F J) (answer : HttpAnswer)
      → Returns (IsAccounted cfg) (route O V cfg s env c d answer).1
  unfolding route
  route-IsAccounted cfg none env c d answer =
      inr (action_or_skip d.action, accounts-dispatch cfg c d answer (action_or_skip d.action) none)
  route-IsAccounted cfg (some store) env c d answer =
      elim (Result-cases
        (apply_authority store env (request_of O V c d (action_or_skip d.action))).1) [
          | inl (e, k) ↦ rw (route, k) tt
          | inr (a, k) ↦
              rw (route, k) (authorized-IsAccounted cfg c d answer (action_or_skip d.action) a)
        ]
