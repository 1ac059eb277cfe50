-- ===== src/Router/Route/Trades.antt =====
-- When a trade is published (cio/core/router.py, the T-junction).
use petrosa_cio.Prelude.{
  ◌≡◌, refl, sym, ap, subst, some-ne-none, ◌∙◌, ◌⊎◌, inl, inr, Str, str, starts_with, Bool, true,
  false, ◌==◌, leb, false_ne_true, Option, none, some, Option-cases, Holds, All-if, All-ite,
  All-map, All-mono, [], ◌∷◌, All, All-append, ok,
}
use petrosa_cio.Prelude.Floats.{Floats}
use petrosa_cio.Models.{ActionType, ActionType-discrete, Env}
use petrosa_cio.Authority.{
  ActionAuthority, AuthorityStore, AuthorityDecision, get_state, get_fallback,
}
use petrosa_cio.Authority.Verdict.{Rules, apply_authority-Rules}
use petrosa_cio.Router.{
  Decision, Context, Config, HttpAnswer, failed, response, ConfigChange, decision_json, legacy_json,
  audit_copy, action_alert, context_gap, Effect, publish, action_or_skip, subject_of, is_alerted,
}
use petrosa_cio.Router.Translator.{Values, to_legacy_signal}
use petrosa_cio.Router.Route.{
  freeze_after, apply_change, rest_effects, trade_messages, action_messages, audit_message,
  store_effects, alert_effects, dispatch, request_of, route,
}
use petrosa_cio.Router.Route.Effects.{Returns, dispatch-All, route_store-All}

abbrev is_trade_subject : Str → Bool
is_trade_subject s = starts_with (str "trade.execute.") s

-- A legacy signal, or anything on a subject of the execution.
abbrev pub IsTrade : {F J : Type 0} → Effect F J → Type 0
IsTrade (publish subject (legacy_json signal)) = Unit
IsTrade (publish subject (decision_json d)) = is_trade_subject subject ≡ true
IsTrade (publish subject (audit_copy c)) = is_trade_subject subject ≡ true
IsTrade (publish subject (action_alert a why)) = is_trade_subject subject ≡ true
IsTrade (publish subject (context_gap g)) = is_trade_subject subject ≡ true
IsTrade _ = ⊥

subject-IsQuiet :
    (a : ActionType) (id : Str) → Holds (λ s. is_trade_subject s ≡ false) (subject_of a id)
unfolding subject_of starts_with
subject-IsQuiet ActionType.escalate id = refl
subject-IsQuiet ActionType.retry_safe id = refl
subject-IsQuiet ActionType.down_weight id = refl
subject-IsQuiet ActionType.throttle id = refl
subject-IsQuiet ActionType.veto id = refl
subject-IsQuiet ActionType.admit id = refl
subject-IsQuiet ActionType.admit_small id = refl
subject-IsQuiet ActionType.reject id = refl
subject-IsQuiet ActionType.promote id = refl
subject-IsQuiet ActionType.demote id = refl
subject-IsQuiet ActionType.retire id = refl
subject-IsQuiet ActionType.modify_stops id = refl
subject-IsQuiet ActionType.exit_now id = refl
subject-IsQuiet ActionType.scale_out id = refl
subject-IsQuiet ActionType.fail_safe id = refl
subject-IsQuiet _ id = tt

module _ {F J : Type 0} (O : Floats F) (V : Values J) where
  -- No effect but of an EXECUTE in earnest is a trade.
  abbrev pub IsEarned : Config → ActionType → Effect F J → Type 0
  IsEarned cfg action e = IsTrade e → (cfg.is_dry_run ≡ false) × (action ≡ ActionType.execute)

  freeze-IsEarned :
      (cfg : Config) (id : Str) (answer : HttpAnswer) (action : ActionType)
      → All (IsEarned cfg action) (freeze_after cfg id answer)
  unfolding freeze_after
  freeze-IsEarned cfg id failed action = tt
  freeze-IsEarned cfg id (response status retry) action =
      All-if (IsEarned cfg action) cfg.has_cache _ _
        (All-if (IsEarned cfg action) (leb 400 status) _ _
          (All-if (IsEarned cfg action) (status == 429) _ _ ((λ t. absurd t), tt) tt)
          ((λ t. absurd t), tt))
        tt

  apply_change-IsEarned :
      (cfg : Config) (id : Str) (change : ConfigChange F) (answer : HttpAnswer)
      (action : ActionType)
      → All (IsEarned cfg action) (apply_change cfg id change answer)
  unfolding apply_change
  apply_change-IsEarned cfg id change answer action =
      All-if (IsEarned cfg action) cfg.is_dry_run _ _ tt
        ((λ t. absurd t), freeze-IsEarned cfg id answer action)

  rest-IsEarned :
      (cfg : Config) (id : Str) (d : Decision F J) (answer : HttpAnswer) (action final : ActionType)
      → All (IsEarned cfg final) (rest_effects cfg id d answer action)
  unfolding rest_effects
  rest-IsEarned cfg id d answer ActionType.modify_params final =
      apply_change-IsEarned cfg id _ answer final
  rest-IsEarned cfg id d answer ActionType.pause_strategy final =
      apply_change-IsEarned cfg id _ answer final
  rest-IsEarned cfg id d answer ActionType.fail_safe final =
      All-if (IsEarned cfg final) cfg.is_dry_run _ _ tt ((λ t. absurd t), tt)
  rest-IsEarned cfg id d answer _ final = tt

  trade_messages-IsEarned :
      (cfg : Config) (c : Context F J) (d : Decision F J) (action : ActionType)
      → cfg.is_dry_run ≡ false
      → action ≡ ActionType.execute
      → All (IsEarned cfg action) (trade_messages O V cfg c d)
  unfolding trade_messages
  trade_messages-IsEarned cfg c d action live is_execute =
      elim (Option-cases (
        to_legacy_signal O V c.strategy_id c.decision_id c.trigger_payload c.current_price
          d.computed_position_size_usd d.stop_loss_pct d.take_profit_pct)) [
            | inl e ↦ rw (trade_messages, e) ((λ t. (live, is_execute)), tt)
            | inr (g, e) ↦
                rw (trade_messages, e) ((λ t. (live, is_execute)), ((λ t. (live, is_execute)), tt))
          ]

  -- A message of a branch with a subject is no trade.
  quiet_messages :
      (cfg : Config) (action : ActionType) (d : Decision F J) (o : Option Str)
      → Holds (λ s. is_trade_subject s ≡ false) o
      → All
          (IsEarned cfg action)
          (elim o [ none ↦ [] | some subject ↦ publish subject (decision_json d) ∷ [] ])
  quiet_messages cfg action d none h = tt
  quiet_messages cfg action d (some s) h = ((λ t. absurd (false_ne_true (sym h ∙ t))), tt)

  messages-IsEarned :
      (cfg : Config) (c : Context F J) (d : Decision F J) (action : ActionType)
      → cfg.is_dry_run ≡ false
      → All (IsEarned cfg action) (action_messages O V cfg c d action)
  unfolding action_messages
  messages-IsEarned cfg c d action live =
      All-ite (IsEarned cfg action) (ActionType-discrete action ActionType.execute) _ _
        (λ e. trade_messages-IsEarned cfg c d action live e)
        (quiet_messages cfg action d _ (subject-IsQuiet action c.strategy_id))

  store-IsEarned :
      (cfg : Config) (c : Context F J) (d : Decision F J) (action : ActionType)
      → All (IsEarned cfg action) (store_effects O V cfg c d action)
  unfolding store_effects
  store-IsEarned cfg c d action =
      All-if (IsEarned cfg action) cfg.has_decision_store _ _ ((λ t. absurd t), tt) tt

  alerts-IsEarned :
      (cfg : Config) (c : Context F J) (d : Decision F J) (action : ActionType)
      → All (IsEarned cfg action) (alert_effects O V c d action)
  unfolding alert_effects starts_with
  alerts-IsEarned cfg c d action =
      All-append (IsEarned cfg action) _ _
        (All-if (IsEarned cfg action) (is_alerted action) _ _ ((λ t. absurd (false_ne_true t)), tt)
          tt)
        (All-map (IsEarned cfg action) _ c.gaps λ g t. absurd (false_ne_true t))

  pub dispatch-IsEarned :
      (cfg : Config) (c : Context F J) (d : Decision F J) (answer : HttpAnswer)
      (action : ActionType) (replaced : Option ActionType)
      → All (IsEarned cfg action) (dispatch O V cfg c d answer action replaced)
  unfolding audit_message starts_with
  dispatch-IsEarned cfg c d answer action replaced =
      dispatch-All O V (IsEarned cfg action) cfg c d answer action replaced
        (rest-IsEarned cfg c.strategy_id d answer action action) (λ t. absurd t)
        (messages-IsEarned cfg c d action) (λ live t. absurd (false_ne_true t))
        (store-IsEarned cfg c d action) (λ live. alerts-IsEarned cfg c d action)

  -- What lets a decision trade under a store: its action is EXECUTE and that is enabled, or its
  -- action is disabled and replaced by EXECUTE.
  abbrev pub Permits : AuthorityStore J → Decision F J → Type 0
  Permits store d =
      ((action_or_skip d.action ≡ ActionType.execute)
        × (get_state store ActionType.execute ≡ ok ActionAuthority.enabled))
      ⊎ ((get_state store (action_or_skip d.action) ≡ ok ActionAuthority.disabled)
          × (get_fallback store (action_or_skip d.action) ≡ ActionType.execute))

  replaced-Permits :
      (store : AuthorityStore J) (d : Decision F J) (a : AuthorityDecision J)
      → Rules store (action_or_skip d.action) (ok a)
      → a.pending ≡ none
      → a.was_disabled ≡ true
      → a.action ≡ ActionType.execute
      → Permits store d
  replaced-Permits store d a (inl (e, free, kept)) p w x = absurd (false_ne_true (sym kept ∙ w))
  replaced-Permits store d a (inr (inl (e, (q, held)))) p w x =
      absurd (some-ne-none q (sym held ∙ p))
  replaced-Permits store d a (inr (inr (e, free, k, f))) p w x = inr (e, sym f ∙ x)

  kept-Permits :
      (store : AuthorityStore J) (d : Decision F J) (a : AuthorityDecision J)
      → Rules store (action_or_skip d.action) (ok a)
      → a.pending ≡ none
      → a.was_disabled ≡ false
      → action_or_skip d.action ≡ ActionType.execute
      → Permits store d
  kept-Permits store d a (inl (e, free, kept)) p w x = inl (x, ap (get_state store) (sym x) ∙ e)
  kept-Permits store d a (inr (inl (e, (q, held)))) p w x = absurd (some-ne-none q (sym held ∙ p))
  kept-Permits store d a (inr (inr (e, free, k, f))) p w x = absurd (false_ne_true (sym w ∙ k))

  -- A trade is published only outside a dry run, and only if the authority store permits it: the
  -- decision is to EXECUTE and that action is enabled, or it is to do something that is disabled and
  -- that the store is configured to replace by EXECUTE. A decision that waits for an operator
  -- publishes none.
  pub route-Permits :
      (cfg : Config) (store : AuthorityStore J) (env : Env) (c : Context F J) (d : Decision F J)
      (answer : HttpAnswer)
      → Returns
          (All (λ e. IsTrade e → (cfg.is_dry_run ≡ false) × Permits store d))
          (route O V cfg (some store) env c d answer).1
  unfolding request_of
  route-Permits cfg store env c d answer = route_store-All O V _ cfg store env c d answer λ a h.
      let action = action_or_skip d.action in
      let rules =
        subst (Rules store action) h
          (apply_authority-Rules store env (request_of O V c d action)) in
      (
        (λ p e t. absurd t),
        (λ p w.
            All-mono _ (λ e k t. ((k t).0, replaced-Permits store d a rules p w (k t).1))
              (dispatch-IsEarned cfg c d answer a.action (some action))),
        λ p w.
            All-mono _ (λ e k t. ((k t).0, kept-Permits store d a rules p w (k t).1))
              (dispatch-IsEarned cfg c d answer action none),
      )
