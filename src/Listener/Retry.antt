-- ===== src/Listener/Retry.antt =====
-- Messages one after another (cio/core/listener.py over cio/core/arbiter.py).
use petrosa_cio.Prelude.{
  ℕ, ◌+◌, ◌≤◌, ◌<◌, ◌≡◌, ◌≢◌, refl, sym, ap, subst, ◌∙◌, inl, inr, Str, true, false, Bool-cases,
  if◌then◌else◌, Option, none, some, Option-cases, List, [], ◌∷◌, arith,
}
use petrosa_cio.Prelude.Floats
use petrosa_cio.Evaluators.{EvaluatorSubscriber}
use petrosa_cio.Arbiter
use petrosa_cio.Arbiter.{
  Redis, Signal, Outcome, is_allowed, allowed, normalise_action, dedup_key, check,
}
use petrosa_cio.Arbiter.Marks.{Laws, Call, performed}
use petrosa_cio.Arbiter.Duplicates.{duplicate-suppressed}
use petrosa_cio.Arbiter.Duplicates
use petrosa_cio.Arbiter.Passed.{check-Strict}
use petrosa_cio.Listener.{
  Values, Message, Fate, unparsed, unbuilt, suppressed, routed, signal_of, symbol_of, action_of,
  proceed, decide, handle_message,
}

-- A message with its surroundings.
pub record Delivery (F J X : Type 0) : Type 0 where
  pub subscriber : Option EvaluatorSubscriber
  pub policy : List (Str × Str)
  pub now : ℕ
  pub message : Message F J X

-- The arbiter let the message pass, whatever became of it then.
abbrev pub Passed : {F : Type 0} → Fate F → Type 0
Passed unparsed = ⊥
Passed (suppressed outcome) = ⊥
Passed unbuilt = Unit
Passed (routed decision) = Unit

abbrev pub IsSuppressed : {F : Type 0} → Fate F → Type 0
IsSuppressed (suppressed outcome) = is_allowed outcome ≡ false
IsSuppressed _ = ⊥

module _ {S E C : Type 0} (R : Redis S E) (A : Arbiter.Floats C) (lower : Str → Str)
    (L : Laws R) where
  Follows-earlier :
      (t u v : ℕ) (cs : List (Call C))
      → t ≤ u
      → Duplicates.Follows R A lower L u cs v
      → Duplicates.Follows R A lower L t cs v
  Follows-earlier t u v [] h f = omega (arith, h, f)
  Follows-earlier t u v (c ∷ cs) h f = (omega (arith, h, f.0), f.1)

module _ {S E C F J X : Type 0} (R : Redis S E) (A : Arbiter.Floats C) (lower : Str → Str)
    (L : Laws R) (O : Floats.Floats F) (V : Values J C) where
  unfoldable pub handle : S → Delivery F J X → S × Fate F
  unfolding handle_message
  handle s d = handle_message R A lower O V d.subscriber d.policy s d.now d.message

  pub run : S → List (Delivery F J X) → S
  unfolding handle
  run s [] = s
  run s (d ∷ ds) = run (handle s d).0 ds

  call_of : Delivery F J X → List (Str × J) → Call C
  call_of d payload = record {
    subscriber = d.subscriber;
    policy = d.policy;
    now = d.now;
    signal = signal_of V payload;
  }

  -- The checks of the messages that parse.
  calls_of : List (Delivery F J X) → List (Call C)
  unfolding call_of
  calls_of [] = []
  calls_of (d ∷ ds) = elim d.message.payload [
    | none ↦ calls_of ds
    | some payload ↦ call_of d payload ∷ calls_of ds
  ]

  -- The times of the messages do not go back.
  abbrev pub Follows : ℕ → List (Delivery F J X) → ℕ → Type 0
  Follows t [] u = t ≤ u
  Follows t (d ∷ ds) u = (t ≤ d.now) × Follows d.now ds u

  handle-parsed :
      (s : S) (d : Delivery F J X) (payload : List (Str × J))
      → d.message.payload ≡ some payload
      → handle s d ≡ decide R A lower O V (performed R A lower L s (call_of d payload)) d.message
  unfolding handle handle_message call_of
  handle-parsed s d payload h = rw (handle_message, h) refl

  store-parsed :
      (s : S) (d : Delivery F J X) (payload : List (Str × J))
      → d.message.payload ≡ some payload
      → (handle s d).0 ≡ (performed R A lower L s (call_of d payload)).0
  unfolding decide
  store-parsed s d payload h = ap (λ r. r.0) (handle-parsed s d payload h)

  calls_of-parsed :
      (d : Delivery F J X) (payload : List (Str × J)) (ds : List (Delivery F J X))
      → d.message.payload ≡ some payload
      → calls_of (d ∷ ds) ≡ call_of d payload ∷ calls_of ds
  unfolding calls_of call_of
  calls_of-parsed d payload ds h = rw (calls_of, h) refl

  -- What the messages leave in Redis is what their checks leave.
  run-calls :
      (s : S) (ds : List (Delivery F J X)) → run s ds ≡ Duplicates.run R A lower L s (calls_of ds)
  unfolding run calls_of Duplicates.run
  run-calls s [] = refl
  run-calls s (d ∷ ds) = elim (Option-cases d.message.payload) [
    | inl h ↦ rw (calls_of, h) (run-calls s ds)
    | inr (payload, h) ↦
        ap (λ r. run r ds) (store-parsed s d payload h)
        ∙ run-calls (performed R A lower L s (call_of d payload)).0 ds
        ∙ ap (Duplicates.run R A lower L s) (sym (calls_of-parsed d payload ds h))
  ]

  Follows-calls :
      (t u : ℕ) (ds : List (Delivery F J X))
      → Follows t ds u
      → Duplicates.Follows R A lower L t (calls_of ds) u
  unfolding calls_of call_of
  Follows-calls t u [] f = f
  Follows-calls t u (d ∷ ds) f = elim (Option-cases d.message.payload) [
    | inl h ↦
        rw (calls_of, h)
          (Follows-earlier R A lower L t d.now u (calls_of ds) f.0 (Follows-calls d.now u ds f.1))
    | inr (payload, h) ↦ rw (calls_of, h) (f.0, Follows-calls d.now u ds f.1)
  ]

  Passed-decide :
      (left : S × Outcome) (m : Message F J X)
      → Passed (decide R A lower O V left m).1
      → is_allowed left.1 ≡ true
  unfolding decide
  Passed-decide (s, o) m h = elim (Bool-cases (is_allowed o)) [
    | inl passes ↦ passes
    | inr stops ↦ absurd (subst (λ b. Passed (if b then proceed O m else suppressed o)) stops h)
  ]

  decide-IsSuppressed :
      (left : S × Outcome) (m : Message F J X)
      → is_allowed left.1 ≡ false
      → IsSuppressed (decide R A lower O V left m).1
  unfolding decide
  decide-IsSuppressed (s, o) m h = rw h h

  -- A retry does not get through: of two messages for one symbol and one side, the second is
  -- suppressed for 60 seconds after the first passed the arbiter, whatever became of the first (a
  -- context that cannot be built, RETRY_SAFE on a timeout, FAIL_SAFE), and whatever messages come
  -- between, if their times do not go back and Redis keeps what it documents and stores every mark.
  pub retry-IsSuppressed :
      (s : S) (first second : Delivery F J X) (between : List (Delivery F J X))
      (p q : List (Str × J))
      → first.message.payload ≡ some p
      → second.message.payload ≡ some q
      → Passed (handle s first).1
      → symbol_of V p ≢ []
      → action_of V p ≢ []
      → symbol_of V q ≢ []
      → action_of V q ≢ []
      → symbol_of V q ≡ symbol_of V p
      → normalise_action lower (action_of V q) ≡ normalise_action lower (action_of V p)
      → Follows first.now between second.now
      → second.now < first.now + 60
      → IsSuppressed (handle (run (handle s first).0 between) second).1
  unfolding call_of signal_of
  retry-IsSuppressed s first second between p q parsed parsed' passed symbol action symbol' action'
        same side follows soon =
      let checked = performed R A lower L s (call_of first p) in
      let allows =
        check-Strict R A lower first.subscriber first.policy s first.now (signal_of V p) symbol
          action
          (Passed-decide checked first.message
            (subst (λ r. Passed r.1) (handle-parsed s first p parsed) passed)) in
      let keys =
        ap (λ x. dedup_key x (normalise_action lower (action_of V q))) same
        ∙ ap (λ y. dedup_key (symbol_of V p) y) side in
      rw
        (
          handle-parsed (run (handle s first).0 between) second q parsed',
          store-parsed s first p parsed,
          run-calls checked.0 between,
        )
        (decide-IsSuppressed _ second.message (
          duplicate-suppressed R A lower L s (call_of first p) (calls_of between) (call_of second q)
            allows symbol' action' keys (Follows-calls first.now second.now between follows) soon))
