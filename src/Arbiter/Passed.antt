-- ===== src/Arbiter/Passed.antt =====
-- What it means that a signal with a symbol and an action passes (cio/core/arbiter.py).
use petrosa_cio.Prelude.{
  ℕ, Str, ◌≡◌, ◌≢◌, refl, inl, inr, Bool-cases, false_ne_true, true, false, Option, none, some,
  Option-cases, List, [], ◌∷◌,
}
use petrosa_cio.Evaluators.{EvaluatorSubscriber}
use petrosa_cio.Arbiter.{
  Redis, Floats, Signal, Outcome, allowed, is_allowed, normalise_action, paused_by,
  pause_guard_subsystems, dedup_key, bias_key, is_empty_text, cache_get, cache_set, parse_bias,
  publish, loses, resolve, arbitrate, guard, check,
}

-- Passing means to be allowed.
abbrev Strict : Outcome → Type 0
Strict o = is_allowed o ≡ true → o ≡ allowed

is_empty_text_no : (s : Str) → s ≢ [] → is_empty_text s ≡ false
is_empty_text_no [] h = absurd (h refl)
is_empty_text_no (x ∷ s) h = refl

module _ {S X C : Type 0} (R : Redis S X) (F : Floats C) (lower : Str → Str) where
  publish-Strict : (s : S) (t : ℕ) (g : Signal C) → Strict (publish R F lower s t g).1
  unfolding publish
  publish-Strict s t g h = refl

  resolve-Strict :
      (s : S) (t : ℕ) (g : Signal C) (bias : Option Str) → Strict (resolve R F lower s t g bias).1
  unfolding resolve is_allowed
  resolve-Strict s t g none = publish-Strict s t g
  resolve-Strict s t g (some raw) = elim (Option-cases (parse_bias R F lower raw)) [
    | inl e ↦
        rw (resolve, e) (publish-Strict (cache_set R F lower s t (bias_key g.symbol) [] 1) t g)
    | inr (stored, e) ↦ elim (Bool-cases (loses R F lower g stored)) [
      | inl h ↦ rw (resolve, e, h) (λ k. absurd (false_ne_true k))
      | inr h ↦ rw (resolve, e, h) (publish-Strict s t g)
    ]
  ]

  arbitrate-Strict : (s : S) (t : ℕ) (g : Signal C) → Strict (arbitrate R F lower s t g).1
  unfolding arbitrate is_allowed
  arbitrate-Strict s t g =
      elim (Option-cases
        (cache_get R F lower s t (dedup_key g.symbol (normalise_action lower g.action)))) [
          | inl e ↦
              rw (arbitrate, e) (resolve-Strict s t g (cache_get R F lower s t (bias_key g.symbol)))
          | inr (v, e) ↦ rw (arbitrate, e) (λ k. absurd (false_ne_true k))
        ]

  guard-Strict :
      (s : S) (t : ℕ) (g : Signal C)
      → g.symbol ≢ []
      → g.action ≢ []
      → Strict (guard R F lower s t g).1
  unfolding guard
  guard-Strict s t g symbol action =
      rw (guard, is_empty_text_no g.symbol symbol, is_empty_text_no g.action action)
        (arbitrate-Strict s t g)

  pub check-Strict :
      (sub : Option EvaluatorSubscriber) (policy : List (Str × Str)) (s : S) (t : ℕ) (g : Signal C)
      → g.symbol ≢ []
      → g.action ≢ []
      → is_allowed (check R F lower sub policy s t g).1 ≡ true
      → (check R F lower sub policy s t g).1 ≡ allowed
  unfolding check is_allowed
  check-Strict none policy s t g symbol action = guard-Strict s t g symbol action
  check-Strict (some sub) policy s t g symbol action =
      elim (Option-cases (paused_by sub policy pause_guard_subsystems)) [
        | inl e ↦ rw (check, e) (guard-Strict s t g symbol action)
        | inr (by, e) ↦ rw (check, e) (λ k. absurd (false_ne_true k))
      ]
