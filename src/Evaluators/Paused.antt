-- ===== src/Evaluators/Paused.antt =====
-- When a subsystem is paused, by what the state holds on it.
use petrosa_cio.Prelude.{
  ◌∙◌, ap, Str, Str-discrete, ◌≡◌, refl, ◌↔◌, ◌⊎◌, inl, inr, true, none, some, Option-cases,
  false_ne_true, arith,
}
use petrosa_cio.Prelude.Dict.{lookup}
use petrosa_cio.Evaluators.{
  EvaluatorSubscriber, Verdict, healthy, unhealthy, unknown, Observed, is_unhealthy, was_unhealthy,
  is_paused,
}

-- An override says unhealthy, or there is none and the last verdict says so.
abbrev pub IsPaused : EvaluatorSubscriber → Str → Type 0
IsPaused s k =
    (lookup Str-discrete k s.overrides ≡ some unhealthy)
    ⊎ ((lookup Str-discrete k s.overrides ≡ none)
        × ((o : Observed) × (lookup Str-discrete k s.verdicts ≡ some o) × (o.verdict ≡ unhealthy)))

is_unhealthy-eq : (v : Verdict) → is_unhealthy v ≡ true → v ≡ unhealthy
unfolding is_unhealthy
is_unhealthy-eq healthy h = absurd (false_ne_true h)
is_unhealthy-eq unhealthy h = refl
is_unhealthy-eq unknown h = absurd (false_ne_true h)

is_paused-IsPaused : (s : EvaluatorSubscriber) (k : Str) → is_paused s k ≡ true → IsPaused s k
unfolding is_paused was_unhealthy
is_paused-IsPaused s k h = elim (Option-cases (lookup Str-discrete k s.overrides)) [
  | inr (v, set) ↦ inl (set ∙ ap (λ x. some x) (is_unhealthy-eq v (ground (arith, h, set))))
  | inl unset ↦ elim (Option-cases (lookup Str-discrete k s.verdicts)) [
    | inl unseen ↦ absurd (false_ne_true (ground (arith, h, unset, unseen)))
    | inr (o, seen) ↦
        inr (unset, (o, seen, is_unhealthy-eq o.verdict (ground (arith, h, unset, seen))))
  ]
]

IsPaused-is_paused : (s : EvaluatorSubscriber) (k : Str) → IsPaused s k → is_paused s k ≡ true
unfolding is_paused was_unhealthy is_unhealthy
IsPaused-is_paused s k (inl set) = ground (arith, set)
IsPaused-is_paused s k (inr (unset, (o, seen, bad))) = ground (arith, unset, seen, bad)

pub is_paused_iff : (s : EvaluatorSubscriber) (k : Str) → (is_paused s k ≡ true) ↔ IsPaused s k
is_paused_iff s k = (is_paused-IsPaused s k, IsPaused-is_paused s k)
