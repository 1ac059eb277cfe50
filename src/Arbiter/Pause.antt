-- ===== src/Arbiter/Pause.antt =====
-- The pause gate of a check.
use petrosa_cio.Prelude.{
  ℕ, Str, str, Str-discrete, ◌≡◌, ◌≢◌, refl, ◌⊎◌, inl, inr, true, false, Bool-cases, false_ne_true,
  ◌∙◌, subst, sym, ap, Option, none, some, Option-cases, if_pos, List, [], ◌∷◌, All, arith,
}
use petrosa_cio.Prelude.Dict.{lookup}
use petrosa_cio.Evaluators.{EvaluatorSubscriber, is_paused}
use petrosa_cio.Evaluators.Paused.{IsPaused, is_paused_iff}
use petrosa_cio.Arbiter.{
  Redis, Floats, Signal, paused, paused_by, is_lax, pause_guard_subsystems, check,
}

-- A paused subsystem suppresses, unless its policy is "lax"; a missing or unknown one is not.
abbrev pub Blocks : EvaluatorSubscriber → List (Str × Str) → Str → Type 0
Blocks sub policy k = IsPaused sub k × (lookup Str-discrete k policy ≢ some (str "lax"))

-- The first that suppresses.
abbrev pub IsFirst : (Str → Type 0) → List Str → Str → Type 0
IsFirst P [] k = ⊥
IsFirst P (j ∷ js) k = ((j ≡ k) × P j) ⊎ ((¬ P j) × IsFirst P js k)

-- The policy of a subsystem is "lax" exactly if `is_lax` says so.
is_lax-eq : (p : Option Str) → is_lax p ≡ true → p ≡ some (str "lax")
unfolding is_lax
is_lax-eq none h = absurd (false_ne_true h)
is_lax-eq (some policy) h = elim (Str-discrete policy (str "lax")) [
  | yes same ↦ rw same refl
  | no other ↦ absurd (false_ne_true (ground (arith, h, other)))
]

is_lax_self : is_lax (some (str "lax")) ≡ true
unfolding is_lax
is_lax_self = if_pos (Str-discrete (str "lax") (str "lax")) refl true false

is_lax-ne : (p : Option Str) → is_lax p ≡ false → p ≢ some (str "lax")
is_lax-ne p h same = false_ne_true (sym h ∙ ap is_lax same ∙ is_lax_self)

-- What the gate answers.
abbrev Answers : EvaluatorSubscriber → List (Str × Str) → List Str → Option Str → Type 0
Answers sub policy guarded none = All (λ k. ¬ Blocks sub policy k) guarded
Answers sub policy guarded (some k) = IsFirst (Blocks sub policy) guarded k

paused_by-Answers :
    (sub : EvaluatorSubscriber) (policy : List (Str × Str)) (guarded : List Str)
    → Answers sub policy guarded (paused_by sub policy guarded)
unfolding paused_by
paused_by-Answers sub policy [] = tt
paused_by-Answers sub policy (k ∷ guarded) =
    let rest = paused_by-Answers sub policy guarded in
    elim (Bool-cases (is_paused sub k)) [
      | inr running ↦ rw running (
          passed sub policy k guarded
            (λ b. false_ne_true (sym running ∙ (is_paused_iff sub k).1 b.0)) _ rest)
      | inl down ↦ elim (Bool-cases (is_lax (lookup Str-discrete k policy))) [
        | inl lax ↦
            rw (down, lax)
              (passed sub policy k guarded (λ b. b.1 (is_lax-eq (lookup Str-discrete k policy) lax))
                _ rest)
        | inr strict ↦
            rw (down, strict)
              (inl (
                refl,
                ((is_paused_iff sub k).0 down, is_lax-ne (lookup Str-discrete k policy) strict),
              ))
      ]
    ]
  where
    passed :
        (sub : EvaluatorSubscriber) (policy : List (Str × Str)) (k : Str) (guarded : List Str)
        → (¬ Blocks sub policy k)
        → (answer : Option Str) → Answers sub policy guarded answer
        → Answers sub policy (k ∷ guarded) answer
    passed sub policy k guarded free none rest = (free, rest)
    passed sub policy k guarded free (some j) rest = inr (free, rest)

-- With an evaluator subscriber, a signal is suppressed by the first subsystem of "ingest",
-- "execution", "strategy-fidelity" and "audit", in this order, that is paused, by its override or
-- else by the last verdict on it, and whose policy is not "lax", a missing or unknown one included;
-- it changes nothing in Redis then. If there is none, the check is the same as without a subscriber.
pub check-paused :
    {S X C : Type 0} (R : Redis S X) (F : Floats C) (lower : Str → Str) (sub : EvaluatorSubscriber)
    (policy : List (Str × Str)) (s : S) (now : ℕ) (g : Signal C)
    → let subsystems =
        str "ingest" ∷ str "execution" ∷ str "strategy-fidelity" ∷ str "audit" ∷ [] in
      let answer = check R F lower (some sub) policy s now g in
      (All (λ k. ¬ Blocks sub policy k) subsystems × (answer ≡ check R F lower none policy s now g))
      ⊎ ((k : Str) × IsFirst (Blocks sub policy) subsystems k × (answer ≡ (s, paused k)))
unfolding check pause_guard_subsystems
check-paused R F lower sub policy s now g =
    let gate = paused_by-Answers sub policy pause_guard_subsystems in
    elim (Option-cases (paused_by sub policy pause_guard_subsystems)) [
      | inl free ↦
          inl (subst (Answers sub policy pause_guard_subsystems) free gate, rw (free, check) refl)
      | inr (k, by) ↦
          inr (k, subst (Answers sub policy pause_guard_subsystems) by gate, rw (by, check) refl)
    ]
