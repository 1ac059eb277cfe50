-- ===== src/Evaluators/Audit.antt =====
-- The audit trail of pauses and resumptions, and the alerts, against the verdicts.
use petrosa_cio.Prelude.{
  Str, Str-discrete, ◌≡◌, ◌≢◌, if◌then◌else◌, not, ◌&&◌, ◌||◌, refl, sym, ◌∙◌, ap, ite, if_pos,
  if_neg, Bool, true, false, Bool-cases, Option, none, some, Option-cases, inl, inr, List, [], ◌∷◌,
  ◌++◌, map, arith,
}
use petrosa_cio.Evaluators.{
  EvaluatorSubscriber, Verdict, healthy, unhealthy, unknown, PauseEvent, paused, resumed, Effect,
  changed, recorded, alerted, Moment, reading, observe, verdict_before, was_unhealthy, is_unhealthy,
  is_change, same_verdict, entry_of, alert_of,
}
use petrosa_cio.Evaluators.Run.{
  Event, message, override, perform, run, trace, handle-invalid, handle-valid,
}
use petrosa_cio.Evaluators.Latest.{verdict-observe, verdict-set_override}

-- What concerns a subsystem in the audit trail and on the alert subject.
pub data Mark : Type 0 where
  pause resume alert : Mark

abbrev mark_of : PauseEvent → Mark
mark_of paused = pause
mark_of resumed = resume

unfoldable pub marks : Str → List Effect → List Mark
marks k [] = []
marks k (changed j v reason ∷ fx) = marks k fx
marks k (recorded e ∷ fx) =
    let rest = marks k fx in ite (Str-discrete e.subsystem k) (mark_of e.event ∷ rest) rest
marks k (alerted j reason previous at ∷ fx) =
    let rest = marks k fx in ite (Str-discrete j k) (alert ∷ rest) rest

-- The machine of one subsystem, unhealthy or not: a pause and its alert make it unhealthy, a
-- resumption ends that, and nothing else may happen.
unfoldable pub follow : Bool → List Mark → Option Bool
follow b [] = some b
follow false (pause ∷ alert ∷ ms) = follow true ms
follow true (resume ∷ ms) = follow false ms
follow _ _ = none

follow-append :
    (b c : Bool) (ms ns : List Mark) → follow b ms ≡ some c → follow b (ms ++ ns) ≡ follow c ns
unfolding follow
follow-append b c [] ns h = ground arith
follow-append false c (pause ∷ alert ∷ ms) ns h = follow-append true c ms ns h
follow-append true c (resume ∷ ms) ns h = follow-append false c ms ns h
follow-append true c (pause ∷ ms) ns h = ground arith
follow-append true c (alert ∷ ms) ns h = ground arith
follow-append false c (pause ∷ []) ns h = ground arith
follow-append false c (pause ∷ pause ∷ ms) ns h = ground arith
follow-append false c (pause ∷ resume ∷ ms) ns h = ground arith
follow-append false c (resume ∷ ms) ns h = ground arith
follow-append false c (alert ∷ ms) ns h = ground arith

marks-append : (k : Str) (fx gx : List Effect) → marks k (fx ++ gx) ≡ marks k fx ++ marks k gx
unfolding marks
marks-append k [] gx = refl
marks-append k (changed j v reason ∷ fx) gx = marks-append k fx gx
marks-append k (recorded e ∷ fx) gx = ground (arith, marks-append k fx gx)
marks-append k (alerted j reason previous at ∷ fx) gx = ground (arith, marks-append k fx gx)

-- The effects of a change on one subsystem.
change_effects : Moment → Str → Verdict → Str → Option Verdict → List Effect
unfolding entry_of alert_of
change_effects m j v reason previous =
    changed j v reason ∷ map recorded (entry_of m j v reason previous)
    ++ alert_of m j v reason previous

marks-change :
    (m : Moment) (j k : Str) (v : Verdict) (reason : Str) (previous : Option Verdict)
    → j ≡ k
    → is_change previous v ≡ true
    → follow (was_unhealthy previous) (marks k (change_effects m j v reason previous))
      ≡ some (is_unhealthy v)
unfolding change_effects marks follow is_change same_verdict was_unhealthy is_unhealthy entry_of
    alert_of
marks-change m j k healthy reason none same change = ground arith
marks-change m j k healthy reason (some healthy) same change = ground arith
marks-change m j k healthy reason (some unhealthy) same change =
    rw (if_pos (Str-discrete j k) same) refl
marks-change m j k healthy reason (some unknown) same change = ground arith
marks-change m j k unhealthy reason none same change =
    rw (if_pos (Str-discrete j k) same, if_pos (Str-discrete j k) same) refl
marks-change m j k unhealthy reason (some healthy) same change =
    rw (if_pos (Str-discrete j k) same, if_pos (Str-discrete j k) same) refl
marks-change m j k unhealthy reason (some unhealthy) same change = ground arith
marks-change m j k unhealthy reason (some unknown) same change =
    rw (if_pos (Str-discrete j k) same, if_pos (Str-discrete j k) same) refl
marks-change m j k unknown reason none same change = ground arith
marks-change m j k unknown reason (some healthy) same change = ground arith
marks-change m j k unknown reason (some unhealthy) same change =
    rw (if_pos (Str-discrete j k) same) refl
marks-change m j k unknown reason (some unknown) same change = ground arith

skip : {P : Type 0} (d : Dec P) → ¬ P → (xs ys : List Mark) → ys ≡ [] → ite d xs ys ≡ []
skip (yes p) n xs ys h = absurd (n p)
skip (no m) n xs ys h = h

marks-others :
    (m : Moment) (j k : Str) (v : Verdict) (reason : Str) (previous : Option Verdict)
    → j ≢ k
    → marks k (change_effects m j v reason previous) ≡ []
unfolding change_effects marks entry_of alert_of
marks-others m j k v reason previous other =
    elim (Bool-cases (is_unhealthy v || was_unhealthy previous)) [
      | inl on ↦ elim (Bool-cases (is_unhealthy v && not (was_unhealthy previous))) [
        | inl into ↦
            rw (on, into)
              (skip (Str-discrete j k) other _ _ (skip (Str-discrete j k) other _ _ refl))
        | inr out ↦ rw (on, out) (skip (Str-discrete j k) other _ _ refl)
      ]
      | inr off ↦ elim (Bool-cases (is_unhealthy v && not (was_unhealthy previous))) [
        | inl into ↦ rw (off, into) (skip (Str-discrete j k) other _ _ refl)
        | inr out ↦ rw (off, out) refl
      ]
    ]

observe_effects :
    (s : EvaluatorSubscriber) (m : Moment) (j : Str) (v : Verdict) (reason : Str)
    → (observe s m j v reason).1 ≡ (
        if is_change (verdict_before s j) v
        then change_effects m j v reason (verdict_before s j)
        else [])
unfolding observe change_effects
observe_effects s m j v reason = elim (Bool-cases (is_change (verdict_before s j) v)) [
  | inl change ↦ rw change refl
  | inr same ↦ rw same refl
]

unchanged :
    (previous : Option Verdict) (v : Verdict) → is_change previous v ≡ false → previous ≡ some v
unfolding is_change same_verdict
unchanged previous v h = ground arith

follow-observe :
    (s : EvaluatorSubscriber) (m : Moment) (j : Str) (v : Verdict) (reason : Str) (k : Str)
    → follow (was_unhealthy (verdict_before s k)) (marks k (observe s m j v reason).1)
      ≡ some (was_unhealthy (verdict_before (observe s m j v reason).0 k))
unfolding follow marks was_unhealthy is_unhealthy
follow-observe s m j v reason k = elim (Bool-cases (is_change (verdict_before s j) v)) [
  | inl change ↦ elim (Str-discrete j k) [
    | yes same ↦
        rw
          (
            observe_effects s m j v reason,
            change,
            verdict-observe s m j v reason k,
            if_pos (Str-discrete j k) same,
            sym (ap (verdict_before s) same),
          )
          (marks-change m j k v reason (verdict_before s j) same change)
    | no other ↦
        rw
          (
            observe_effects s m j v reason,
            change,
            verdict-observe s m j v reason k,
            if_neg (Str-discrete j k) other,
            marks-others m j k v reason (verdict_before s j) other,
          )
          refl
  ]
  | inr kept ↦ elim (Str-discrete j k) [
    | yes same ↦
        rw
          (
            observe_effects s m j v reason,
            kept,
            verdict-observe s m j v reason k,
            if_pos (Str-discrete j k) same,
            sym (ap (verdict_before s) same),
            unchanged (verdict_before s j) v kept,
          )
          refl
    | no other ↦
        rw
          (
            observe_effects s m j v reason,
            kept,
            verdict-observe s m j v reason k,
            if_neg (Str-discrete j k) other,
          )
          refl
  ]
]

follow-perform :
    (s : EvaluatorSubscriber) (e : Event) (k : Str)
    → follow (was_unhealthy (verdict_before s k)) (marks k (perform s e).1)
      ≡ some (was_unhealthy (verdict_before (perform s e).0 k))
unfolding perform marks follow
follow-perform s (message m msg) k = elim (Option-cases (reading msg)) [
  | inl invalid ↦ rw (handle-invalid s m msg invalid) refl
  | inr ((j, v, reason), valid) ↦
      rw (handle-valid s m msg j v reason valid) (follow-observe s m j v reason k)
]
follow-perform s (override j text) k =
    ap (λ x. some (was_unhealthy x)) (sym (verdict-set_override s j text k))

-- From any state of a subscriber, over any sequence of messages and overrides, what concerns one
-- subsystem in the audit trail and among the alerts is a pause with its alert, then a
-- resumption, then a pause with its alert, and so on, whatever happens to the others; and the last
-- of them is a pause exactly if the verdict on it is then unhealthy.
pub follow-trace :
    (s : EvaluatorSubscriber) (es : List Event) (k : Str)
    → follow (was_unhealthy (verdict_before s k)) (marks k (trace s es))
      ≡ some (was_unhealthy (verdict_before (run s es) k))
unfolding trace run follow marks
follow-trace s [] k = refl
follow-trace s (e ∷ es) k = rw (marks-append k (perform s e).1 (trace (perform s e).0 es)) (
    follow-append _ _ (marks k (perform s e).1) _ (follow-perform s e k)
    ∙ follow-trace (perform s e).0 es k)
