-- ===== src/Health/Hysteresis.antt =====
-- The published verdict against the history of raw verdicts.
use petrosa_cio.Prelude.{
  ℕ, false_ne_true, suc, ◌≡◌, refl, ap, sym, ◌∙◌, ◌⊎◌, inl, inr, true, false, Bool-cases, leb,
  if◌then◌else◌, List, [], ◌∷◌, arith,
}
use petrosa_cio.Evaluators.{Verdict, unknown, same_verdict}
use petrosa_cio.Health.{Emission, init_emission, apply_hysteresis, settle}

-- The emission after raw verdicts, given from the newest to the oldest.
unfoldable pub emission_after : ℕ → List Verdict → Emission
emission_after required [] = init_emission
emission_after required (v ∷ h) = apply_hysteresis required (emission_after required h) v

-- How many of the newest verdicts are `v` before another one.
unfoldable pub streak : Verdict → List Verdict → ℕ
streak v [] = 0
streak v (u ∷ h) = let rest = streak v h in if same_verdict u v then suc rest else 0

-- The verdict of the newest streak that was long enough.
unfoldable pub settled : ℕ → List Verdict → Verdict
settled required [] = unknown
settled required (v ∷ h) =
    let rest = settled required h in if leb required (suc (streak v h)) then v else rest

same→eq : (u v : Verdict) → same_verdict u v ≡ true → u ≡ v
unfolding same_verdict
same→eq u v h = ground arith

-- What the state says of the history.
abbrev Recalls : ℕ → List Verdict → Emission → Type 0
Recalls required h e =
    (e.emitted_verdict ≡ settled required h)
    × ((e.candidate_verdict ≡ e.emitted_verdict)
        ⊎ (e.candidate_streak ≡ streak e.candidate_verdict h))
    × ((v : Verdict) → same_verdict v e.candidate_verdict ≡ false → streak v h ≡ 0)

same_sym : (u v : Verdict) → same_verdict u v ≡ same_verdict v u
unfolding same_verdict
same_sym u v = ground arith

same_self : (v : Verdict) → same_verdict v v ≡ true
unfolding same_verdict
same_self v = ground arith

apply-candidate :
    (required : ℕ) (e : Emission) (v : Verdict)
    → (apply_hysteresis required e v).candidate_verdict ≡ v
unfolding apply_hysteresis settle
apply-candidate required e v = elim (Bool-cases (same_verdict v e.emitted_verdict)) [
  | inl kept ↦ rw kept refl
  | inr new ↦ elim (Bool-cases (same_verdict v e.candidate_verdict)) [
    | inl again ↦
        rw (new, again)
          (elim (Bool-cases (leb required (suc e.candidate_streak))) [
            | inl long ↦ rw long (sym (same→eq v e.candidate_verdict again))
            | inr short ↦ rw short (sym (same→eq v e.candidate_verdict again))
          ])
    | inr first ↦
        rw (new, first)
          (elim (Bool-cases (leb required 1)) [
            | inl long ↦ rw long refl
            | inr short ↦ rw short refl
          ])
  ]
]

other-streak : (v u : Verdict) (h : List Verdict) → same_verdict u v ≡ false → streak u (v ∷ h) ≡ 0
unfolding streak
other-streak v u h d = rw (sym (same_sym u v), d) refl

apply-others :
    (required : ℕ) (h : List Verdict) (e : Emission) (v u : Verdict)
    → same_verdict u (apply_hysteresis required e v).candidate_verdict ≡ false
    → streak u (v ∷ h) ≡ 0
apply-others required h e v u d =
    other-streak v u h (ap (same_verdict u) (sym (apply-candidate required e v)) ∙ d)

streak-apply :
    (required : ℕ) (h : List Verdict) (e : Emission) (v : Verdict)
    → streak (apply_hysteresis required e v).candidate_verdict (v ∷ h) ≡ suc (streak v h)
unfolding streak
streak-apply required h e v =
    ap (λ u. streak u (v ∷ h)) (apply-candidate required e v) ∙ rw (same_self v) refl

-- The three branches.
apply-kept :
    (n : ℕ) (h : List Verdict) (e : Emission) (v : Verdict)
    → Recalls (suc n) h e
    → same_verdict v e.emitted_verdict ≡ true
    → Recalls (suc n) (v ∷ h) (apply_hysteresis (suc n) e v)
unfolding apply_hysteresis settled
apply-kept n h e v r kept =
    let same = same→eq v e.emitted_verdict kept in
    (rw kept (ground (arith, r.0, same)), inl (rw kept same), apply-others (suc n) h e v)

again-streak :
    (n : ℕ) (h : List Verdict) (e : Emission) (v : Verdict)
    → Recalls (suc n) h e
    → same_verdict v e.emitted_verdict ≡ false
    → v ≡ e.candidate_verdict
    → e.candidate_streak ≡ streak v h
again-streak n h e v r new again = elim r.1 [
  | inl settled_ ↦
      absurd (false_ne_true (sym new ∙ ap (same_verdict v) (sym (again ∙ settled_)) ∙ same_self v))
  | inr counted ↦ counted ∙ ap (λ u. streak u h) (sym again)
]

apply-again :
    (n : ℕ) (h : List Verdict) (e : Emission) (v : Verdict)
    → Recalls (suc n) h e
    → same_verdict v e.emitted_verdict ≡ false
    → same_verdict v e.candidate_verdict ≡ true
    → Recalls (suc n) (v ∷ h) (apply_hysteresis (suc n) e v)
unfolding apply_hysteresis settle settled
apply-again n h e v r new again =
    let same = same→eq v e.candidate_verdict again in
    let counted = again-streak n h e v r new same in
    elim (Bool-cases (leb (suc n) (suc (streak v h)))) [
      | inl long ↦ (
        rw (new, again, counted, long) refl,
        inl (rw (new, again, counted, long) (sym same)),
        apply-others (suc n) h e v,
      )
      | inr short ↦
          let counted_up : (apply_hysteresis (suc n) e v).candidate_streak ≡ suc (streak v h) =
            rw (new, again, counted, short) refl in
          (
            rw (new, again, counted, short) r.0,
            inr (counted_up ∙ sym (streak-apply (suc n) h e v)),
            apply-others (suc n) h e v,
          )
    ]

apply-first :
    (n : ℕ) (h : List Verdict) (e : Emission) (v : Verdict)
    → Recalls (suc n) h e
    → same_verdict v e.emitted_verdict ≡ false
    → same_verdict v e.candidate_verdict ≡ false
    → Recalls (suc n) (v ∷ h) (apply_hysteresis (suc n) e v)
unfolding apply_hysteresis settle settled
apply-first n h e v r new first =
    let none_before : streak v h ≡ 0 = r.2 v first in
    elim (Bool-cases (leb (suc n) 1)) [
      | inl long ↦ (
        rw (new, first, none_before, long) refl,
        inl (rw (new, first, long) refl),
        apply-others (suc n) h e v,
      )
      | inr short ↦
          let counted_up : (apply_hysteresis (suc n) e v).candidate_streak ≡ suc (streak v h) =
            rw (new, first, short, none_before) refl in
          (
            rw (new, first, none_before, short) r.0,
            inr (counted_up ∙ sym (streak-apply (suc n) h e v)),
            apply-others (suc n) h e v,
          )
    ]

apply-Recalls :
    (n : ℕ) (h : List Verdict) (e : Emission) (v : Verdict)
    → Recalls (suc n) h e
    → Recalls (suc n) (v ∷ h) (apply_hysteresis (suc n) e v)
apply-Recalls n h e v r = elim (Bool-cases (same_verdict v e.emitted_verdict)) [
  | inl kept ↦ apply-kept n h e v r kept
  | inr new ↦ elim (Bool-cases (same_verdict v e.candidate_verdict)) [
    | inl again ↦ apply-again n h e v r new again
    | inr first ↦ apply-first n h e v r new first
  ]
]

emission-Recalls : (n : ℕ) (h : List Verdict) → Recalls (suc n) h (emission_after (suc n) h)
unfolding emission_after settled streak init_emission
emission-Recalls n [] = (refl, inl refl, λ v d. refl)
emission-Recalls n (v ∷ h) = apply-Recalls n h (emission_after (suc n) h) v (emission-Recalls n h)

-- After any ticks, the published verdict is the one that was last judged on as many ticks running
-- as are required, however the verdicts changed since, and `unknown` if none ever was.
pub emitted-settled :
    (n : ℕ) (h : List Verdict) → (emission_after (suc n) h).emitted_verdict ≡ settled (suc n) h
emitted-settled n h = (emission-Recalls n h).0
