-- ===== src/Evaluators/Subject.antt =====
-- The subjects of verdicts, `evaluator.{subsystem}.verdict`.
use petrosa_cio.Prelude.{
  some-injective, some-ne-none, if_pos, suc, Str, str, Str-discrete, ◌≡◌, refl, sym, ap, ◌∙◌, ◌↔◌,
  ite, if_pos, none, some, List, [], ◌∷◌, ◌++◌, length, length-append, arith, leb, true,
}
use petrosa_cio.Prelude.Split.{
  split, join, last, but_last, split_cons, join-split, split-append, last-append, but_last-append,
  join-last,
}
use petrosa_cio.Evaluators.{dot, subsystem_of_parts, subsystem_of}

-- The subject on which a subsystem's verdict is published.
abbrev pub subject_of : Str → Str
subject_of subsystem = str "evaluator" ++ dot ∷ subsystem ++ dot ∷ str "verdict"

split-subject_of :
    (s : Str) → split dot (subject_of s) ≡ str "evaluator" ∷ split dot s ++ str "verdict" ∷ []
unfolding split
split-subject_of s = rw (split-append dot s (str "verdict")) refl

parts-some :
    (p : Str) (parts : List Str)
    → leb 3 (suc (length parts)) ≡ true
    → p ≡ str "evaluator"
    → last p parts ≡ str "verdict"
    → subsystem_of_parts (p ∷ parts) ≡ some (join dot (but_last parts))
unfolding subsystem_of_parts
parts-some p parts three first final = rw (three, if_pos _ first, if_pos _ final) refl

subsystem_of-subject_of : (s : Str) → subsystem_of (subject_of s) ≡ some s
unfolding subsystem_of
subsystem_of-subject_of s =
    let (p, parts, e) = split_cons dot s in
    let three : leb 3 (suc (length (split dot s ++ str "verdict" ∷ []))) ≡ true =
      rw e (ground (arith, length-append parts (str "verdict" ∷ []))) in
    ap subsystem_of_parts (split-subject_of s)
    ∙ parts-some (str "evaluator") (split dot s ++ str "verdict" ∷ []) three refl
        (last-append (str "evaluator") (str "verdict") (split dot s))
    ∙ ap (λ x. some (join dot x)) (but_last-append (str "verdict") (split dot s))
    ∙ ap some (join-split dot s)

both-ite :
    {P Q : Type 0} {A : Type 0} (d : Dec P) (e : Dec Q) (x y : A)
    → ite d (ite e (some x) none) none ≡ some y
    → P × Q × (x ≡ y)
both-ite (yes p) (yes q) x y h = (p, q, some-injective x y h)
both-ite (yes p) (no n) x y h = absurd (some-ne-none y (sym h))
both-ite (no n) e x y h = absurd (some-ne-none y (sym h))

parts-ite :
    (p : Str) (parts : List Str)
    → leb 3 (suc (length parts)) ≡ true
    → subsystem_of_parts (p ∷ parts)
      ≡ ite
          (Str-discrete p (str "evaluator"))
          (ite
            (Str-discrete (last p parts) (str "verdict"))
            (some (join dot (but_last parts)))
            none)
          none
unfolding subsystem_of_parts
parts-ite p parts three = rw three refl

some-parts :
    (p q r : Str) (parts : List Str) (s : Str)
    → subsystem_of_parts (p ∷ q ∷ r ∷ parts) ≡ some s
    → (p ≡ str "evaluator")
      × (last p (q ∷ r ∷ parts) ≡ str "verdict")
      × (join dot (but_last (q ∷ r ∷ parts)) ≡ s)
some-parts p q r parts s h =
    both-ite (Str-discrete p (str "evaluator"))
      (Str-discrete (last p (q ∷ r ∷ parts)) (str "verdict")) _ s
      (sym (parts-ite p (q ∷ r ∷ parts) (ground arith)) ∙ h)

parts-subject :
    (p : Str) (parts : List Str) (s : Str)
    → subsystem_of_parts (p ∷ parts) ≡ some s
    → join dot (p ∷ parts) ≡ subject_of s
unfolding subsystem_of_parts
parts-subject p [] s h = absurd (some-ne-none s (sym h))
parts-subject p (q ∷ []) s h = absurd (some-ne-none s (sym h))
parts-subject p (q ∷ r ∷ parts) s h =
    let (first, final, middle) = some-parts p q r parts s h in
    rw (join-last dot p q r parts, middle, final, first) refl

-- A subject names a subsystem exactly if it is the one on which the verdicts of that subsystem are
-- published; so every subsystem, dots and all, is read back from its subject, and no two share one.
pub subsystem_of_iff :
    (subject s : Str) → (subsystem_of subject ≡ some s) ↔ (subject ≡ subject_of s)
unfolding subsystem_of
subsystem_of_iff subject s =
    let (p, parts, e) = split_cons dot subject in
    (
      λ h.
          sym (join-split dot subject)
          ∙ ap (join dot) e
          ∙ parts-subject p parts s (sym (ap subsystem_of_parts e) ∙ h),
      λ h. ap subsystem_of h ∙ subsystem_of-subject_of s,
    )
