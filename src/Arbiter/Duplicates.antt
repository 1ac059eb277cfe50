-- ===== src/Arbiter/Duplicates.antt =====
-- The window in which a second signal of the same kind is suppressed.
use petrosa_cio.Prelude.{
  ℕ, ◌+◌, ◌≤◌, ◌<◌, Str, Str-discrete, ◌≡◌, ◌≢◌, sym, subst, false, List, [], ◌∷◌, arith,
}
use petrosa_cio.Arbiter.{Redis, Floats, allowed, is_allowed, normalise_action, dedup_key}
use petrosa_cio.Arbiter.Marks.{
  Laws, Call, key_of, Marked, performed, check-Sound, check-Marked, check-kept,
}

module _ {S X C : Type 0} (R : Redis S X) (F : Floats C) (lower : Str → Str) (L : Laws R) where
  unfoldable pub run : S → List (Call C) → S
  run s [] = s
  run s (c ∷ cs) = run (performed R F lower L s c).0 cs

  -- The times of the checks do not go back.
  abbrev pub Follows : ℕ → List (Call C) → ℕ → Type 0
  Follows t [] u = t ≤ u
  Follows t (c ∷ cs) u = (t ≤ c.now) × Follows c.now cs u

  Follows-le : (t u : ℕ) (cs : List (Call C)) → Follows t cs u → t ≤ u
  Follows-le t u [] h = h
  Follows-le t u (c ∷ cs) h = omega (arith, h.0, Follows-le c.now u cs h.1)

  -- A mark outlasts the checks until its end: those of its key leave the store as it is.
  Marked-check :
      (s : S) (c : Call C) (t until : ℕ) (a b : Str)
      → t ≤ c.now
      → c.now < until
      → Marked R F lower L s (dedup_key a b) t until
      → Marked R F lower L (performed R F lower L s c).0 (dedup_key a b) c.now until
  Marked-check s c t until a b after before h =
      let later : Marked R F lower L s (dedup_key a b) c.now until =
        λ u from upto. h u (omega (arith, after, from)) upto in
      elim (Str-discrete (key_of R F lower L c.signal) (dedup_key a b)) [
        | no other ↦ (check-Sound R F lower L s c).1 a b until other later
        | yes same ↦
            let own : Marked R F lower L s (key_of R F lower L c.signal) c.now until =
              subst (λ k. Marked R F lower L s k c.now until) (sym same) later in
            subst (λ x. Marked R F lower L x (dedup_key a b) c.now until)
              (sym (check-kept R F lower L s c until own before)) later
      ]

  Marked-run :
      (s : S) (cs : List (Call C)) (t u until : ℕ) (a b : Str)
      → Follows t cs u
      → u < until
      → Marked R F lower L s (dedup_key a b) t until
      → Marked R F lower L (run s cs) (dedup_key a b) u until
  unfolding run
  Marked-run s [] t u until a b f before h = λ v from upto. h v (omega (arith, f, from)) upto
  Marked-run s (c ∷ cs) t u until a b f before h =
      Marked-run (performed R F lower L s c).0 cs c.now u until a b f.1 before
        (Marked-check s c t until a b f.0 (omega (arith, Follows-le c.now u cs f.1, before)) h)

  -- Of two signals with a symbol and an action, for one symbol and of one side, the second does not
  -- pass within 60 seconds after the first was allowed, whatever checks come between, if the times
  -- of the checks do not go back and Redis keeps what it documents and stores every mark.
  pub duplicate-suppressed :
      (s : S) (first : Call C) (between : List (Call C)) (second : Call C)
      → (performed R F lower L s first).1 ≡ allowed
      → second.signal.symbol ≢ []
      → second.signal.action ≢ []
      → key_of R F lower L second.signal ≡ key_of R F lower L first.signal
      → Follows first.now between second.now
      → second.now < first.now + 60
      → is_allowed (performed R F lower L (run (performed R F lower L s first).0 between) second).1
        ≡ false
  duplicate-suppressed s first between second passed symbol action same follows soon =
      let marked = (check-Sound R F lower L s first).0 passed in
      check-Marked R F lower L (run (performed R F lower L s first).0 between) second
        (first.now + 60) symbol action
        (subst
          (λ k.
            Marked R F lower L (run (performed R F lower L s first).0 between) k second.now
              (first.now + 60))
          (sym same)
          (Marked-run (performed R F lower L s first).0 between first.now second.now
            (first.now + 60) first.signal.symbol (normalise_action lower first.signal.action)
            follows soon marked))
        soon
