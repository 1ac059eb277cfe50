-- ===== src/Drift/Spacing.antt =====
-- When drift alerts are emitted (cio/core/alerting/envelope_drift_emitter.py).
use petrosa_cio.Prelude.{
  ℕ, ◌+◌, ◌≤◌, ◌≡◌, ◌≢◌, refl, sym, ap, ◌∙◌, ◌↔◌, ◌⊎◌, inl, inr, Str, Str-discrete, ite, Bool, true,
  false, Bool-cases, false_ne_true, if◌then◌else◌, Option, none, some, List, [], ◌∷◌, All, All-mono,
  Any, arith,
}
use petrosa_cio.Prelude.Dict.{lookup, insert, lookup-insert}
use petrosa_cio.Prelude.Floats.{Floats}
use petrosa_cio.Drift.{
  DriftAlertRecord, LastFired, Observation, compute_max_divergence_pct, is_material, is_limited,
  check_and_emit,
}

-- An emission: for whom, and when.
pub record Emission : Type 0 where
  pub key : Str
  pub at : ℕ

-- A key was not alerted within the window before a time.
abbrev pub IsQuiet : ℕ → Str → ℕ → List Emission → Type 0
IsQuiet window key now = All (λ e. e.key ≡ key → e.at + window ≤ now)

-- What a dictionary entry says of the emissions: none for the key, or the last one.
abbrev Says : {F : Type 0} → List Emission → Str → Option (DriftAlertRecord F) → Type 0
Says log key none = All (λ e. e.key ≢ key) log
Says log key (some r) =
    All (λ e. e.key ≡ key → e.at ≤ r.fired_at) log
    × Any (λ e. (e.key ≡ key) × (e.at ≡ r.fired_at)) log

last_quiet :
    (log : List Emission) (t window : ℕ) (key : Str) (now : ℕ)
    → IsQuiet window key now log
    → Any (λ e. (e.key ≡ key) × (e.at ≡ t)) log
    → t + window ≤ now
last_quiet [] t window key now quiet h = absurd h
last_quiet (e ∷ log) t window key now quiet (inl (same, at)) =
    let before = quiet.0 same in omega (arith, before, at)
last_quiet (e ∷ log) t window key now quiet (inr h) = last_quiet log t window key now quiet.1 h

-- An emission for another key says nothing new.
Says-other :
    {F : Type 0} (log : List Emission) (e : Emission) (key : Str) (o : Option (DriftAlertRecord F))
    → e.key ≢ key
    → Says log key o
    → Says (e ∷ log) key o
Says-other log e key none other h = (other, h)
Says-other log e key (some r) other h = (((λ same. absurd (other same)), h.0), inr h.1)

Says-ite :
    {F P : Type 0} (log : List Emission) (key : Str) (d : Dec P) (a b : Option (DriftAlertRecord F))
    → (P → Says log key a)
    → (¬ P → Says log key b)
    → Says log key (ite d a b)
Says-ite log key (yes p) a b f g = f p
Says-ite log key (no n) a b f g = g n

module _ {F : Type 0} (O : Floats F) (threshold : F) (window : ℕ) where
  -- The observations so far: what is stored, and what was emitted, the last first.
  pub run : LastFired F → List Emission → List (Observation F) → LastFired F × List Emission
  run fired log [] = (fired, log)
  run fired log (o ∷ os) =
      let (fired', emitted) = check_and_emit O threshold window fired o in
      run fired' (if emitted then record { key = o.strategy_key; at = o.now } ∷ log else log) os

  Kept : LastFired F → List Emission → Type 0
  Kept fired log = (key : Str) → Says log key (lookup Str-discrete key fired)

  IsQuiet-unlimited :
      (log : List Emission) (key : Str) (now : ℕ) (last : Option (DriftAlertRecord F))
      → Says log key last
      → (is_limited O window now last ≡ false) ↔ IsQuiet window key now log
  unfolding is_limited
  IsQuiet-unlimited log key now none h =
      ((λ k. All-mono log (λ e n same. absurd (n same)) h), λ k. refl)
  IsQuiet-unlimited log key now (some r) h = (
    (λ k. All-mono log (λ e before same. let b = before same in ground arith) h.0),
    λ quiet. let before = last_quiet log r.fired_at window key now quiet h.1 in ground arith,
  )

  abbrev material : Observation F → Bool
  material o =
      is_material O threshold (compute_max_divergence_pct O o.current_value o.proposed_value)

  abbrev limited : LastFired F → Observation F → Bool
  limited fired o = is_limited O window o.now (lookup Str-discrete o.strategy_key fired)

  abbrev record_of : Observation F → DriftAlertRecord F
  record_of o = record {
    strategy_key = o.strategy_key;
    fired_at = o.now;
    divergence_pct = compute_max_divergence_pct O o.current_value o.proposed_value;
  }

  check_emits :
      (fired : LastFired F) (o : Observation F)
      → material o ≡ true
      → limited fired o ≡ false
      → check_and_emit O threshold window fired o
        ≡ (insert Str-discrete o.strategy_key (record_of o) fired, true)
  unfolding check_and_emit
  check_emits fired o h k = rw (check_and_emit, h, k) refl

  check_keeps :
      (fired : LastFired F) (o : Observation F)
      → (material o ≡ false) ⊎ (limited fired o ≡ true)
      → check_and_emit O threshold window fired o ≡ (fired, false)
  unfolding check_and_emit
  check_keeps fired o (inl h) = rw (check_and_emit, h) refl
  check_keeps fired o (inr h) = elim (Bool-cases (material o)) [
    | inl k ↦ rw (check_and_emit, k, h) refl
    | inr k ↦ rw (check_and_emit, k) refl
  ]

  -- An observation is alerted exactly if it is material and not limited.
  emits :
      (fired : LastFired F) (o : Observation F)
      → ((check_and_emit O threshold window fired o).1 ≡ true)
        ↔ ((material o ≡ true) × (limited fired o ≡ false))
  emits fired o = elim (Bool-cases (material o)) [
    | inr h ↦ (
      (λ e. absurd (false_ne_true (sym (ap (λ r. r.1) (check_keeps fired o (inl h))) ∙ e))),
      λ (m, l). absurd (false_ne_true (sym h ∙ m)),
    )
    | inl h ↦ elim (Bool-cases (limited fired o)) [
      | inl k ↦ (
        (λ e. absurd (false_ne_true (sym (ap (λ r. r.1) (check_keeps fired o (inr k))) ∙ e))),
        λ (m, l). absurd (false_ne_true (sym l ∙ k)),
      )
      | inr k ↦ ((λ e. (h, k)), λ (m, l). ap (λ r. r.1) (check_emits fired o h k))
    ]
  ]

  -- What a call leaves.
  after : LastFired F × Bool → List Emission → Observation F → LastFired F × List Emission
  after (fired, emitted) log o =
      (fired, if emitted then record { key = o.strategy_key; at = o.now } ∷ log else log)

  emission-Kept :
      (fired : LastFired F) (log : List Emission) (o : Observation F)
      → Kept fired log
      → limited fired o ≡ false
      → Kept
          (insert Str-discrete o.strategy_key (record_of o) fired)
          (record { key = o.strategy_key; at = o.now } ∷ log)
  unfolding Kept
  emission-Kept fired log o kept free key =
      let e : Emission = record { key = o.strategy_key; at = o.now } in
      let quiet = (IsQuiet-unlimited log o.strategy_key o.now _ (kept o.strategy_key)).0 free in
      rw (lookup-insert Str-discrete o.strategy_key key (record_of o) fired) (
        Says-ite (e ∷ log) key (Str-discrete o.strategy_key key) (some (record_of o))
          (lookup Str-discrete key fired)
          (λ same. (
            (
              (λ _. omega arith),
              All-mono log
                  (λ d before of_key. let b = before (of_key ∙ sym same) in omega (arith, b)) quiet,
            ),
            inl (same, refl),
          ))
          λ other. Says-other log e key (lookup Str-discrete key fired) other (kept key))

  call-Kept :
      (fired : LastFired F) (log : List Emission) (o : Observation F)
      → Kept fired log
      → let (fired', log') = after (check_and_emit O threshold window fired o) log o in
        Kept fired' log'
  unfolding after
  call-Kept fired log o kept = elim (Bool-cases (material o)) [
    | inr h ↦ rw (check_keeps fired o (inl h)) kept
    | inl h ↦ elim (Bool-cases (limited fired o)) [
      | inl k ↦ rw (check_keeps fired o (inr k)) kept
      | inr k ↦ rw (check_emits fired o h k) (emission-Kept fired log o kept k)
    ]
  ]

  run-Kept :
      (fired : LastFired F) (log : List Emission) (os : List (Observation F))
      → Kept fired log
      → Kept (run fired log os).0 (run fired log os).1
  unfolding run after
  run-Kept fired log [] kept = kept
  run-Kept fired log (o ∷ os) kept =
      let (fired', log') = after (check_and_emit O threshold window fired o) log o in
      run-Kept fired' log' os (call-Kept fired log o kept)

  -- After any sequence of observations, an observation is alerted exactly if its divergence is over
  -- the threshold and no alert for its key was emitted within the window before it, whatever the
  -- order of their times.
  pub emits_iff-run :
      (os : List (Observation F)) (o : Observation F)
      → let (fired, log) = run [] [] os in
        ((check_and_emit O threshold window fired o).1 ≡ true) ↔ (
          (is_material O threshold (compute_max_divergence_pct O o.current_value o.proposed_value)
            ≡ true)
          × IsQuiet window o.strategy_key o.now log)
  unfolding Kept lookup
  emits_iff-run os o =
      let (fired, log) = run [] [] os in
      let kept = run-Kept [] [] os (λ key. tt) in
      let quiet = IsQuiet-unlimited log o.strategy_key o.now _ (kept o.strategy_key) in
      let e = emits fired o in ((λ h. ((e.0 h).0, quiet.0 (e.0 h).1)), λ (m, q). e.1 (m, quiet.1 q))
