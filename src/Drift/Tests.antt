-- ===== src/Drift/Tests.antt =====
-- Two drifts of an envelope within an hour, and one after it.
use petrosa_cio.Prelude.{ℕ, str, Str-discrete, ◌≡◌, refl, ◌↔◌, true, none, some, [], ◌∷◌}
use petrosa_cio.Prelude.Dict.{lookup}
use petrosa_cio.Prelude.Fixed.{fixed}
use petrosa_cio.Drift.{
  Envelope, Observation, finite, numeric, is_covered, abs_F, divergence_of, max_divergence,
  compare_numbers, compute_max_divergence_pct, is_material, check_and_emit,
}
use petrosa_cio.Drift.Spacing.{IsQuiet, run, emits_iff-run}

abbrev envelope : ℕ → Envelope ℕ
envelope stop = (str "stop_loss_pct", some stop) ∷ (str "note", none) ∷ []

abbrev drift : ℕ → ℕ → Observation ℕ
drift now stop = record {
  strategy_key = str "strategy:s";
  current_value = some (envelope 2000);
  proposed_value = envelope stop;
  now = now;
}

-- From 2 to 3: a divergence of a half.
half : compute_max_divergence_pct fixed (some (envelope 2000)) (envelope 3000) ≡ finite 500
unfolding compute_max_divergence_pct compare_numbers max_divergence divergence_of abs_F is_covered
    numeric lookup Str-discrete fixed
half = refl

-- The threshold of 10 % and the window of an hour.
emits_iff-run_example :
    let (fired, log) = run fixed 100 3600 [] [] (drift 10 3000 ∷ drift 20 4000 ∷ []) in
    ((check_and_emit fixed 100 3600 fired (drift 3610 2500)).1 ≡ true) ↔ (
      (is_material fixed 100 (
          compute_max_divergence_pct fixed
            (drift 3610 2500).current_value
            (drift 3610 2500).proposed_value)
        ≡ true)
      × IsQuiet 3600 (str "strategy:s") 3610 log)
emits_iff-run_example =
    emits_iff-run fixed 100 3600 (drift 10 3000 ∷ drift 20 4000 ∷ []) (drift 3610 2500)
