-- ===== src/Drift.antt =====
-- The emitter of envelope drift alerts (cio/core/alerting/envelope_drift_emitter.py):
-- `EnvelopeDriftEmitter` and `compute_max_divergence_pct`. Floats are a parameter; times are whole
-- units. Calls are awaited one after another, and an alert that the bus loses counts as sent, as in
-- the code.
use petrosa_cio.Prelude.{
  ℕ, ◌+◌, Str, Str-discrete, ite, Bool, true, false, not, ◌&&◌, ltb, if◌then◌else◌, Option, none,
  some, List, [], ◌∷◌,
}
use petrosa_cio.Prelude.Dict.{lookup, insert}
use petrosa_cio.Prelude.Floats.{Floats, zero_F, max_F}
pub mod Spacing
mod Tests

-- An envelope: by key, a number, or `none` for a value of another type.
abbrev pub Envelope : Type 0 → Type 0
Envelope F = List (Str × Option F)

-- A divergence: `float("inf")`, or a number.
pub data Divergence (F : Type 0) : Type 0 where
  infinite : Divergence F
  finite : F → Divergence F

-- The revision, which nothing reads back, is left out.
pub record DriftAlertRecord (F : Type 0) : Type 0 where
  pub strategy_key : Str
  pub fired_at : ℕ
  pub divergence_pct : Divergence F

-- `self._last_fired`.
abbrev pub LastFired : Type 0 → Type 0
LastFired F = List (Str × DriftAlertRecord F)

-- The arguments of `check_and_emit`, with the time of the observation.
pub record Observation (F : Type 0) : Type 0 where
  pub strategy_key : Str
  pub current_value : Option (Envelope F)
  pub proposed_value : Envelope F
  pub now : ℕ

-- The numeric keys, with their numbers.
pub numeric : {F : Type 0} → Envelope F → List (Str × F)
numeric [] = []
numeric ((k, none) ∷ value) = numeric value
numeric ((k, some x) ∷ value) = (k, x) ∷ numeric value

-- Every key of the first is one of the second.
pub is_covered : {F : Type 0} → List (Str × F) → List (Str × F) → Bool
is_covered [] others = true
is_covered ((k, x) ∷ value) others =
    let rest = is_covered value others in
    elim (lookup Str-discrete k others) [ none ↦ false | some y ↦ rest ]

module _ {F : Type 0} (O : Floats F) where
  -- `abs(x)`.
  pub abs_F : F → F
  abs_F x = if O.ltb x (zero_F O) then O.sub (zero_F O) x else x

  -- The divergence of one key.
  pub divergence_of : F → F → F
  unfolding abs_F
  divergence_of current proposed =
      O.div (abs_F (O.sub proposed current)) (max_F O (abs_F current) (O.lit 1 1_000_000_000_000))

  -- The largest over the shared keys, and 0.0 at least.
  pub max_divergence : List (Str × F) → List (Str × F) → F
  unfolding divergence_of
  max_divergence [] proposed = zero_F O
  max_divergence ((k, x) ∷ current) proposed =
      let rest = max_divergence current proposed in
      elim (lookup Str-discrete k proposed) [
        | none ↦ rest
        | some y ↦ max_F O rest (divergence_of x y)
      ]

  -- The divergence of the numbers, once both envelopes are there.
  pub compare_numbers : List (Str × F) → List (Str × F) → Divergence F
  unfolding is_covered max_divergence
  compare_numbers [] proposed = infinite
  compare_numbers (c ∷ current) proposed =
      if is_covered (c ∷ current) proposed && is_covered proposed (c ∷ current)
      then finite (max_divergence (c ∷ current) proposed)
      else infinite

  -- `compute_max_divergence_pct`.
  pub compute_max_divergence_pct : Option (Envelope F) → Envelope F → Divergence F
  unfolding numeric compare_numbers
  compute_max_divergence_pct none proposed = infinite
  compute_max_divergence_pct (some []) [] = finite (zero_F O)
  compute_max_divergence_pct (some []) (p ∷ proposed) = compare_numbers [] (numeric (p ∷ proposed))
  compute_max_divergence_pct (some (c ∷ current)) proposed =
      compare_numbers (numeric (c ∷ current)) (numeric proposed)

  -- Not `divergence_pct <= self.divergence_threshold`.
  pub is_material : F → Divergence F → Bool
  is_material threshold infinite = true
  is_material threshold (finite x) = not (O.leb x threshold)

  -- `last is not None and (now - last.fired_at) < self.rate_limit_window`.
  pub is_limited : ℕ → ℕ → Option (DriftAlertRecord F) → Bool
  is_limited window now none = false
  is_limited window now (some last) = ltb now (last.fired_at + window)

  -- `check_and_emit`: the state that it leaves, and whether it emitted.
  pub check_and_emit : F → ℕ → LastFired F → Observation F → LastFired F × Bool
  unfolding compute_max_divergence_pct is_material is_limited
  check_and_emit threshold window last_fired o =
      let divergence = compute_max_divergence_pct o.current_value o.proposed_value in
      if is_material threshold divergence
      then if is_limited window o.now (lookup Str-discrete o.strategy_key last_fired)
        then (last_fired, false)
        else (
          insert Str-discrete o.strategy_key
              (record {
                strategy_key = o.strategy_key;
                fired_at = o.now;
                divergence_pct = divergence;
              })
              last_fired,
          true,
        )
      else (last_fired, false)
