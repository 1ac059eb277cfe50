-- ===== src/Arbiter.antt =====
-- The signal arbiter (cio/core/arbiter.py) and the cache that keeps its state (cio/core/cache.py).
-- Redis, `lower`, and the floats with their formatting are parameters. A check reads and writes at
-- one time: checks that other replicas interleave with it, which the code accepts, are left out.
-- The texts of the reasons are left out.
use petrosa_cio.Prelude.{
  ℕ, Str, str, Str-discrete, ite, Bool, true, false, not, ◌&&◌, ◌||◌, ◌==◌, if◌then◌else◌, Option,
  none, some, List, [], ◌∷◌, ◌++◌, Result, ok, raise,
}
use petrosa_cio.Prelude.Dict.{lookup}
use petrosa_cio.Evaluators.{EvaluatorSubscriber, is_paused}
pub mod Pause
pub mod Marks
pub mod Duplicates
pub mod Passed
pub mod Tests

-- The client of Redis: what it answers at a time, and what it stores with a lifetime in seconds.
pub record Redis (S X : Type 0) : Type 0 where
  pub get : S → ℕ → Str → Result X (Option Str)
  pub set : S → ℕ → Str → Str → ℕ → Result X S

-- Confidences: `<=`, the format `.6f`, and `float(…)`, which may fail.
pub record Floats (C : Type 0) : Type 0 where
  pub at_most : C → C → Bool
  pub format : C → Str
  pub parse : Str → Option C

pub record Signal (C : Type 0) : Type 0 where
  pub symbol : Str
  pub action : Str
  pub confidence : C
  pub strategy_id : Str

-- Why a signal is suppressed, or that it may pass.
pub data Outcome : Type 0 where
  paused : Str → Outcome
  bypassed deduplicated conflict allowed : Outcome

-- The first component that `check` returns.
unfoldable pub is_allowed : Outcome → Bool
is_allowed (paused g) = false
is_allowed bypassed = true
is_allowed deduplicated = false
is_allowed conflict = false
is_allowed allowed = true

-- `_PAUSE_GUARD_SUBSYSTEMS` and `_PAUSE_GUARD_POLICY`.
pub pause_guard_subsystems : List Str
pause_guard_subsystems = str "ingest" ∷ str "execution" ∷ str "strategy-fidelity" ∷ str "audit" ∷ []

pub pause_guard_policy : List (Str × Str)
pause_guard_policy =
    (str "ingest", str "strict")
    ∷ (str "execution", str "strict")
    ∷ (str "strategy-fidelity", str "lax")
    ∷ (str "audit", str "lax")
    ∷ []

-- `_SIDE_NORMALISE`.
pub side_normalise : List (Str × Str)
side_normalise =
    (str "buy", str "buy")
    ∷ (str "long", str "buy")
    ∷ (str "bullish", str "buy")
    ∷ (str "sell", str "sell")
    ∷ (str "short", str "sell")
    ∷ (str "bearish", str "sell")
    ∷ []

-- `_normalise_action`.
pub normalise_action : (lower : Str → Str) → Str → Str
unfolding side_normalise
normalise_action lower raw = elim (lookup Str-discrete (lower raw) side_normalise) [
  | none ↦ lower raw
  | some side ↦ side
]

-- A missing or unknown policy is strict.
pub is_lax : Option Str → Bool
is_lax none = false
is_lax (some policy) = ite (Str-discrete policy (str "lax")) true false

-- The first guarded subsystem whose pause suppresses.
pub paused_by : EvaluatorSubscriber → List (Str × Str) → List Str → Option Str
unfolding is_lax
paused_by sub policy [] = none
paused_by sub policy (g ∷ guarded) =
    let rest = paused_by sub policy guarded in
    if is_paused sub g
    then (if is_lax (lookup Str-discrete g policy) then rest else some g)
    else rest

abbrev pub colon : ℕ
colon = 58

abbrev pub dedup_key : Str → Str → Str
dedup_key symbol action = str "arbiter:dedup:" ++ symbol ++ colon ∷ action

abbrev pub bias_key : Str → Str
bias_key symbol = str "arbiter:bias:" ++ symbol

-- `s.split(":", 1)`, of a text with a colon.
pub cut : Str → Option (Str × Str)
cut [] = none
cut (x ∷ s) =
    let rest = cut s in
    if x == colon then some ([], s) else elim rest [ none ↦ none | some (p, q) ↦ some (x ∷ p, q) ]

abbrev pub is_empty_text : Str → Bool
is_empty_text [] = true
is_empty_text (x ∷ s) = false

module _ {S X C : Type 0} (R : Redis S X) (F : Floats C) (lower : Str → Str) where
  -- `AsyncRedisCache.get`: a failure and an empty value are `None`.
  pub cache_get : S → ℕ → Str → Option Str
  cache_get s now key = elim (R.get s now key) [
    | raise e ↦ none
    | ok none ↦ none
    | ok (some []) ↦ none
    | ok (some (c ∷ v)) ↦ some (c ∷ v)
  ]

  -- `AsyncRedisCache.set`: a failure is only logged.
  pub cache_set : S → ℕ → Str → Str → ℕ → S
  cache_set s now key value ttl = elim (R.set s now key value ttl) [ raise e ↦ s | ok s' ↦ s' ]

  -- `raw_bias.split(":", 2)` and `float`; `none` is a malformed value.
  pub parse_bias : Str → Option (Str × C)
  unfolding cut
  parse_bias raw = elim (cut raw) [
    | none ↦ none
    | some (action, rest) ↦ elim (cut rest) [
      | none ↦ none
      | some (conf, strategy) ↦ elim (F.parse conf) [ none ↦ none | some c ↦ some (action, c) ]
    ]
  ]

  -- The last part of `check`.
  pub publish : S → ℕ → Signal C → S × Outcome
  unfolding cache_set normalise_action
  publish s now g =
      let action = normalise_action lower g.action in
      let value = action ++ colon ∷ F.format g.confidence ++ colon ∷ g.strategy_id in
      (
        cache_set (cache_set s now (bias_key g.symbol) value 300) now (dedup_key g.symbol action)
            (str "1") 60,
        allowed,
      )

  -- `stored_action and stored_action != canonical_action`, with the confidences.
  pub loses : Signal C → Str × C → Bool
  unfolding normalise_action
  loses g (stored_action, stored_conf) =
      not (is_empty_text stored_action)
      && (ite (Str-discrete stored_action (normalise_action lower g.action)) false true
          && F.at_most g.confidence stored_conf)

  -- The conflict detection, on what the bias key holds.
  pub resolve : S → ℕ → Signal C → Option Str → S × Outcome
  unfolding parse_bias loses publish cache_set
  resolve s now g none = publish s now g
  resolve s now g (some raw) = elim (parse_bias raw) [
    | none ↦ publish (cache_set s now (bias_key g.symbol) [] 1) now g
    | some stored ↦ if loses g stored then (s, conflict) else publish s now g
  ]

  -- After the pause gate and the guard.
  pub arbitrate : S → ℕ → Signal C → S × Outcome
  unfolding cache_get resolve normalise_action
  arbitrate s now g =
      elim (cache_get s now (dedup_key g.symbol (normalise_action lower g.action))) [
        | some v ↦ (s, deduplicated)
        | none ↦ resolve s now g (cache_get s now (bias_key g.symbol))
      ]

  -- The guard on a missing symbol or action.
  pub guard : S → ℕ → Signal C → S × Outcome
  unfolding arbitrate
  guard s now g =
      if is_empty_text g.symbol || is_empty_text g.action then (s, bypassed) else arbitrate s now g

  -- `check`; without a subscriber there is no pause gate.
  pub check : Option EvaluatorSubscriber → List (Str × Str) → S → ℕ → Signal C → S × Outcome
  unfolding guard paused_by pause_guard_subsystems
  check none policy s now g = guard s now g
  check (some sub) policy s now g = elim (paused_by sub policy pause_guard_subsystems) [
    | some by ↦ (s, paused by)
    | none ↦ guard s now g
  ]
