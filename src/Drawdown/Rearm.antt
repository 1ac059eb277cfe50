-- ===== src/Drawdown/Rearm.antt =====
-- One alert for a position until it closes, whatever happens to the others.
use petrosa_cio.Prelude.{
  ◌≡◌, refl, sym, ap, ◌∙◌, ite, Bool, true, false, not, ◌&&◌, ◌||◌, Bool-cases, Option, none, some,
  Option-cases, inl, inr, List, [], ◌∷◌, arith,
}
use petrosa_cio.Prelude.Dict.{lookup, insert, lookup-insert, lookup-erase}
use petrosa_cio.Drawdown.{
  Key, Key-discrete, BreachRecord, Fired, Observation, is_breach, record_of, check_and_emit,
  notify_position_closed,
}

pub data Event : Type 0 where
  observed : Observation → Event
  closed : Key → Event

unfoldable pub perform : Fired → Event → Fired
perform fired (observed o) = (check_and_emit fired o).0
perform fired (closed k) = notify_position_closed fired k

unfoldable pub run : Fired → List Event → Fired
run fired [] = fired
run fired (e ∷ es) = run (perform fired e) es

abbrev pub is_some {ℓ} : {A : Type ℓ} → Option A → Bool
is_some none = false
is_some (some a) = true

-- The emitter has alerted for the position.
abbrev pub has_fired : Fired → Key → Bool
has_fired fired k = is_some (lookup Key-discrete k fired)

-- Whether a breach of the position was seen since its last close.
unfoldable pub breached_after : Key → Bool → Event → Bool
breached_after k b (observed o) = ite (Key-discrete o.key k) (b || is_breach o) b
breached_after k b (closed j) = ite (Key-discrete j k) false b

unfoldable pub breached_since : Key → Bool → List Event → Bool
breached_since k b [] = b
breached_since k b (e ∷ es) = breached_since k (breached_after k b e) es

check-quiet :
    (fired : Fired) (o : Observation)
    → is_breach o ≡ false
    → check_and_emit fired o ≡ (fired, false)
unfolding check_and_emit
check-quiet fired o quiet = rw (quiet, check_and_emit) refl

check-repeated :
    (fired : Fired) (o : Observation) (r : BreachRecord)
    → is_breach o ≡ true
    → lookup Key-discrete o.key fired ≡ some r
    → check_and_emit fired o ≡ (fired, false)
unfolding check_and_emit
check-repeated fired o r breach found = rw (breach, found, check_and_emit) refl

check-first :
    (fired : Fired) (o : Observation)
    → is_breach o ≡ true
    → lookup Key-discrete o.key fired ≡ none
    → check_and_emit fired o ≡ (insert Key-discrete o.key (record_of o) fired, true)
unfolding check_and_emit
check-first fired o breach absent = rw (breach, absent, check_and_emit) refl

or_false : (b : Bool) → (b || false) ≡ b
or_false b = ground arith

or_true : (b : Bool) → (b || true) ≡ true
or_true b = ground arith

is_some-ite :
    {P : Type 0} {A : Type 0} (d : Dec P) (a : A) (o : Option A)
    → is_some (ite d (some a) o) ≡ ite d true (is_some o)
is_some-ite (yes p) a o = refl
is_some-ite (no n) a o = refl

eq-ite : {P : Type 0} (d : Dec P) (x y : Bool) → (P → y ≡ x) → y ≡ ite d x y
eq-ite (yes p) x y h = h p
eq-ite (no n) x y h = refl

fired-check :
    (fired : Fired) (o : Observation) (k : Key)
    → has_fired (check_and_emit fired o).0 k
      ≡ ite (Key-discrete o.key k) (has_fired fired k || is_breach o) (has_fired fired k)
fired-check fired o k = elim (Bool-cases (is_breach o)) [
  | inr quiet ↦
      rw (check-quiet fired o quiet, quiet, or_false (has_fired fired k))
        (eq-ite (Key-discrete o.key k) (has_fired fired k) (has_fired fired k) (λ same. refl))
  | inl breach ↦ elim (Option-cases (lookup Key-discrete o.key fired)) [
    | inl absent ↦
        rw
          (
            check-first fired o breach absent,
            breach,
            or_true (has_fired fired k),
            lookup-insert Key-discrete o.key k (record_of o) fired,
          )
          (is_some-ite (Key-discrete o.key k) (record_of o) (lookup Key-discrete k fired))
    | inr (r, found) ↦
        rw (check-repeated fired o r breach found, breach, or_true (has_fired fired k))
          (eq-ite (Key-discrete o.key k) true (has_fired fired k)
            (λ same. ap is_some (ap (λ j. lookup Key-discrete j fired) (sym same) ∙ found)))
  ]
]

fired-perform :
    (fired : Fired) (e : Event) (k : Key)
    → has_fired (perform fired e) k ≡ breached_after k (has_fired fired k) e
unfolding perform breached_after notify_position_closed
fired-perform fired (observed o) k = fired-check fired o k
fired-perform fired (closed j) k = ground (arith, lookup-erase Key-discrete j k fired)

fired-run :
    (fired : Fired) (es : List Event) (k : Key)
    → has_fired (run fired es) k ≡ breached_since k (has_fired fired k) es
unfolding run breached_since
fired-run fired [] k = refl
fired-run fired (e ∷ es) k =
    fired-run (perform fired e) es k ∙ ap (λ b. breached_since k b es) (fired-perform fired e k)

emits :
    (fired : Fired) (o : Observation)
    → (check_and_emit fired o).1 ≡ (is_breach o && not (has_fired fired o.key))
emits fired o = elim (Bool-cases (is_breach o)) [
  | inr quiet ↦ rw (check-quiet fired o quiet, quiet) refl
  | inl breach ↦ elim (Option-cases (lookup Key-discrete o.key fired)) [
    | inl absent ↦ rw (check-first fired o breach absent, breach, absent) refl
    | inr (r, found) ↦ rw (check-repeated fired o r breach found, breach, found) refl
  ]
]

-- After any sequence of observations and closes, an observation is alerted exactly if it breaches
-- and no breach of that position was observed since the position last closed; so there is one alert
-- for a position until it closes, and the next breach after that is alerted again.
pub emits-run :
    (es : List Event) (o : Observation)
    → (check_and_emit (run [] es) o).1 ≡ (is_breach o && not (breached_since o.key false es))
unfolding lookup
emits-run es o = emits (run [] es) o ∙ ap (λ b. is_breach o && not b) (fired-run [] es o.key)
