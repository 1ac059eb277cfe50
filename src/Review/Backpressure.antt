-- ===== src/Review/Backpressure.antt =====
-- One re-evaluation of a position at a time, and no trigger uncounted.
use petrosa_cio.Prelude.{
  ℕ, suc, ◌+◌, ◌≡◌, refl, sym, ap, ◌∙◌, if_pos, if_neg, false, Bool-cases, inl, inr, List, [], ◌∷◌,
  arith,
}
use petrosa_cio.Review.{
  ReviewLoop, PositionKey, PositionKey-discrete, Source, cadence, event, is_in, add, discard,
  end_one, inc, begin_fire, end_fire, trigger_event, cadence_fire, add_position, remove_position,
}
use petrosa_cio.Review.Steps.{
  Step, Steps, is_trigger, triggers, start, then_, added, removed, event_fired, cadence_fired,
  ended,
}

-- Each key stands once.
abbrev pub Distinct : List PositionKey → Type 0
Distinct [] = Unit
Distinct (k ∷ keys) = (is_in k keys ≡ false) × Distinct keys

discard-absent :
    (k : PositionKey) (keys : List PositionKey) → is_in k keys ≡ false → discard k keys ≡ keys
unfolding is_in discard
discard-absent k [] h = refl
discard-absent k (j ∷ keys) h = ground (arith, discard-absent k keys)

end_one-discard :
    (k : PositionKey) (keys : List PositionKey) → Distinct keys → end_one k keys ≡ discard k keys
unfolding end_one discard
end_one-discard k [] h = refl
end_one-discard k (j ∷ keys) h = elim (PositionKey-discrete j k) [
  | yes same ↦
      rw (if_pos (PositionKey-discrete j k) same, if_pos (PositionKey-discrete j k) same)
        (sym (discard-absent k keys (ap (λ x. is_in x keys) (sym same) ∙ h.0)))
  | no other ↦
      rw (if_neg (PositionKey-discrete j k) other, if_neg (PositionKey-discrete j k) other)
        (ap (λ rest. j ∷ rest) (end_one-discard k keys h.1))
]

is_in-discard :
    (k j : PositionKey) (keys : List PositionKey)
    → is_in j keys ≡ false
    → is_in j (discard k keys) ≡ false
unfolding is_in discard
is_in-discard k j [] h = refl
is_in-discard k j (i ∷ keys) h = ground (arith, is_in-discard k j keys)

Distinct-discard :
    (k : PositionKey) (keys : List PositionKey) → Distinct keys → Distinct (discard k keys)
unfolding discard
Distinct-discard k [] h = tt
Distinct-discard k (j ∷ keys) h = elim (PositionKey-discrete j k) [
  | yes same ↦ rw (if_pos (PositionKey-discrete j k) same) (Distinct-discard k keys h.1)
  | no other ↦
      rw (if_neg (PositionKey-discrete j k) other)
        (is_in-discard k j keys h.0, Distinct-discard k keys h.1)
]

-- The calls that wait for the runner are for distinct positions, and are those the loop calls in
-- flight.
abbrev pub IsExclusive : ReviewLoop → Type 0
IsExclusive s = (s.running ≡ s.inflight) × Distinct s.inflight

begin-IsExclusive :
    (s : ReviewLoop) (k : PositionKey) (source : Source)
    → IsExclusive s
    → IsExclusive (begin_fire s k source).0
unfolding begin_fire add
begin-IsExclusive s k source h = elim (Bool-cases (is_in k s.inflight)) [
  | inl held ↦ rw held h
  | inr free ↦ rw (free, free) (ap (λ keys. k ∷ keys) h.0, (refl, h.1))
]

end-IsExclusive : (s : ReviewLoop) (k : PositionKey) → IsExclusive s → IsExclusive (end_fire s k)
unfolding end_fire
end-IsExclusive s k h =
    (ap (end_one k) h.0 ∙ end_one-discard k s.inflight h.1, Distinct-discard k s.inflight h.1)

Step-IsExclusive : {s t : ReviewLoop} → Step s t → IsExclusive s → IsExclusive t
unfolding trigger_event cadence_fire add_position remove_position
Step-IsExclusive (added s i p) h = h
Step-IsExclusive (removed s i p) h = h
Step-IsExclusive (event_fired s k) h = begin-IsExclusive s k event h
Step-IsExclusive (cadence_fired s k) h = begin-IsExclusive s k cadence h
Step-IsExclusive (ended s k waits) h = end-IsExclusive s k h

-- In whatever order the tasks run, from a state where it holds (the first one, say), no two calls of
-- the runner for one position are in progress together, even if the position is removed and added
-- again meanwhile; and a position is in flight exactly while one is.
pub Steps-IsExclusive : {s t : ReviewLoop} → Steps s t → IsExclusive s → IsExclusive t
Steps-IsExclusive start h = h
Steps-IsExclusive (then_ ss step) h = Step-IsExclusive step (Steps-IsExclusive ss h)

-- All triggers that a state has counted.
abbrev pub counted : ReviewLoop → ℕ
counted s = s.fired.by_cadence + s.fired.by_event + (s.dropped.by_cadence + s.dropped.by_event)

counted-begin :
    (s : ReviewLoop) (k : PositionKey) (source : Source)
    → counted (begin_fire s k source).0 ≡ suc (counted s)
unfolding begin_fire inc
counted-begin s k cadence = ground arith
counted-begin s k event = ground arith

counted-Step : {s t : ReviewLoop} (step : Step s t) → counted t ≡ is_trigger step + counted s
unfolding trigger_event cadence_fire add_position remove_position end_fire
counted-Step (added s i p) = omega arith
counted-Step (removed s i p) = omega arith
counted-Step (event_fired s k) = omega (arith, counted-begin s k event)
counted-Step (cadence_fired s k) = omega (arith, counted-begin s k cadence)
counted-Step (ended s k waits) = omega arith

-- In whatever order the tasks run, every trigger, of the cadence or of an event, is counted once,
-- as fired or as dropped, and nothing else is counted.
pub counted-Steps : {s t : ReviewLoop} (ss : Steps s t) → counted t ≡ triggers ss + counted s
counted-Steps start = omega arith
counted-Steps (then_ ss step) = omega (arith, counted-Step step, counted-Steps ss)
