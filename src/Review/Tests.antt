-- ===== src/Review/Tests.antt =====
-- A trigger that fires, one that is dropped behind it, and the end of the first.
use petrosa_cio.Prelude.{◌+◌, str, Str-discrete, ◌≡◌, refl, true, [], ◌∷◌}
use petrosa_cio.Review.{
  ReviewLoop, PositionKey, Counter, trigger_event, cadence_fire, begin_fire, end_fire, is_in, add,
  discard, end_one, inc, PositionKey-discrete,
}
use petrosa_cio.Review.Steps.{Steps, start, then_, event_fired, cadence_fired, ended, triggers}
use petrosa_cio.Review.Backpressure.{IsExclusive, counted, Steps-IsExclusive, counted-Steps}

program : Unit {0}
unfolding trigger_event cadence_fire begin_fire end_fire is_in add discard end_one inc
    PositionKey-discrete Str-discrete
program = tt

abbrev key : PositionKey
key = record { strategy_id = str "s"; position_id = str "p" }

abbrev zero_each : Counter
zero_each = record { by_cadence = 0; by_event = 0 }

abbrev fresh : ReviewLoop
fresh = record {
  interval = 300;
  positions = key ∷ [];
  inflight = [];
  running = [];
  fired = zero_each;
  dropped = zero_each;
}

abbrev twice : ReviewLoop
twice = (cadence_fire (trigger_event fresh key).0 key).0

waits : is_in key twice.running ≡ true
unfolding program
waits = refl

dropped_once : twice.dropped.by_cadence ≡ 1
unfolding program
dropped_once = refl

abbrev steps : Steps fresh (end_fire twice key)
steps =
    then_
      (then_ (then_ start (event_fired fresh key)) (cadence_fired (trigger_event fresh key).0 key))
      (ended twice key waits)

Steps-IsExclusive_example : IsExclusive (end_fire twice key)
Steps-IsExclusive_example = Steps-IsExclusive steps (refl, tt)

counted-Steps_example : counted (end_fire twice key) ≡ triggers steps + counted fresh
counted-Steps_example = counted-Steps steps
