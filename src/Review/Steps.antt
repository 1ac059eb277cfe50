-- ===== src/Review/Steps.antt =====
-- The steps of the tasks that share the loop, in any order.
use petrosa_cio.Prelude.{ℕ, ◌+◌, Str, ◌≡◌, true}
use petrosa_cio.Review.{
  ReviewLoop, PositionKey, is_in, add_position, remove_position, trigger_event, cadence_fire,
  end_fire,
}

-- A call of `_fire_once` ends only where one waits.
pub data Step : ReviewLoop → ReviewLoop → Type 0 where
  added : (s : ReviewLoop) (i p : Str) → Step s (add_position s i p)
  removed : (s : ReviewLoop) (i p : Str) → Step s (remove_position s i p)
  event_fired : (s : ReviewLoop) (k : PositionKey) → Step s (trigger_event s k).0
  cadence_fired : (s : ReviewLoop) (k : PositionKey) → Step s (cadence_fire s k).0
  ended : (s : ReviewLoop) (k : PositionKey) → is_in k s.running ≡ true → Step s (end_fire s k)

-- Any number of steps.
pub data Steps (s : ReviewLoop) : ReviewLoop → Type 0 where
  start : Steps s s
  then_ : {t u : ReviewLoop} → Steps s t → Step t u → Steps s u

-- How many of the steps were triggers.
abbrev pub is_trigger : {s t : ReviewLoop} → Step s t → ℕ
is_trigger (event_fired s k) = 1
is_trigger (cadence_fired s k) = 1
is_trigger _ = 0

abbrev pub triggers : {s t : ReviewLoop} → Steps s t → ℕ
triggers start = 0
triggers (then_ ss step) = is_trigger step + triggers ss
