-- ===== src/Review.antt =====
-- The re-evaluation of open positions (cio/core/position_review_loop.py): `PositionReviewLoop`, its
-- registry, and `_fire_once` in its two parts, before and after the runner is awaited, between which
-- other tasks run. A set is a list without repetitions; `running` lists the calls of `_fire_once`
-- that wait for the runner. The counters are those of Prometheus, by source.
use petrosa_cio.Prelude.{
  ℕ, suc, ◌+◌, Str, Str-discrete, ite, Bool, true, false, leb, if◌then◌else◌, Option, none, some,
  List, [], ◌∷◌, Result, ok, raise,
}
pub mod Steps
pub mod Backpressure
mod Tests

pub record PositionKey : Type 0 where
  pub strategy_id : Str
  pub position_id : Str

-- `SOURCE_CADENCE` and `SOURCE_EVENT`.
pub data Source : Type 0 where
  cadence event : Source

-- Counts by source.
pub record Counter : Type 0 where
  pub by_cadence : ℕ
  pub by_event : ℕ

pub record ReviewLoop : Type 0 where
  pub interval : ℕ
  pub positions : List PositionKey
  pub inflight : List PositionKey
  pub running : List PositionKey
  pub fired : Counter
  pub dropped : Counter

-- `ValueError` of a bad interval.
pub data Error : Type 0 where
  bad_interval : Error

unfoldable pub PositionKey-discrete : Discrete PositionKey
unfolding Str-discrete
PositionKey-discrete = hlevel Str-discrete

-- `key in keys`, `keys.add(key)` and `keys.discard(key)`.
unfoldable pub is_in : PositionKey → List PositionKey → Bool
is_in k [] = false
is_in k (j ∷ keys) = let rest = is_in k keys in ite (PositionKey-discrete j k) true rest

unfoldable pub add : PositionKey → List PositionKey → List PositionKey
unfolding is_in
add k keys = if is_in k keys then keys else k ∷ keys

unfoldable pub discard : PositionKey → List PositionKey → List PositionKey
discard k [] = []
discard k (j ∷ keys) = let rest = discard k keys in ite (PositionKey-discrete j k) rest (j ∷ rest)

-- One call of those that wait ends.
unfoldable pub end_one : PositionKey → List PositionKey → List PositionKey
end_one k [] = []
end_one k (j ∷ keys) = let rest = end_one k keys in ite (PositionKey-discrete j k) keys (j ∷ rest)

unfoldable pub inc : Source → Counter → Counter
inc cadence c = record c { by_cadence = suc c.by_cadence }
inc event c = record c { by_event = suc c.by_event }

pub init : ℕ → Result Error ReviewLoop
init interval =
    if leb interval 0
    then raise bad_interval
    else ok (record {
      interval = interval;
      positions = [];
      inflight = [];
      running = [];
      fired = record { by_cadence = 0; by_event = 0 };
      dropped = record { by_cadence = 0; by_event = 0 };
    })

pub add_position : ReviewLoop → Str → Str → ReviewLoop
add_position s strategy_id position_id = record s {
  positions = add (record { strategy_id = strategy_id; position_id = position_id }) s.positions;
}

pub remove_position : ReviewLoop → Str → Str → ReviewLoop
remove_position s strategy_id position_id = record s {
  positions = discard (record { strategy_id = strategy_id; position_id = position_id }) s.positions;
}

-- `_fire_once` up to `await self._runner(…)`; the flag tells whether it gets there.
pub begin_fire : ReviewLoop → PositionKey → Source → ReviewLoop × Bool
begin_fire s key source =
    if is_in key s.inflight then (record s { dropped = inc source s.dropped }, false) else (
      record s {
        inflight = add key s.inflight;
        running = key ∷ s.running;
        fired = inc source s.fired;
      },
      true,
    )

-- The `finally` block, whether the runner returned or raised.
pub end_fire : ReviewLoop → PositionKey → ReviewLoop
end_fire s key = record s { inflight = discard key s.inflight; running = end_one key s.running }

-- `trigger_event`, and the cadence's turn of one key of its snapshot.
pub trigger_event : ReviewLoop → PositionKey → ReviewLoop × Bool
unfolding begin_fire
trigger_event s key = begin_fire s key event

pub cadence_fire : ReviewLoop → PositionKey → ReviewLoop × Bool
unfolding begin_fire
cadence_fire s key = begin_fire s key cadence
