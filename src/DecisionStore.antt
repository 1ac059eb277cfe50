-- ===== src/DecisionStore.antt =====
-- The ring buffer of decisions that the router fills and the dashboard reads
-- (cio/core/decision_store.py): `DecisionStore`. The time of a record, which its default factory
-- reads from the clock, stands beside the record.
use petrosa_cio.Prelude.{
  ℕ, Str, Str-discrete, Bool, true, false, leb, if◌then◌else◌, Option, none, some, List, [], ◌∷◌,
  append_bounded,
}
use petrosa_cio.Router.{DecisionRecord}
pub mod Recent
mod Tests

pub record Entry : Type 0 where
  pub timestamp : ℕ
  pub decision : DecisionRecord

-- `record`.
pub record_decision : ℕ → List Entry → Entry → List Entry
unfolding append_bounded
record_decision maxlen records entry = append_bounded maxlen records entry

-- The members that pass a test.
pub select : {A : Type 0} → (A → Bool) → List A → List A
select p [] = []
select p (x ∷ xs) = let rest = select p xs in if p x then x ∷ rest else rest

pub is_of : Str → Entry → Bool
is_of strategy_id r = elim (Str-discrete r.decision.strategy_id strategy_id) [
  | yes _ ↦ true
  | no _ ↦ false
]

-- `if strategy_id:`, which an empty text also fails.
pub of_strategy : Option Str → List Entry → List Entry
unfolding select is_of
of_strategy none results = results
of_strategy (some []) results = results
of_strategy (some (c ∷ s)) results = select (is_of (c ∷ s)) results

-- `sorted(…, reverse=True)`, which keeps the order of equal times.
pub insert_newest : Entry → List Entry → List Entry
insert_newest r [] = r ∷ []
insert_newest r (x ∷ xs) =
    let rest = insert_newest r xs in if leb x.timestamp r.timestamp then r ∷ x ∷ xs else x ∷ rest

pub sort_newest : List Entry → List Entry
unfolding insert_newest
sort_newest [] = []
sort_newest (r ∷ rs) = insert_newest r (sort_newest rs)

-- `recent`.
pub recent : List Entry → ℕ → Option Str → List Entry
unfolding select of_strategy sort_newest
recent records since strategy_id =
    sort_newest (of_strategy strategy_id (select (λ r. leb since r.timestamp) records))
