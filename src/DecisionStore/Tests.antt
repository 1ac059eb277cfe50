-- ===== src/DecisionStore/Tests.antt =====
-- Three decisions of two strategies in a buffer of two.
use petrosa_cio.Prelude.{
  ℕ, Str, str, Str-discrete, ◌≡◌, refl, leb, if◌then◌else◌, none, some, List, [], ◌∷◌, foldl,
  append_bounded,
}
use petrosa_cio.Prelude.Int.{pos}
use petrosa_cio.Models.{ActionType}
use petrosa_cio.DecisionStore.{
  Entry, record_decision, select, is_of, of_strategy, insert_newest, sort_newest, recent,
}
use petrosa_cio.DecisionStore.Recent.{IsNewestFirst, at, last_of, recent-run}

abbrev entry : ℕ → Str → Entry
entry t strategy = record {
  timestamp = t;
  decision = record {
    strategy_id = strategy;
    action = ActionType.execute;
    reasoning_trace = [];
    confidence = 1;
    decision_id = [];
    rejection_source = none;
    decided_leverage = pos 1;
  };
}

abbrev three : List Entry
three = entry 10 (str "a") ∷ entry 20 (str "b") ∷ entry 30 (str "a") ∷ []

-- The first one no longer fits.
newest_of_a :
    recent (foldl (record_decision 2) [] three) 5 (some (str "a")) ≡ entry 30 (str "a") ∷ []
unfolding recent record_decision append_bounded select is_of of_strategy insert_newest sort_newest
    Str-discrete
newest_of_a = refl

-- An empty text asks for every strategy.
newest_of_all :
    recent (foldl (record_decision 2) [] three) 5 (some [])
    ≡ entry 30 (str "a") ∷ entry 20 (str "b") ∷ []
unfolding recent record_decision append_bounded select is_of of_strategy insert_newest sort_newest
newest_of_all = refl

recent-run_example :
    let shown = recent (foldl (record_decision 2) [] three) 25 (some (str "a")) in
    IsNewestFirst shown
    × ((t : ℕ)
        → at t shown
          ≡ (if leb 25 t then at t (of_strategy (some (str "a")) (last_of 2 three)) else []))
recent-run_example = recent-run 2 three 25 (some (str "a"))
