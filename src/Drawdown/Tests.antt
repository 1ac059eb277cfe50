-- ===== src/Drawdown/Tests.antt =====
-- A breach, a second one that is suppressed, the close of the position, and a third.
use petrosa_cio.Prelude.{str, Str-discrete, ◌≡◌, refl, true, false, not, ◌&&◌, none, [], ◌∷◌}
use petrosa_cio.Prelude.Int.{pos}
use petrosa_cio.Prelude.Dict.{lookup, insert, erase}
use petrosa_cio.Drawdown.{
  Key, Key-discrete, Observation, is_breach, check_and_emit, notify_position_closed,
}
use petrosa_cio.Drawdown.Rearm.{observed, closed, perform, run, breached_since, emits-run}

program : Unit {0}
unfolding check_and_emit is_breach notify_position_closed perform run lookup insert erase
    Key-discrete Str-discrete
program = tt

abbrev key : Key
key = record { strategy_id = str "s"; position_id = str "p" }

abbrev breach : Observation
breach = record {
  key = key;
  realized_drawdown_pct = pos 7;
  envelope_p99 = pos 6;
  envelope_p100 = none;
  observed_at = 1;
}

suppressed : (check_and_emit (run [] (observed breach ∷ [])) breach).1 ≡ false
unfolding program
suppressed = refl

rearmed : (check_and_emit (run [] (observed breach ∷ closed key ∷ [])) breach).1 ≡ true
unfolding program
rearmed = refl

emits-run_example : (check_and_emit (run [] (observed breach ∷ closed key ∷ [])) breach).1 ≡ (
    is_breach breach && not (breached_since breach.key false (observed breach ∷ closed key ∷ [])))
emits-run_example = emits-run (observed breach ∷ closed key ∷ []) breach
