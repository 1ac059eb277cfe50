-- ===== src/Spend/Tests.antt =====
-- Two calls on one day and one on the next.
use petrosa_cio.Prelude.{ℕ, str, Str-discrete, ◌≡◌, refl, List, [], ◌∷◌, false}
use petrosa_cio.Prelude.Dict.{lookup, insert}
use petrosa_cio.Spend.{
  Rates, Clock, total_cost_usd, new_period, sum_cost, record_call, record_in, maybe_roll_period,
  label_of, decision_type_labels, ceiling_breached,
}
use petrosa_cio.Spend.Ledger.{Call, run, spent, total-run}

program : Unit {0}
unfolding run spent sum_cost record_call record_in maybe_roll_period label_of decision_type_labels
    ceiling_breached lookup insert Str-discrete
program = tt

abbrev rates : Rates
rates = record { input = 1; output = 5 }

abbrev on_day : ℕ → Clock
on_day d = record { today = d; elapsed_seconds = 3600; ceiling = 1000 }

abbrev calls : List Call
calls =
    record { at = on_day 1; prompt_id = str "P"; input_tokens = 10; output_tokens = 2 }
    ∷ record { at = on_day 1; prompt_id = str "QQ"; input_tokens = 1; output_tokens = 0 }
    ∷ record { at = on_day 2; prompt_id = str "P"; input_tokens = 4; output_tokens = 1 }
    ∷ []

second_day : total_cost_usd rates (run (new_period (on_day 1)) calls) ≡ 9
unfolding program
second_day = refl

projected : ceiling_breached rates (run (new_period (on_day 1)) calls) (on_day 2) ≡ false
unfolding program
projected = refl

total-run_example :
    total_cost_usd rates (run (new_period (on_day 1)) calls)
    ≡ spent rates 1 (total_cost_usd rates (new_period (on_day 1))) calls
total-run_example = total-run rates (new_period (on_day 1)) calls
