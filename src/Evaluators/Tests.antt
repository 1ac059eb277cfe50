-- ===== src/Evaluators/Tests.antt =====
-- Two subsystems: a verdict pauses one, an override the other, and a malformed subject does nothing.
use petrosa_cio.Prelude.{
  append_bounded, Str, str, Str-discrete, ◌≡◌, refl, ◌↔◌, true, some, List, [], ◌∷◌,
}
use petrosa_cio.Prelude.Dict.{lookup, insert, erase}
use petrosa_cio.Evaluators.{
  Moment, object, init, handle_message, set_override, observe, reading, subsystem_of,
  subsystem_of_parts, verdict_of, is_change, same_verdict, is_unhealthy, was_unhealthy, entry_of,
  alert_of, record_all, record_entry, is_paused, paused_subsystems, rows, effective, verdict_before,
}
use petrosa_cio.Prelude.Split.{split, join, last, but_last}
use petrosa_cio.Prelude.Sort.{before, insert_sorted, sorted_keys}
use petrosa_cio.Evaluators.Subject.{subject_of, subsystem_of_iff}
use petrosa_cio.Evaluators.Listing.{Listed, paused_subsystems_iff}
use petrosa_cio.Evaluators.Run.{Event, message, override, perform, run, trace}
use petrosa_cio.Evaluators.Latest.{override_from, verdict_from, pauses, is_paused-run}
use petrosa_cio.Evaluators.Audit.{pause, resume, alert, marks, follow, follow-trace}

program : Unit {0}
unfolding handle_message set_override observe reading subsystem_of subsystem_of_parts verdict_of
    is_change same_verdict is_unhealthy was_unhealthy entry_of alert_of record_all record_entry
    append_bounded is_paused paused_subsystems rows effective split join last but_last before
    insert_sorted sorted_keys perform run trace marks follow insert erase lookup Str-discrete init
program = tt

abbrev at : Moment
at = record { now = 1; uuid = str "u" }

abbrev says : Str → Str → Event
says subject verdict =
    message at (record { subject = subject; body = object (some verdict) (some (str "lag")) })

abbrev day : List Event
day =
    says (str "evaluator.a.verdict") (str "unhealthy")
    ∷ says (str "evaluator.b2.verdict") (str "healthy")
    ∷ override (str "b2") (some (str "unhealthy"))
    ∷ says (str "evaluator.a") (str "healthy")
    ∷ says (str "evaluator.a.verdict") (str "healthy")
    ∷ []

paused_b2 : is_paused (run init day) (str "b2") ≡ true
unfolding program
paused_b2 = refl

marks_a : marks (str "a") (trace init day) ≡ pause ∷ alert ∷ resume ∷ []
unfolding program
marks_a = refl

subsystem_of_iff_example :
    (subsystem_of (str "evaluator.a.b.verdict") ≡ some (str "a.b"))
    ↔ (str "evaluator.a.b.verdict" ≡ subject_of (str "a.b"))
subsystem_of_iff_example = subsystem_of_iff (str "evaluator.a.b.verdict") (str "a.b")

paused_subsystems_iff_example :
    Listed (str "b2") (paused_subsystems (run init day))
    ↔ (is_paused (run init day) (str "b2") ≡ true)
paused_subsystems_iff_example = paused_subsystems_iff (run init day) (str "b2")

is_paused-run_example :
    is_paused (run init day) (str "b2")
    ≡ pauses
        (override_from (str "b2") (lookup Str-discrete (str "b2") init.overrides) day)
        (verdict_from (str "b2") (verdict_before init (str "b2")) day)
is_paused-run_example = is_paused-run init day (str "b2")

follow-trace_example :
    follow (was_unhealthy (verdict_before init (str "a"))) (marks (str "a") (trace init day))
    ≡ some (was_unhealthy (verdict_before (run init day) (str "a")))
follow-trace_example = follow-trace init day (str "a")
