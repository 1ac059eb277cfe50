-- ===== src/Portfolio/Tests.antt =====
-- The tracker at an equity of 10 and the default ceiling of 5.0.
use petrosa_cio.Prelude.{
  ◌+◌, ◌*◌, ◌<◌, str, Str-discrete, ◌≡◌, refl, ◌⊎◌, ◌↔◌, true, none, List, [], ◌∷◌, arith,
}
use petrosa_cio.Prelude.Dict.{insert, erase}
use petrosa_cio.Prelude.Int.{pos, negsuc, ◌≤ℤ◌}
use petrosa_cio.Portfolio.{
  EnvFloat, contribution, position_of, record_admit, record_exit, total, effective_ceiling,
  compute_aggregate, would_breach_ceiling,
}
use petrosa_cio.Portfolio.Ceiling.{
  Op, admit, exit, gate, run, IsCovered, would_breach_iff, run-IsCovered,
}

program : Unit {0}
unfolding run gate would_breach_ceiling record_admit record_exit total insert erase Str-discrete
    compute_aggregate
program = tt

abbrev ops : List Op
ops =
    admit (str "a") (pos 10) (pos 2)
    ∷ admit (str "b") (pos 10) (pos 3)
    ∷ admit (str "b") (negsuc 4) (pos 3)
    ∷ exit (str "a")
    ∷ admit (str "c") (pos 9) (pos 4)
    ∷ admit (str "d") (pos 20) (pos 1)
    ∷ []

-- The last admission would bring 36 up to 56, more than 5 times 10.
refused : total (run [] EnvFloat.unset (pos 10) none ops) ≡ 36
unfolding program
refused = refl

run-IsCovered_example :
    IsCovered (run [] EnvFloat.unset (pos 10) none ops) 10 (effective_ceiling EnvFloat.unset none)
unfolding effective_ceiling total
run-IsCovered_example = run-IsCovered [] EnvFloat.unset 9 none ops (omega arith)

breach_of_three :
    let limit = effective_ceiling EnvFloat.unset none in
    ((would_breach_ceiling [] EnvFloat.unset (pos 7) (pos 8) (pos 10) none).would_breach ≡ true) ↔ (
      (pos 10 ≤ℤ pos 0)
      ⊎ (limit.num * 10 < (total [] + contribution (position_of (pos 7) (pos 8))) * limit.den))
breach_of_three = would_breach_iff [] EnvFloat.unset (pos 7) (pos 8) (pos 10) none
