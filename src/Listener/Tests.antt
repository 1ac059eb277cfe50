-- ===== src/Listener/Tests.antt =====
-- A message whose audit times out, and its retry within a minute.
use petrosa_cio.Prelude.{
  ℕ, Str, str, Str-discrete, ◌≡◌, refl, true, false, none, some, List, [], ◌∷◌, arith,
}
use petrosa_cio.Prelude.Dict.{lookup}
use petrosa_cio.Prelude.Fixed.{fixed}
use petrosa_cio.Models.{ActionType}
use petrosa_cio.Nurse.{timed_out, audit, timeout_retry_result, failure_result}
use petrosa_cio.Arbiter.{pause_guard_policy, is_allowed}
use petrosa_cio.Arbiter.Tests.{redis, laws, floats, lower, passed, nonempty, same_side}
use petrosa_cio.Listener.{
  Values, signal_of, symbol_of, action_of, confidence_of, strategy_of, get_or, proceed, decide,
  handle_message,
}
use petrosa_cio.Listener.Retry.{Delivery, Passed, IsSuppressed, handle, run, retry-IsSuppressed}

retried : (audit fixed {X = Str} timed_out).0.action ≡ some ActionType.retry_safe
unfolding audit timeout_retry_result failure_result
retried = refl

abbrev values : Values Str ℕ
values = record {
  truthy = λ s. elim s [ [] ↦ false | x ∷ r ↦ true ];
  show = λ s. s;
  to_float = λ s. none;
  half = 7;
}

abbrev payload : Str → List (Str × Str)
payload side = (str "symbol", str "B") ∷ (str "side", side) ∷ (str "strategy_id", str "s") ∷ []

abbrev delivery : ℕ → Str → Delivery ℕ Str Str
delivery now side = record {
  subscriber = none;
  policy = pause_guard_policy;
  now = now;
  message = record { payload = some (payload side); builds = true; ending = timed_out };
}

passes : Passed (handle redis floats lower laws fixed values [] (delivery 0 (str "buy"))).1
unfolding handle handle_message decide proceed signal_of symbol_of action_of confidence_of
    strategy_of get_or is_allowed lookup Str-discrete
passes = rw passed tt

retry-IsSuppressed_example :
    IsSuppressed
      (handle redis floats lower laws fixed values
        (run redis floats lower laws fixed values
          (handle redis floats lower laws fixed values [] (delivery 0 (str "buy"))).0
          (delivery 10 (str "sell") ∷ []))
        (delivery 59 (str "long"))).1
unfolding symbol_of action_of get_or lookup Str-discrete
retry-IsSuppressed_example =
    retry-IsSuppressed redis floats lower laws fixed values [] (delivery 0 (str "buy"))
      (delivery 59 (str "long")) (delivery 10 (str "sell") ∷ []) (payload (str "buy"))
      (payload (str "long")) refl refl passes (nonempty 66 []) (nonempty 98 (str "uy"))
      (nonempty 66 []) (nonempty 108 (str "ong")) refl same_side (omega arith, omega arith)
      (omega arith)
