-- ===== src/Lifecycle/Tests.antt =====
-- The lifecycle of two strategies, run.
use petrosa_cio.Prelude.{
  ℕ, Str, str, Str-discrete, ◌≡◌, ◌≢◌, refl, inl, Holds, none, some, List, [], ◌∷◌, All, ok, raise,
}
use petrosa_cio.Prelude.Dict.{lookup, insert}
use petrosa_cio.Models.{ActionType, Env}
use petrosa_cio.Lifecycle.{
  LifecycleState, StrategyLifecycle, Store, Args, allowed, register, transition, characterize,
  admit, admit_small, promote, retire, get_state, get_history, cannot_act,
}
use petrosa_cio.Lifecycle.Run.{Command, perform, run}
use petrosa_cio.Lifecycle.Machine.{run_one, lookup-run}
use petrosa_cio.Lifecycle.History.{IsTraced, run-IsTraced}
use petrosa_cio.Lifecycle.Terminal.{IsLater, run-terminal, run-IsLater}
use petrosa_cio.Lifecycle.Admission.{IsAdmitted, run-IsAdmitted}
use petrosa_cio.Lifecycle.Outcome.{Explains, perform-Explains}

abbrev env : Env
env = record { now = 7; uuid = str "c0ffee" }

abbrev args : Args ℕ
args = record { decision_id = none; reasoning = none }

abbrev alpha : Str
alpha = str "alpha"

abbrev beta : Str
beta = str "beta"

abbrev calls : List (Env × Command ℕ)
calls =
    (env, Command.register alpha ((str "window", 5) ∷ []) args)
    ∷ (env, Command.characterize alpha args)
    ∷ (env, Command.register beta [] args)
    ∷ (env, Command.admit_small alpha args)
    ∷ (env, Command.promote beta args)
    ∷ (env, Command.promote alpha args)
    ∷ (env, Command.retire alpha args)
    ∷ []

program : Unit {0}
unfolding run perform register characterize transition admit admit_small promote retire lookup
    insert get_state get_history Str-discrete allowed
program = tt

alpha_retired : get_state (run [] calls) alpha ≡ ok LifecycleState.retired
unfolding program
alpha_retired = refl

beta_registered : get_state (run [] calls) beta ≡ ok LifecycleState.registered
unfolding program
beta_registered = refl

alpha_stays :
    (perform (run [] calls) env (Command.promote alpha args)).1
    ≡ raise (cannot_act alpha ActionType.promote LifecycleState.retired)
unfolding program
alpha_stays = refl

uuids : All (λ call. call.0.uuid ≢ []) calls
uuids = (u, (u, (u, (u, (u, (u, (u, tt)))))))
  where
    u : env.uuid ≢ []
    u = cc

run-IsTraced_example : Holds (IsTraced alpha) (lookup Str-discrete alpha (run [] calls))
run-IsTraced_example = run-IsTraced calls alpha uuids

run-IsAdmitted_example : Holds IsAdmitted (lookup Str-discrete alpha (run [] calls))
run-IsAdmitted_example = run-IsAdmitted calls alpha

lookup-run_example : lookup Str-discrete beta (run [] calls) ≡ run_one beta none calls
unfolding lookup
lookup-run_example = lookup-run beta [] calls

perform-Explains_example :
    Explains (run [] calls) alpha (perform (run [] calls) env (Command.promote alpha args))
perform-Explains_example = perform-Explains (run [] calls) env (Command.promote alpha args)

abbrev closed : StrategyLifecycle ℕ
closed = record {
  strategy_id = beta;
  definition = (str "window", 5) ∷ [];
  current_state = LifecycleState.retired;
  history = [];
}

abbrev one : Store ℕ
one = (beta, closed) ∷ []

one-lookup : lookup Str-discrete beta one ≡ some closed
unfolding program
one-lookup = refl

run-terminal_example : lookup Str-discrete beta (run one calls) ≡ some closed
run-terminal_example = run-terminal one beta closed calls one-lookup (inl refl)

run-IsLater_example :
    (e' : StrategyLifecycle ℕ) × (lookup Str-discrete beta (run one calls) ≡ some e')
    × IsLater closed e'
run-IsLater_example = run-IsLater one beta closed calls one-lookup
