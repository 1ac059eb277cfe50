-- ===== src/Authority/Tests.antt =====
-- A day at the operator's desk, run.
use petrosa_cio.Prelude.{
  ℕ, Str, str, Str-discrete, ◌≡◌, refl, true, false, none, List, [], ◌∷◌, ok, raise,
}
use petrosa_cio.Prelude.Dict.{lookup, insert, erase}
use petrosa_cio.Models.{ActionType, ActionType-discrete, Env}
use petrosa_cio.Authority.{
  unknown_queue_id, ActionAuthority, AuthorityStore, AuthorityDecision, Request, default_fallbacks,
  fallbacks_or, all_enabled, update_all, init, get_state, record_change, set_state, get_fallback,
  pending_of, enqueue_pending, pop_pending, resolve_pending, approve_pending, reject_pending,
  apply_state, apply_authority,
}
use petrosa_cio.Authority.Run.{Op, perform, run}
use petrosa_cio.Authority.Audit.{current, configured, IsAudited, run-IsAudited}
use petrosa_cio.Authority.Queue.{resolved, resolve-apply, resolve_once}
use petrosa_cio.Authority.Dispatch.{Answers, run-Answers}

program : Unit {0}
unfolding run perform init fallbacks_or default_fallbacks all_enabled update_all get_state set_state
    record_change get_fallback enqueue_pending resolve_pending pop_pending approve_pending
    reject_pending apply_authority apply_state lookup insert erase ActionType-discrete Str-discrete
program = tt

abbrev morning : Env
morning = record { now = 1; uuid = str "q" }

abbrev noon : Env
noon = record { now = 2; uuid = str "q2" }

abbrev ana : Str
ana = str "ana"

abbrev intent : Request ℕ
intent = record {
  action = ActionType.execute;
  strategy_id = str "momentum";
  decision_id = str "d1";
  correlation_id = str "c1";
  context_payload = (str "price", 100) ∷ [];
  decision_payload = [];
}

abbrev ops : List (Env × Op ℕ)
ops =
    (morning, Op.set_state ActionType.execute ActionAuthority.operator_approval_required ana [])
    ∷ (morning, Op.set_state ActionType.veto ActionAuthority.disabled [] [])
    ∷ (morning, Op.apply_authority intent)
    ∷ (noon, Op.set_state ActionType.execute ActionAuthority.disabled ana [])
    ∷ []

abbrev desk : AuthorityStore ℕ
desk = run (init [] none) ops

execute_disabled : get_state desk ActionType.execute ≡ ok ActionAuthority.disabled
unfolding program
execute_disabled = refl

veto_unchanged : get_state desk ActionType.veto ≡ ok ActionAuthority.enabled
unfolding program
veto_unchanged = refl

disabled_skips :
    (apply_authority desk noon intent).1
    ≡ ok (record {
      action = ActionType.skip;
      pending = none;
      was_disabled = true;
      original = ActionType.execute;
    })
unfolding program
disabled_skips = refl

run-IsAudited_example : IsAudited (configured []) desk
run-IsAudited_example = run-IsAudited [] none ops

run-Answers_example :
    (d : AuthorityDecision ℕ) × ((apply_authority desk noon intent).1 ≡ ok d)
    × Answers
        (current (configured [] ActionType.execute) ActionType.execute desk.audit)
        noon
        intent
        d
run-Answers_example = run-Answers [] ops noon intent

abbrev guarded : AuthorityStore ℕ
guarded = run (init [] none) (
    (morning, Op.set_state ActionType.execute ActionAuthority.operator_approval_required ana [])
    ∷ [])

guarded_state : get_state guarded ActionType.execute ≡ ok ActionAuthority.operator_approval_required
unfolding program
guarded_state = refl

abbrev others : List (Env × Op ℕ)
others = (noon, Op.apply_authority intent) ∷ (noon, Op.reject_pending (str "q2") ana []) ∷ []

resolve-apply_example :
    (resolve_pending
      (run (apply_authority guarded morning intent).0 others)
      noon
      (str "q")
      true
      ana
      []).1
    ≡ ok (resolved noon (str "q") true ana [] (pending_of morning intent))
resolve-apply_example =
    resolve-apply guarded morning noon intent others true ana [] guarded_state
      ((cc, tt), ((cc, cc), tt)) (cc)

abbrev queued : AuthorityStore ℕ
queued = (apply_authority guarded morning intent).0

queued_resolves :
    (resolve_pending queued noon (str "q") true ana []).1
    ≡ ok (resolved noon (str "q") true ana [] (pending_of morning intent))
unfolding program
queued_resolves = refl

resolve_once_example :
    (resolve_pending
      (run (resolve_pending queued noon (str "q") true ana []).0 others)
      noon
      (str "q")
      false
      ana
      []).1
    ≡ raise (unknown_queue_id (str "q"))
resolve_once_example =
    resolve_once (str "q") queued noon noon true false ana [] ana []
      (resolved noon (str "q") true ana [] (pending_of morning intent)) others queued_resolves
      (cc, (cc, tt)) (cc)
