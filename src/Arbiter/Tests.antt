-- ===== src/Arbiter/Tests.antt =====
-- A Redis that is a dictionary with expiry times, and whole numbers for confidences.
use petrosa_cio.Prelude.{
  ℕ, ◌+◌, ◌<◌, Str, str, Str-discrete, ◌≡◌, ◌≢◌, refl, ap, subst, ◌∙◌, false, ltb, leb,
  if◌then◌else◌, ◌⊎◌, Option, none, some, List, [], ◌∷◌, Result, ok, All, arith,
}
use petrosa_cio.Prelude.Dict.{lookup, insert, lookup-insert_self, lookup-insert_ne}
use petrosa_cio.Evaluators.{EvaluatorSubscriber, unhealthy, init}
use petrosa_cio.Arbiter.{
  Redis, Floats, Outcome, paused, allowed, is_allowed, conflict, pause_guard_policy, check, guard,
  arbitrate, resolve, publish, loses, parse_bias, cut, cache_get, cache_set, normalise_action,
  side_normalise,
}
use petrosa_cio.Arbiter.Pause.{Blocks, IsFirst, check-paused}
use petrosa_cio.Arbiter.Marks.{Laws, Call, key_of, performed}
use petrosa_cio.Arbiter.Duplicates.{run, duplicate-suppressed}

program : Unit {0}
unfolding check guard arbitrate resolve publish loses parse_bias cut cache_get cache_set
    normalise_action side_normalise is_allowed lookup insert Str-discrete run
program = tt

abbrev pub Entries : Type 0
Entries = List (Str × (Str × ℕ))

abbrev live : ℕ → Option (Str × ℕ) → Option Str
live now none = none
live now (some (v, expiry)) = if ltb now expiry then some v else none

abbrev pub redis : Redis Entries (Unit {0})
redis = record {
  get = λ s now k. ok (live now (lookup Str-discrete k s));
  set = λ s now k v ttl. ok (insert Str-discrete k (v, now + ttl) s);
}

live-fresh : (now expiry : ℕ) (v : Str) → now < expiry → live now (some (v, expiry)) ≡ some v
live-fresh now expiry v h = ground arith

ok_inj : {A : Type 0} (a b : A) → Path (Result (Unit {0}) A) (ok a) (ok b) → a ≡ b
ok_inj a b h = cc

pub laws : Laws redis
laws = record {
  get_set = λ s s' t u k v ttl e from before.
      subst
        (λ x.
          Path (Result (Unit {0}) (Option Str)) (ok (live u (lookup Str-discrete k x)))
            (ok (some v)))
        (ok_inj (insert Str-discrete k (v, t + ttl) s) s' e)
        (ap (λ o. ok (live u o)) (lookup-insert_self Str-discrete k (v, t + ttl) s)
          ∙ ap ok (live-fresh u (t + ttl) v before));
  get_other = λ s s' t u k j v ttl e other from.
      subst
        (λ x.
          Path (Result (Unit {0}) (Option Str)) (ok (live u (lookup Str-discrete j x)))
            (ok (live u (lookup Str-discrete j s))))
        (ok_inj (insert Str-discrete k (v, t + ttl) s) s' e)
        (ap (λ o. ok (live u o)) (lookup-insert_ne Str-discrete k j (v, t + ttl) s other));
  available = λ s t k v ttl. (insert Str-discrete k (v, t + ttl) s, refl);
}

abbrev pub floats : Floats ℕ
floats = record {
  at_most = leb;
  format = λ c. c ∷ [];
  parse = λ s. elim s [ [] ↦ none | c ∷ rest ↦ some c ];
}

abbrev pub call : ℕ → Str → ℕ → Call ℕ
call now action confidence = record {
  subscriber = none;
  policy = pause_guard_policy;
  now = now;
  signal = record {
    symbol = str "B";
    action = action;
    confidence = confidence;
    strategy_id = str "s";
  };
}

abbrev pub lower : Str → Str
lower s = s

abbrev after_buy : Entries
after_buy = (performed redis floats lower laws [] (call 0 (str "buy") 7)).0

opposed : (performed redis floats lower laws after_buy (call 10 (str "sell") 7)).1 ≡ conflict
unfolding program
opposed = refl

pub passed : (performed redis floats lower laws [] (call 0 (str "buy") 7)).1 ≡ allowed
unfolding program
passed = refl

pub same_side : normalise_action lower (str "long") ≡ normalise_action lower (str "buy")
unfolding program
same_side = refl

same_key :
    key_of redis floats lower laws (call 59 (str "long") 9).signal
    ≡ key_of redis floats lower laws (call 0 (str "buy") 7).signal
unfolding program
same_key = refl

pub nonempty : (c : ℕ) (s : Str) → c ∷ s ≢ []
nonempty c s h = cc

duplicate-suppressed_example :
    is_allowed
      (performed redis floats lower laws
        (run redis floats lower laws after_buy (call 10 (str "sell") 7 ∷ []))
        (call 59 (str "long") 9)).1
    ≡ false
duplicate-suppressed_example =
    duplicate-suppressed redis floats lower laws [] (call 0 (str "buy") 7)
      (call 10 (str "sell") 7 ∷ []) (call 59 (str "long") 9) passed (nonempty 66 [])
      (nonempty 108 (str "ong")) same_key (omega arith, omega arith) (omega arith)

-- Two subsystems that an operator paused, of which the policy knows the first as lax.
abbrev subscriber : EvaluatorSubscriber
subscriber = record init {
  overrides = (str "ingest", unhealthy) ∷ (str "execution", unhealthy) ∷ [];
}

abbrev policy : List (Str × Str)
policy = (str "ingest", str "lax") ∷ []

-- The signal of the first call, under that policy.
abbrev gated : Entries × Outcome
gated = check redis floats lower (some subscriber) policy [] 0 (call 0 (str "buy") 7).signal

check-paused_example :
    let subsystems = str "ingest" ∷ str "execution" ∷ str "strategy-fidelity" ∷ str "audit" ∷ [] in
    (All (λ k. ¬ Blocks subscriber policy k) subsystems
      × (gated ≡ check redis floats lower none policy [] 0 (call 0 (str "buy") 7).signal))
    ⊎ ((k : Str) × IsFirst (Blocks subscriber policy) subsystems k × (gated ≡ ([], paused k)))
check-paused_example =
    check-paused redis floats lower subscriber policy [] 0 (call 0 (str "buy") 7).signal
