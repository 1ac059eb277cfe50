-- ===== src/Llm/Circuit.antt =====
-- When the breaker refuses calls (cio/clients/llm_client.py, `LiteLLMClient`).
use petrosa_cio.Prelude.{
  ℕ, suc, ◌+◌, ◌-◌, ◌≤◌, ◌<◌, ◌≡◌, refl, sym, subst, ◌↔◌, inl, inr, Bool, true, false, Bool-cases,
  ltb, leb, if◌then◌else◌, List, [], ◌∷◌, Str, arith,
}
use petrosa_cio.Llm.{
  Breaker, closed, is_open, reset_if_old, record_failure, record_success, completed, failed,
  malformed, Client, Calls, succeeded, process_response, give_up, try_fallback, try_primary,
  complete,
}

-- What a call that reached the models came to: `broken` at a time, and whether one of the models
-- answered all the same, in a form that cannot be read.
pub data Outcome : Type 0 where
  answered : Outcome
  broken : Bool → ℕ → Outcome

unfoldable pub outcome_of : {X : Type 0} → Calls X → Outcome
outcome_of calls = elim calls.primary [
  | completed r ↦ answered
  | failed e ↦ elim calls.fallback [
    | completed r ↦ answered
    | failed f ↦ broken false calls.failed_at
    | malformed f ↦ broken true calls.failed_at
  ]
  | malformed e ↦ elim calls.fallback [
    | completed r ↦ answered
    | failed f ↦ broken true calls.failed_at
    | malformed f ↦ broken true calls.failed_at
  ]
]

-- A call that reached the models: the time at which it asked the breaker, and what it came to.
pub record Reached : Type 0 where
  pub checked_at : ℕ
  pub outcome : Outcome

-- The calls that reached the models, the last one first.
abbrev pub Past : Type 0
Past = List Reached

abbrev pub last_failure : Past → ℕ
last_failure [] = 0
last_failure (r ∷ past) = elim r.outcome [ answered ↦ last_failure past | broken heard t ↦ t ]

-- How many calls failed in a row, none of them heard from, and none checked more than five minutes
-- after the failure before it.
abbrev pub streak : Past → ℕ
streak [] = 0
streak (r ∷ past) = elim r.outcome [
  | answered ↦ 0
  | broken heard t ↦
      suc
        (if heard then 0 else if ltb 300 (r.checked_at - last_failure past) then 0 else streak past)
]

-- What the next check is to find: the last call to reach the models failed as the fifth of a row or
-- later, less than a minute ago.
abbrev pub IsTripped : Past → ℕ → Type 0
IsTripped [] now = ⊥
IsTripped (r ∷ past) now = elim r.outcome [
  | answered ↦ ⊥
  | broken heard t ↦ (5 ≤ streak (r ∷ past)) × (now < t + 60)
]

-- One call after another: the client, and what reached the models.
unfoldable pub call : {X : Type 0} → Str → Client × Past → Calls X → Client × Past
unfolding is_open outcome_of
call prompt_id (client, past) calls = (
  (complete client prompt_id calls).0,
  if is_open client.breaker calls.checked_at
      then past
      else record { checked_at = calls.checked_at; outcome = outcome_of calls } ∷ past,
)

unfoldable pub run : {X : Type 0} → Str → Client × Past → List (Calls X) → Client × Past
unfolding call
run prompt_id s [] = s
run prompt_id s (c ∷ cs) = run prompt_id (call prompt_id s c) cs

-- The calls follow one another from a time to a later one.
abbrev pub IsTimely : {X : Type 0} → ℕ → List (Calls X) → ℕ → Type 0
IsTimely from [] now = from ≤ now
IsTimely from (c ∷ cs) now =
    (from ≤ c.checked_at) × (c.checked_at ≤ c.failed_at) × IsTimely c.failed_at cs now

-- The breaker after a call that reaches the models.
settle : Breaker → ℕ → Outcome → Breaker
settle b checked answered = record_success (reset_if_old b checked)
settle b checked (broken true t) = record_failure (record_success (reset_if_old b checked)) t
settle b checked (broken false t) = record_failure (reset_if_old b checked) t

breaker-complete :
    {X : Type 0} (client : Client) (prompt_id : Str) (calls : Calls X)
    → is_open client.breaker calls.checked_at ≡ false
    → (complete client prompt_id calls).0.breaker
      ≡ settle client.breaker calls.checked_at (outcome_of calls)
unfolding complete try_primary try_fallback give_up succeeded process_response outcome_of settle
    record_success
breaker-complete client prompt_id calls h = rw (complete, h) (ground arith)

-- What the breaker keeps of the past, for checks at `from` or later.
record IsKept (b : Breaker) (past : Past) (from : ℕ) : Type 0 where
  counted : b.failure_count ≡ streak past
  timed : b.last_failure_time ≡ last_failure past
  opened : (now : ℕ) → from ≤ now → (is_open b now ≡ true) ↔ IsTripped past now

settle-count :
    (b : Breaker) (past : Past) (checked : ℕ) (o : Outcome)
    → b.failure_count ≡ streak past
    → b.last_failure_time ≡ last_failure past
    → (settle b checked o).failure_count
      ≡ streak (record { checked_at = checked; outcome = o } ∷ past)
unfolding settle record_failure record_success reset_if_old
settle-count b past checked answered h k = ground arith
settle-count b past checked (broken true t) h k = ground arith
settle-count b past checked (broken false t) h k = ground arith

settle-time :
    (b : Breaker) (past : Past) (checked : ℕ) (o : Outcome)
    → b.last_failure_time ≡ last_failure past
    → (settle b checked o).last_failure_time
      ≡ last_failure (record { checked_at = checked; outcome = o } ∷ past)
unfolding settle record_failure record_success reset_if_old
settle-time b past checked answered k = ground arith
settle-time b past checked (broken true t) k = ground arith
settle-time b past checked (broken false t) k = ground arith

-- A failure opens the breaker for a minute if it is the fifth or later; nothing else moves it.
opened_until :
    (b : Breaker) (checked : ℕ) (heard : Bool) (t : ℕ)
    → (settle b checked (broken heard t)).breaker_open_until ≡ (
        if leb 5 (settle b checked (broken heard t)).failure_count
        then t + 60
        else b.breaker_open_until)
unfolding settle record_failure record_success reset_if_old
opened_until b checked true t = ground arith
opened_until b checked false t = ground arith

unmoved :
    (b : Breaker) (checked : ℕ)
    → (settle b checked answered).breaker_open_until ≡ b.breaker_open_until
unfolding settle record_success reset_if_old
unmoved b checked = ground arith

verdict :
    (until t old count row now : ℕ)
    → until ≡ (if leb 5 count then t + 60 else old)
    → count ≡ row
    → old ≤ now
    → (ltb now until ≡ true) ↔ ((5 ≤ row) × (now < t + 60))
verdict until t old count row now e f h = ground arith

settle-opened :
    (b : Breaker) (past : Past) (checked from : ℕ) (o : Outcome)
    → is_open b checked ≡ false
    → b.failure_count ≡ streak past
    → b.last_failure_time ≡ last_failure past
    → checked ≤ from
    → (now : ℕ) → from ≤ now
    → (is_open (settle b checked o) now ≡ true)
      ↔ IsTripped (record { checked_at = checked; outcome = o } ∷ past) now
unfolding is_open
settle-opened b past checked from answered shut h k le now later = ground (arith, unmoved b checked)
settle-opened b past checked from (broken heard t) shut h k le now later =
    verdict _ t b.breaker_open_until _ _ now (opened_until b checked heard t)
      (settle-count b past checked (broken heard t) h k) (ground arith)

closed-IsKept : IsKept closed [] 0
unfolding is_open
closed-IsKept = record { counted = refl; timed = refl; opened = λ now h. ground arith }

not_tripped : (past : Past) (now : ℕ) → last_failure past + 60 ≤ now → ¬ IsTripped past now
not_tripped [] now late = λ h. h
not_tripped (r ∷ past) now late = ground arith

module _ {X : Type 0} (prompt_id : Str) where
  refused_complete :
      (client : Client) (c : Calls X)
      → is_open client.breaker c.checked_at ≡ true
      → (complete client prompt_id c).0 ≡ client
  unfolding complete
  refused_complete client c h = rw (h, complete) refl

  call-IsKept :
      (client : Client) (past : Past) (c : Calls X) (from : ℕ)
      → from ≤ c.checked_at
      → c.checked_at ≤ c.failed_at
      → IsKept client.breaker past from
      → IsKept
          (call prompt_id (client, past) c).0.breaker
          (call prompt_id (client, past) c).1
          c.failed_at
  unfolding call
  call-IsKept client past c from h k kept =
      elim (Bool-cases (is_open client.breaker c.checked_at)) [
        | inl refused ↦
            rw (refused, refused_complete client c refused)
              (record {
                counted = kept.counted;
                timed = kept.timed;
                opened = λ now later. kept.opened now (omega arith);
              })
        | inr shut ↦
            rw (shut, breaker-complete client prompt_id c shut)
              (record {
                counted =
                    settle-count client.breaker past c.checked_at (outcome_of c) kept.counted
                      kept.timed;
                timed = settle-time client.breaker past c.checked_at (outcome_of c) kept.timed;
                opened =
                    settle-opened client.breaker past c.checked_at c.failed_at (outcome_of c) shut
                      kept.counted kept.timed k;
              })
      ]

  run-IsKept :
      (client : Client) (past : Past) (cs : List (Calls X)) (from now : ℕ)
      → IsTimely from cs now
      → IsKept client.breaker past from
      → (is_open (run prompt_id (client, past) cs).0.breaker now ≡ true)
        ↔ IsTripped (run prompt_id (client, past) cs).1 now
  unfolding run
  run-IsKept client past [] from now h kept = kept.opened now h
  run-IsKept client past (c ∷ cs) from now (h, k, rest) kept =
      let (client', past') = call prompt_id (client, past) c in
      run-IsKept client' past' cs c.failed_at now rest (call-IsKept client past c from h k kept)

  -- After any calls of a new client, one after another, the next one is refused exactly if the last
  -- call that reached the models was the fifth failure of a row or a later one, less than a minute
  -- before. A row ends with a success, with an answer that cannot be read, and with a pause of more
  -- than five minutes.
  pub run-refused_iff :
      (client : Client) (cs : List (Calls X)) (now : ℕ)
      → client.breaker ≡ closed
      → IsTimely 0 cs now
      → (is_open (run prompt_id (client, []) cs).0.breaker now ≡ true)
        ↔ IsTripped (run prompt_id (client, []) cs).1 now
  run-refused_iff client cs now fresh h =
      run-IsKept client [] cs 0 now h (subst (λ b. IsKept b [] 0) (sym fresh) closed-IsKept)

  -- Liveness: whatever the calls before came to, a call a minute after the last failure goes
  -- through.
  pub run_reaches :
      (client : Client) (cs : List (Calls X)) (now : ℕ)
      → client.breaker ≡ closed
      → IsTimely 0 cs now
      → last_failure (run prompt_id (client, []) cs).1 + 60 ≤ now
      → is_open (run prompt_id (client, []) cs).0.breaker now ≡ false
  run_reaches client cs now fresh h late =
      elim (Bool-cases (is_open (run prompt_id (client, []) cs).0.breaker now)) [
        | inr shut ↦ shut
        | inl refused ↦ absurd (
            not_tripped (run prompt_id (client, []) cs).1 now late
              ((run-refused_iff client cs now fresh h).0 refused))
      ]
