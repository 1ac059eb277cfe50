-- ===== src/Evaluators.antt =====
-- The evaluator subscriber (cio/core/evaluator_subscriber.py): `EvaluatorSubscriber`, which keeps
-- the last verdict on each subsystem and the operators' overrides, and `PauseAuditStore`. A message
-- is its subject and what `json.loads` gives of its data; a handled one leaves the new state and
-- what was sent out. A subscription hands over one message at a time. A reason that is not a
-- text is left out.
use petrosa_cio.Prelude.{
  append_bounded, ℕ, suc, Str, str, Str-discrete, ite, Bool, true, false, ◌&&◌, ltb, leb, ◌==◌, not,
  ◌||◌, or_else, take, if◌then◌else◌, Option, none, some, List, [], ◌∷◌, ◌++◌, map, length, ◌>>=◌,
  Result, ok, raise,
}
use petrosa_cio.Prelude.Split.{split, join, last, but_last}
use petrosa_cio.Prelude.Sort.{sorted_keys}
use petrosa_cio.Prelude.Dict.{lookup, insert, erase}
pub mod Subject
pub mod Paused
pub mod Listing
pub mod Run
pub mod Latest
pub mod Audit
mod Tests

pub data Verdict : Type 0 where
  healthy unhealthy unknown : Verdict

-- The verdict that a text names, or none: `verdict not in (HEALTHY, UNHEALTHY, UNKNOWN)`.
pub verdict_of : Str → Option Verdict
verdict_of s = ite (Str-discrete s (str "healthy")) (some healthy) (
    ite (Str-discrete s (str "unhealthy")) (some unhealthy)
      (ite (Str-discrete s (str "unknown")) (some unknown) none))

-- `verdict == UNHEALTHY`.
pub is_unhealthy : Verdict → Bool
is_unhealthy healthy = false
is_unhealthy unhealthy = true
is_unhealthy unknown = false

unfoldable pub same_verdict : Verdict → Verdict → Bool
same_verdict healthy healthy = true
same_verdict unhealthy unhealthy = true
same_verdict unknown unknown = true
same_verdict _ _ = false

-- A subsystem's entry in `_verdicts`.
pub record Observed : Type 0 where
  pub verdict : Verdict
  pub reason : Str
  pub at : ℕ

pub data PauseEvent : Type 0 where
  paused resumed : PauseEvent

pub record PauseAuditEntry : Type 0 where
  pub subsystem : Str
  pub event : PauseEvent
  pub verdict : Verdict
  pub reason : Str
  pub entry_id : Str
  pub timestamp : ℕ

pub record EvaluatorSubscriber : Type 0 where
  pub verdicts : List (Str × Observed)
  pub overrides : List (Str × Verdict)
  pub audit_store : List PauseAuditEntry

-- What `json.loads` gives: nothing, a value without `get`, for which the handler raises before it
-- changes anything, or an object with its two entries; a verdict that is not a text is no verdict.
pub data Decoded : Type 0 where
  unparsable other : Decoded
  object : Option Str → Option Str → Decoded

pub record Message : Type 0 where
  pub subject : Str
  pub body : Decoded

-- `payload.get(…)`, of an object.
abbrev pub payload_of : Decoded → Option (Option Str × Option Str)
payload_of (object v r) = some (v, r)
payload_of _ = none

-- What handling a message sends out: the callback `on_change`, the entry given to the audit store,
-- and the alert, with the verdict before.
pub data Effect : Type 0 where
  changed : Str → Verdict → Str → Effect
  recorded : PauseAuditEntry → Effect
  alerted : Str → Str → Option Verdict → ℕ → Effect

-- The clock and the `uuid4` of the entry that is made at this message.
pub record Moment : Type 0 where
  pub now : ℕ
  pub uuid : Str

pub init : EvaluatorSubscriber
init = record { verdicts = []; overrides = []; audit_store = [] }

abbrev pub default_maxlen : ℕ
default_maxlen = 200

-- `PauseAuditStore.record`.
pub record_entry : List PauseAuditEntry → PauseAuditEntry → List PauseAuditEntry
unfolding append_bounded
record_entry entries entry = append_bounded default_maxlen entries entry

abbrev pub dot : ℕ
dot = 46

-- The subsystem of a subject, unless its shape is not `evaluator.….verdict`.
pub subsystem_of_parts : List Str → Option Str
unfolding join last but_last
subsystem_of_parts [] = none
subsystem_of_parts (p ∷ parts) =
    if leb 3 (suc (length parts))
    then ite (Str-discrete p (str "evaluator"))
        (ite (Str-discrete (last p parts) (str "verdict")) (some (join dot (but_last parts))) none)
        none
    else none

pub subsystem_of : Str → Option Str
unfolding split subsystem_of_parts
subsystem_of subject = subsystem_of_parts (split dot subject)

-- `record[0] if record else None`.
abbrev pub verdict_in : Option Observed → Option Verdict
verdict_in none = none
verdict_in (some o) = some o.verdict

-- The verdict of `previous`.
abbrev pub verdict_before : EvaluatorSubscriber → Str → Option Verdict
verdict_before s subsystem = verdict_in (lookup Str-discrete subsystem s.verdicts)

-- `previous is None or previous[0] != verdict`.
pub is_change : Option Verdict → Verdict → Bool
unfolding same_verdict
is_change none v = true
is_change (some previous) v = not (same_verdict previous v)

pub was_unhealthy : Option Verdict → Bool
unfolding is_unhealthy
was_unhealthy none = false
was_unhealthy (some v) = is_unhealthy v

-- The entry of a pause or a resumption, if the change is one.
pub entry_of : Moment → Str → Verdict → Str → Option Verdict → List PauseAuditEntry
unfolding is_unhealthy was_unhealthy
entry_of m subsystem v reason previous =
    if is_unhealthy v || was_unhealthy previous
    then record {
      subsystem = subsystem;
      event = if is_unhealthy v then paused else resumed;
      verdict = v;
      reason = reason;
      entry_id = m.uuid;
      timestamp = m.now;
    }
      ∷ []
    else []

pub alert_of : Moment → Str → Verdict → Str → Option Verdict → List Effect
unfolding is_unhealthy was_unhealthy
alert_of m subsystem v reason previous =
    if is_unhealthy v && not (was_unhealthy previous)
    then alerted subsystem reason previous m.now ∷ []
    else []

pub record_all : List PauseAuditEntry → List PauseAuditEntry → List PauseAuditEntry
unfolding record_entry
record_all entries [] = entries
record_all entries (e ∷ more) = record_all (record_entry entries e) more

-- `_handle_message`, once the verdict is valid.
pub observe : EvaluatorSubscriber → Moment → Str → Verdict → Str → EvaluatorSubscriber × List Effect
unfolding is_change entry_of alert_of record_all
observe s m subsystem v reason =
    let previous = verdict_before s subsystem in
    let stored =
      insert Str-discrete subsystem (record { verdict = v; reason = reason; at = m.now })
        s.verdicts in
    if is_change previous v
    then (
      record s {
        verdicts = stored;
        audit_store = record_all s.audit_store (entry_of m subsystem v reason previous);
      },
      changed subsystem v reason ∷ map recorded (entry_of m subsystem v reason previous)
          ++ alert_of m subsystem v reason previous,
    )
    else (record s { verdicts = stored }, [])

-- `(payload.get("reason") or "")[:200]`.
abbrev pub reason_of : Option Str → Str
reason_of reason = take 200 (or_else reason [])

-- What a message says: a subsystem, a verdict and a reason, if it is valid.
pub reading : Message → Option (Str × Verdict × Str)
unfolding subsystem_of verdict_of
reading msg = do
  subsystem ← subsystem_of msg.subject
  (verdict, reason) ← payload_of msg.body
  text ← verdict
  v ← verdict_of text
  some (subsystem, v, reason_of reason)

pub handle_message : EvaluatorSubscriber → Moment → Message → EvaluatorSubscriber × List Effect
unfolding reading observe
handle_message s m msg = elim (reading msg) [
  | none ↦ (s, [])
  | some (subsystem, v, reason) ↦ observe s m subsystem v reason
]

pub is_paused : EvaluatorSubscriber → Str → Bool
unfolding is_unhealthy was_unhealthy
is_paused s subsystem = elim (lookup Str-discrete subsystem s.overrides) [
  | some v ↦ is_unhealthy v
  | none ↦ was_unhealthy (verdict_before s subsystem)
]

-- `set_override`: `None` clears, and any other text than a verdict's is a `ValueError`.
pub set_override :
    EvaluatorSubscriber → Str → Option Str → EvaluatorSubscriber × Result Str (Unit {0})
unfolding verdict_of
set_override s subsystem none =
    (record s { overrides = erase Str-discrete subsystem s.overrides }, ok tt)
set_override s subsystem (some verdict) = elim (verdict_of verdict) [
  | none ↦ (s, raise verdict)
  | some v ↦ (record s { overrides = insert Str-discrete subsystem v s.overrides }, ok tt)
]

-- A row of `paused_subsystems`.
pub record Row : Type 0 where
  pub subsystem : Str
  pub observed : Option Observed
  pub override : Option Verdict

abbrev pub row_of : EvaluatorSubscriber → Str → Row
row_of s k = record {
  subsystem = k;
  observed = lookup Str-discrete k s.verdicts;
  override = lookup Str-discrete k s.overrides;
}

-- `effective != UNHEALTHY: continue`, where the override comes first.
pub effective : Row → Option Verdict
effective r = elim r.override [ some v ↦ some v | none ↦ verdict_in r.observed ]

pub rows : EvaluatorSubscriber → List Str → List Row
unfolding effective was_unhealthy
rows s [] = []
rows s (k ∷ keys) =
    let rest = rows s keys in
    if was_unhealthy (effective (row_of s k)) then row_of s k ∷ rest else rest

pub paused_subsystems : EvaluatorSubscriber → List Row
unfolding rows sorted_keys
paused_subsystems s = rows s (sorted_keys s.verdicts (sorted_keys s.overrides []))
