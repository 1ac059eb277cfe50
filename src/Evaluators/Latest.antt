-- ===== src/Evaluators/Latest.antt =====
-- Whether a subsystem is paused, from the events on it alone.
use petrosa_cio.Prelude.{
  Str, Str-discrete, ◌≡◌, refl, sym, Bool, Option, none, some, Option-cases, inl, inr, List, [],
  ◌∷◌, ite, arith, Bool-cases,
}
use petrosa_cio.Prelude.Dict.{lookup, lookup-insert, lookup-erase}
use petrosa_cio.Evaluators.{
  EvaluatorSubscriber, Verdict, Moment, Message, verdict_of, reading, observe, handle_message,
  set_override, verdict_before, is_paused, was_unhealthy, is_unhealthy, is_change,
}
use petrosa_cio.Evaluators.Run.{
  Event, message, override, perform, run, handle-invalid, handle-valid, override-refused,
  override-named,
}

-- The verdict that a subsystem has after an event: that of a valid message on it, or the old one.
unfoldable pub verdict_after : Str → Option Verdict → Event → Option Verdict
unfolding reading
verdict_after k old (message m msg) = elim (reading msg) [
  | none ↦ old
  | some (subsystem, v, reason) ↦ ite (Str-discrete subsystem k) (some v) old
]
verdict_after k old (override subsystem verdict) = old

-- The override that an operator's call sets, clears, or leaves if it raises.
unfoldable pub overridden : Option Verdict → Option Str → Option Verdict
unfolding verdict_of
overridden old none = none
overridden old (some text) = elim (verdict_of text) [ none ↦ old | some v ↦ some v ]

unfoldable pub override_after : Str → Option Verdict → Event → Option Verdict
override_after k old (message m msg) = old
override_after k old (override subsystem verdict) =
    ite (Str-discrete subsystem k) (overridden old verdict) old

-- The last of them.
unfoldable pub verdict_from : Str → Option Verdict → List Event → Option Verdict
verdict_from k old [] = old
verdict_from k old (e ∷ es) = verdict_from k (verdict_after k old e) es

unfoldable pub override_from : Str → Option Verdict → List Event → Option Verdict
override_from k old [] = old
override_from k old (e ∷ es) = override_from k (override_after k old e) es

-- Whether an override, or else a verdict, pauses.
unfoldable pub pauses : Option Verdict → Option Verdict → Bool
unfolding is_unhealthy was_unhealthy
pauses (some v) verdict = is_unhealthy v
pauses none verdict = was_unhealthy verdict

pub verdict-observe :
    (s : EvaluatorSubscriber) (m : Moment) (j : Str) (v : Verdict) (reason : Str) (k : Str)
    → verdict_before (observe s m j v reason).0 k
      ≡ ite (Str-discrete j k) (some v) (verdict_before s k)
unfolding observe
verdict-observe s m j v reason k = elim (Bool-cases (is_change (verdict_before s j) v)) [
  | inl change ↦ ground (
    arith,
    change,
    lookup-insert Str-discrete j k (record { verdict = v; reason = reason; at = m.now }) s.verdicts,
  )
  | inr same ↦ ground (
    arith,
    same,
    lookup-insert Str-discrete j k (record { verdict = v; reason = reason; at = m.now }) s.verdicts,
  )
]

pub verdict-set_override :
    (s : EvaluatorSubscriber) (j : Str) (text : Option Str) (k : Str)
    → verdict_before (set_override s j text).0 k ≡ verdict_before s k
unfolding set_override
verdict-set_override s j none k = refl
verdict-set_override s j (some text) k = elim (Option-cases (verdict_of text)) [
  | inl refused ↦ rw (override-refused s j text refused) refl
  | inr (v, named) ↦ rw (override-named s j text v named) refl
]

override-set_override :
    (s : EvaluatorSubscriber) (j : Str) (text : Option Str) (k : Str)
    → lookup Str-discrete k (set_override s j text).0.overrides
      ≡ ite
          (Str-discrete j k)
          (overridden (lookup Str-discrete k s.overrides) text)
          (lookup Str-discrete k s.overrides)
unfolding set_override overridden
override-set_override s j none k = lookup-erase Str-discrete j k s.overrides
override-set_override s j (some text) k = elim (Option-cases (verdict_of text)) [
  | inl refused ↦ rw (override-refused s j text refused, refused, overridden) (ground arith)
  | inr (v, named) ↦
      rw (override-named s j text v named, named, overridden)
        (lookup-insert Str-discrete j k v s.overrides)
]

override-handle_message :
    (s : EvaluatorSubscriber) (m : Moment) (msg : Message) (k : Str)
    → lookup Str-discrete k (handle_message s m msg).0.overrides ≡ lookup Str-discrete k s.overrides
unfolding observe
override-handle_message s m msg k = elim (Option-cases (reading msg)) [
  | inl invalid ↦ rw (handle-invalid s m msg invalid) refl
  | inr ((j, v, reason), valid) ↦ rw (handle-valid s m msg j v reason valid) (ground arith)
]

verdict-perform :
    (s : EvaluatorSubscriber) (e : Event) (k : Str)
    → verdict_before (perform s e).0 k ≡ verdict_after k (verdict_before s k) e
unfolding perform verdict_after
verdict-perform s (message m msg) k = elim (Option-cases (reading msg)) [
  | inl invalid ↦ rw (handle-invalid s m msg invalid, invalid, verdict_after) refl
  | inr ((j, v, reason), valid) ↦
      rw (handle-valid s m msg j v reason valid, valid, verdict_after)
        (verdict-observe s m j v reason k)
]
verdict-perform s (override j text) k = verdict-set_override s j text k

override-perform :
    (s : EvaluatorSubscriber) (e : Event) (k : Str)
    → lookup Str-discrete k (perform s e).0.overrides
      ≡ override_after k (lookup Str-discrete k s.overrides) e
unfolding perform override_after
override-perform s (message m msg) k = override-handle_message s m msg k
override-perform s (override j text) k = override-set_override s j text k

-- Whether a subsystem is paused after any sequence of messages and overrides is decided by the last
-- override on it that is set, and without one by the last valid verdict on it; other subsystems,
-- malformed messages and refused overrides have no part in it.
pub is_paused-run :
    (s : EvaluatorSubscriber) (es : List Event) (k : Str)
    → is_paused (run s es) k
      ≡ pauses
          (override_from k (lookup Str-discrete k s.overrides) es)
          (verdict_from k (verdict_before s k) es)
unfolding run override_from verdict_from is_paused pauses
is_paused-run s [] k = ground arith
is_paused-run s (e ∷ es) k =
    rw (sym (verdict-perform s e k), sym (override-perform s e k))
      (is_paused-run (perform s e).0 es k)
