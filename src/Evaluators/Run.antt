-- ===== src/Evaluators/Run.antt =====
-- Sequences of messages and of overrides, in any order.
use petrosa_cio.Prelude.{
  Str, Str-discrete, ◌≡◌, refl, Option, none, some, ok, raise, List, [], ◌∷◌, ◌++◌,
}
use petrosa_cio.Prelude.Dict.{insert}
use petrosa_cio.Evaluators.{
  EvaluatorSubscriber, Moment, Message, Effect, Verdict, handle_message, set_override, reading,
  observe, verdict_of,
}

pub data Event : Type 0 where
  message : Moment → Message → Event
  override : Str → Option Str → Event

-- The subscriber that an event leaves, and what it sends out.
unfoldable pub perform : EvaluatorSubscriber → Event → EvaluatorSubscriber × List Effect
perform s (message m msg) = handle_message s m msg
perform s (override subsystem verdict) = ((set_override s subsystem verdict).0, [])

unfoldable pub run : EvaluatorSubscriber → List Event → EvaluatorSubscriber
run s [] = s
run s (e ∷ es) = run (perform s e).0 es

-- All that is sent out, in order.
unfoldable pub trace : EvaluatorSubscriber → List Event → List Effect
trace s [] = []
trace s (e ∷ es) = (perform s e).1 ++ trace (perform s e).0 es

pub handle-invalid :
    (s : EvaluatorSubscriber) (m : Moment) (msg : Message)
    → reading msg ≡ none
    → handle_message s m msg ≡ (s, [])
unfolding handle_message
handle-invalid s m msg invalid = rw (invalid, handle_message) refl

pub handle-valid :
    (s : EvaluatorSubscriber) (m : Moment) (msg : Message) (j : Str) (v : Verdict) (reason : Str)
    → reading msg ≡ some (j, v, reason)
    → handle_message s m msg ≡ observe s m j v reason
unfolding handle_message
handle-valid s m msg j v reason valid = rw (valid, handle_message) refl

pub override-refused :
    (s : EvaluatorSubscriber) (j text : Str)
    → verdict_of text ≡ none
    → set_override s j (some text) ≡ (s, raise text)
unfolding set_override
override-refused s j text refused = rw (refused, set_override) refl

pub override-named :
    (s : EvaluatorSubscriber) (j text : Str) (v : Verdict)
    → verdict_of text ≡ some v
    → set_override s j (some text)
      ≡ (record s { overrides = insert Str-discrete j v s.overrides }, ok tt)
unfolding set_override
override-named s j text v named = rw (named, set_override) refl
