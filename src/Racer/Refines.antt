-- ===== src/Racer/Refines.antt =====
-- ext/racer/racer.cc, process_call_event, process_return_event and process_rescued_event: each does
-- what the abstract tracer may do.
mod Call
mod Return
mod Rescue
use mathlib.Core.Path.{subst}
use text.Mathlib.Text.{◌==◌ as str_eq}
use text.Mathlib.TextEquality.{eq_iff}
use racer_rb.Base.{
  ℕ, ◌+◌, ◌≤◌, ◌<◌, String, ◌≡◌, refl, sym, ap, ◌∙◌, ◌⊎◌, inl, inr, Bool, true, false, Option, none,
  some, List, [], ◌∷◌, ◌++◌, ◌==◌, if◌then◌else◌, All, lookup, insert, lookup-insert, arith,
  Bool-cases,
}
use racer_rb.Traces.{CString, Ptr, ReturnTrace}
use racer_rb.Racer.State.{
  RubyValue, Vm, trace_message, stop_message, State, M, pure, update, ◌>>◌, and_then, read_trace,
  write_trace,
}
use racer_rb.Racer.Ensures.{Ensures, holds, Ensures-bind, Ensures-mono, Ensures-if}
use racer_rb.Racer.Known.{Ready}
use racer_rb.Racer.Calls.{
  CallEvent, ReturnEvent, RescueEvent, strcmp_eq, name_matches, process_call_event,
  process_return_event, process_rescued_event, rescue_on,
}
use racer_rb.Racer.Events.{Event, call_event, return_event, rescue_event, process_event}
use racer_rb.Racer.Returns.{
  Sent, IsUnmatched, process_return_event_unmatched, process_return_event-Sent,
}
use racer_rb.Racer.Stacks.{
  World, IsAwaiting, IsAwaiting-AreMade, Stands, stack_of, IsGood, All-map, stacks-insert,
}
use racer_rb.Racer.Pushes.{IsCallable}
use racer_rb.Racer.Records.{Recorded}
use racer_rb.Racer.Retries.{process_call_event-Outcome}
use racer_rb.Racer.Outcomes.{Retries, Unrecorded, Outcome}
use racer_rb.Racer.Tracer.{
  Tracer, IsOffTop, CallStep, ReturnStep, Step, Run, done, step, IsOf, AreOf, AreSent, Models,
  IsProper, process_events,
}
use racer_rb.Racer.Models.{
  differ, Keeps, IsOf-Keeps, AreOf-Keeps, AreSent-Keeps, AreSent-append_one, AreOf-insert,
  AreOf-top, AreOf-empty, writes-Keeps,
}
use racer_rb.Racer.Refines.Call.{call-Step}
use racer_rb.Racer.Refines.Return.{return-Step}
use racer_rb.Racer.Refines.Rescue.{rescue-Step}

module _ (vm : Vm) (classes : List RubyValue) (IsObject : RubyValue → Type 0) (f levels : ℕ)
    (world : World vm classes IsObject) where
  pub process_event-Step :
      (e : Event) (s : State) (a : Tracer)
      → IsProper vm classes IsObject f levels e
      → Models classes f levels s a
      → Ensures
          (λ _ t. (b : Tracer) × Step e a b × Models classes f levels t b)
          (process_event vm f levels e s)
  unfolding process_event process_rescued_event
  process_event-Step (call_event e) s a proper models =
      call-Step vm classes IsObject f levels world e s a proper models
  process_event-Step (return_event e) s a proper models =
      return-Step vm classes IsObject f levels world e s a proper models
  process_event-Step (rescue_event e) s a proper models =
      rescue-Step vm classes IsObject f levels world e s a (lookup e.fiber s.call_stacks) models
        (models.good.stacks e.fiber)

-- Let the classes and values of some events be among those of a program whose classes are closed under
-- what explorations come to; let the state be in order, and be what a state of the abstract tracer says.
-- Then the events are handled one after the other without undefined behaviour, and the abstract tracer
-- may get by the same events to a state that the resulting state is again what it says. The abstract
-- tracer knows but the names of the methods on each fiber's stack, the names of the methods whose traces
-- are in the queue, and whether there has been a rescue: it puts a call on its fiber's stack, unless
-- there has been a rescue and the method is on top of it already; it takes a return's method off the top
-- of the stack and logs it, and ignores a return of any other method.
pub process_events-Run :
    (vm : Vm) (classes : List RubyValue) (IsObject : RubyValue → Type 0) (f levels : ℕ)
    (es : List Event) (s : State) (a : Tracer)
    → World vm classes IsObject
    → All (IsProper vm classes IsObject f levels) es
    → Models classes f levels s a
    → Ensures
        (λ _ t. (b : Tracer) × Run es a b × Models classes f levels t b)
        (process_events vm f levels es s)
unfolding process_events
process_events-Run vm classes IsObject f levels [] s a world proper models =
    holds (a, done refl, models)
process_events-Run vm classes IsObject f levels (e ∷ es) s a world (first, proper) models =
    Ensures-bind _ (process_event-Step vm classes IsObject f levels world e s a first models)
      λ _ t (b, first_step, models').
        Ensures-mono (process_events-Run vm classes IsObject f levels es t b world proper models')
          λ _ u (c, run, models''). (c, step first_step run, models'')
