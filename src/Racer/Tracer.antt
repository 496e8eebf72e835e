-- ===== src/Racer/Tracer.antt =====
-- An abstract tracer, and what it has to do with the state of ext/racer/racer.cc: it knows the names
-- of the methods that are being called and of those whose trace it has handed over.
use text.Mathlib.Text.{◌==◌ as str_eq}
use racer_rb.Base.{ℕ, String, ◌≡◌, ◌⊎◌, Bool, true, false, some, List, [], ◌∷◌, ◌++◌, lookup}
use racer_rb.Traces.{Ptr, ReturnTrace}
use racer_rb.Racer.State.{
  RubyValue, Vm, Message, trace_message, stop_message, State, M, pure, ◌>>◌, update,
}
use racer_rb.Racer.Calls.{CallEvent, ReturnEvent}
use racer_rb.Racer.Events.{Event, call_event, return_event, rescue_event, process_event}
use racer_rb.Racer.Stacks.{stack_of, IsGood}
use racer_rb.Racer.Pushes.{IsCallable}

-- The stack of each fiber, the log, and whether there has been a rescue.
pub record Tracer : Type 0 where
  pub stacks : ℕ → List String
  pub log : List String
  pub rescued : Bool

-- No method of the name is on top.
abbrev pub IsOffTop : String → List String → Type 0
IsOffTop name [] = Unit
IsOffTop name (top ∷ below) = str_eq top name ≡ false

-- A call is put on its stack, or is taken for a retry, if there has been a rescue and the method is on
-- top. A return takes its method off the top and logs it, or is ignored.
abbrev pub CallStep : CallEvent → Tracer → Tracer → Type 0
CallStep e a b =
    (b ≡ record a { stacks = update a.stacks e.fiber (e.method_name ∷ a.stacks e.fiber) })
    ⊎ ((a.rescued ≡ true)
        × (below : List String) × (a.stacks e.fiber ≡ e.method_name ∷ below)
        × (b ≡ a))

abbrev pub ReturnStep : ReturnEvent → Tracer → Tracer → Type 0
ReturnStep e a b =
    ((below : List String) × (a.stacks e.fiber ≡ e.method_name ∷ below)
      × (b
          ≡ record a { stacks = update a.stacks e.fiber below; log = a.log ++ e.method_name ∷ [] }))
    ⊎ (IsOffTop e.method_name (a.stacks e.fiber) × (b ≡ a))

abbrev pub Step : Event → Tracer → Tracer → Type 0
Step (call_event e) a b = CallStep e a b
Step (return_event e) a b = ReturnStep e a b
Step (rescue_event e) a b = b ≡ record a { rescued = true }

-- The abstract tracer may get from the one state to the other by the events.
pub data Run : List Event → Tracer → Tracer → Type 0 where
  done : {a b : Tracer} → a ≡ b → Run [] a b
  step : {e : Event} {es : List Event} {a b c : Tracer} → Step e a b → Run es b c → Run (e ∷ es) a c

-- The trace at `p` is of the method.
abbrev pub IsOf : State → Ptr → String → Type 0
IsOf s p name = (t : ReturnTrace) × (s.heap p ≡ some t) × (t.method_name ≡ some name)

abbrev pub AreOf : State → List Ptr → List String → Type 0
AreOf s [] [] = Unit
AreOf s [] (n ∷ ns) = ⊥
AreOf s (p ∷ ps) [] = ⊥
AreOf s (p ∷ ps) (n ∷ ns) = IsOf s p n × AreOf s ps ns

abbrev pub AreSent : State → List Message → List String → Type 0
AreSent s [] [] = Unit
AreSent s [] (n ∷ ns) = ⊥
AreSent s (trace_message p ∷ ms) (n ∷ ns) = IsOf s p n × AreSent s ms ns
AreSent s (trace_message p ∷ ms) [] = ⊥
AreSent s (stop_message ∷ ms) ns = ⊥

-- The extension's state is in order and is what the tracer's state says: its stacks hold traces of the
-- methods on the tracer's, its queue has been given traces of the methods in the log, and no trace is
-- rescued before there has been a rescue.
pub record Models (classes : List RubyValue) (f levels : ℕ) (s : State) (a : Tracer) : Type 0 where
  pub good : IsGood classes f levels s
  pub stacks : (fiber : ℕ) → AreOf s (stack_of (lookup fiber s.call_stacks)) (a.stacks fiber)
  pub log : AreSent s s.pushed a.log
  pub calm : a.rescued ≡ false → (q : Ptr) (t : ReturnTrace) → s.heap q ≡ some t → t.rescued ≡ false

-- The classes and values of an event are among those of the program.
abbrev pub IsProper :
    (vm : Vm) (classes : List RubyValue) (IsObject : RubyValue → Type 0) (f levels : ℕ)
    → Event
    → Type 0
IsProper vm classes IsObject f levels (call_event e) = IsCallable vm classes IsObject f levels e
IsProper vm classes IsObject f levels (return_event e) = IsObject e.return_value
IsProper vm classes IsObject f levels (rescue_event e) = Unit

-- The events that get to their handlers, in order.
unfoldable pub process_events : Vm → ℕ → ℕ → List Event → M (Unit {0})
unfolding process_event
process_events vm f levels [] = pure tt
process_events vm f levels (e ∷ es) = process_event vm f levels e >> process_events vm f levels es
