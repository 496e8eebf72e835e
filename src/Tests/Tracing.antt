-- ===== src/Tests/Tracing.antt =====
-- Calls, returns and rescues of a small Ruby program, and the theorems at them.
use racer_rb.Base.{ℕ, String, ◌≡◌, refl, true, false, none, some, List, [], ◌∷◌, arith, lookup, has}
use racer_rb.Traces.{unset_trace}
use racer_rb.Racer.State.{connected, State, initial}
use racer_rb.Racer.Ensures.{Ensures}
use racer_rb.Racer.Parameters.{req_param, block_param_id, RubyArgument, assign_parameters}
use racer_rb.Racer.Advanced.{Advanced}
use racer_rb.Racer.Arguments.{Filled, assign_parameters-Filled}
use racer_rb.Racer.Calls.{CallEvent, ReturnEvent, attached_class}
use racer_rb.Racer.Events.{Event, call_event, return_event, rescue_event}
use racer_rb.Racer.Stacks.{World, stack_of, IsGood}
use racer_rb.Racer.Pushes.{IsCallable}
use racer_rb.Racer.Tracer.{Tracer, Run, AreOf, AreSent, Models, process_events}
use racer_rb.Racer.Refines.{process_events-Run}
use racer_rb.Racer.Sends.{stacks_after, process_events-Sends}
use racer_rb.Protocol.Tidy.{Tidy}
use racer_rb.Protocol.TidyEvents.{Comes, process_events-Comes}
use racer_rb.Tests.Machine.{
  vm, classes, objects, classes-IsClosed, objects-AreObjects, initial-Ready,
}

abbrev pub IsObject : ℕ → Type 0
IsObject v = has v objects ≡ true

pub world : World vm classes IsObject
world = record {
  closed = classes-IsClosed;
  objects = objects-AreObjects;
  arrays = unfold has in refl;
  hashes = unfold has in refl;
}

-- Calls on the string 21, by fiber 1 unless it is said otherwise.
abbrev pub call_on : ℕ → String → CallEvent
call_on fiber name = record {
  fiber = fiber;
  method_name = name;
  defined_class = 7;
  self = 21;
  parameters = [];
  block_given = true;
}

abbrev pub return_on : ℕ → String → ReturnEvent
return_on fiber name = record { fiber = fiber; method_name = name; return_value = 23 }

pub call_on-IsCallable :
    (fiber : ℕ) (name : String) → IsCallable vm classes IsObject 8 2 (call_on fiber name)
unfolding has attached_class
call_on-IsCallable fiber name = record { owner = refl; receiver = refl; arguments = tt }

initial-IsGood : IsGood classes 8 2 initial
unfolding lookup
initial-IsGood = record {
  ready = initial-Ready;
  depth = omega arith;
  free = λ q le. refl;
  stacks = λ fiber. tt;
}

abbrev pub idle : Tracer
idle = record { stacks = λ fiber. []; log = []; rescued = false }

initial-Models : Models classes 8 2 initial idle
unfolding lookup
initial-Models = record {
  good = initial-IsGood;
  stacks = λ fiber. tt;
  log = tt;
  calm = λ quiet q t there. absurd (cc);
}

-- A required argument, and a block parameter.
abbrev arguments : List RubyArgument
arguments =
    record { id = req_param; name = some "x"; value = 23; block = none }
    ∷ record { id = block_param_id; name = some "b"; value = 21; block = none }
    ∷ []

assign_parameters-Filled_example :
    Ensures
      (λ filled t. Advanced classes 8 initial t × Filled arguments true unset_trace filled t)
      (assign_parameters vm 8 2 1 arguments true unset_trace initial)
unfolding has
assign_parameters-Filled_example =
    assign_parameters-Filled vm classes IsObject 8 2 1 arguments true unset_trace initial
      classes-IsClosed objects-AreObjects refl refl (refl, (refl, tt)) initial-Ready (omega arith)
      refl

-- `each` is rescued and called again.
abbrev retried : List Event
retried =
    call_event (call_on 1 "each")
    ∷ rescue_event (record { fiber = 1; method_name = "each" })
    ∷ call_event (call_on 1 "each")
    ∷ return_event (return_on 1 "each")
    ∷ []

process_events-Run_example :
    Ensures
      (λ _ t. (b : Tracer) × Run retried idle b × Models classes 8 2 t b)
      (process_events vm 8 2 retried initial)
unfolding has
process_events-Run_example =
    process_events-Run vm classes IsObject 8 2 retried initial idle world
      (call_on-IsCallable 1 "each", (tt, (call_on-IsCallable 1 "each", (refl, tt)))) initial-Models

-- `each` calls `map`, while another fiber calls `zip`.
abbrev interleaved : List Event
interleaved =
    call_event (call_on 1 "each")
    ∷ call_event (call_on 2 "zip")
    ∷ call_event (call_on 1 "map")
    ∷ return_event (return_on 1 "map")
    ∷ return_event (return_on 2 "zip")
    ∷ return_event (return_on 1 "each")
    ∷ []

process_events-Sends_example :
    Ensures
      (λ _ t.
        AreSent t t.pushed ("map" ∷ "zip" ∷ "each" ∷ [])
        × ((k : ℕ)
            → AreOf t
                (stack_of (lookup k t.call_stacks))
                (stacks_after (λ fiber. []) interleaved k)))
      (process_events vm 8 2 interleaved initial)
unfolding has
process_events-Sends_example =
    process_events-Sends vm classes IsObject 8 2 interleaved initial idle world
      (
        call_on-IsCallable 1 "each",
        (call_on-IsCallable 2 "zip", (call_on-IsCallable 1 "map", (refl, (refl, (refl, tt))))),
      )
      initial-Models refl (("each" ∷ [], refl), (([], refl), (([], refl), tt)))

-- The state of a session that has just begun.
abbrev connected_session : State
connected_session = record initial { tp_call = some true; socket = connected }

connected-Models : Models classes 8 2 connected_session idle
unfolding lookup
connected-Models = record {
  good = record {
    ready = record {
      known = record { named = initial-Ready.known.named; pending = tt };
      fits = initial-Ready.fits;
    };
    depth = omega arith;
    free = λ q le. refl;
    stacks = λ fiber. tt;
  };
  stacks = λ fiber. tt;
  log = tt;
  calm = λ quiet q t there. absurd (cc);
}

connected-Tidy : Tidy connected_session
unfolding lookup has
connected-Tidy = record {
  queue = [];
  socket = refl;
  keys = tt;
  pushed = refl;
  settled = tt;
  sent_once = tt;
  distinct = λ k. tt;
  apart = λ k j p e e'. absurd (cc);
  unsent = λ k p e. refl;
  uncalled = λ k p t e there. absurd (cc);
}

process_events-Comes_example :
    Ensures
      (λ _ t. Comes vm classes IsObject 8 2 world retried idle t)
      (process_events vm 8 2 retried connected_session)
unfolding has
process_events-Comes_example =
    process_events-Comes vm classes IsObject 8 2 world retried connected_session idle
      (call_on-IsCallable 1 "each", (tt, (call_on-IsCallable 1 "each", (refl, tt))))
      connected-Models connected-Tidy
