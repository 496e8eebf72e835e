-- ===== src/Protocol/Session.antt =====
-- ext/racer/racer.cc, process_tracepoint, with ext/racer/worker.cc and lib/racer/agent.rb: from the events
-- of a program to the traces that the agent makes of them.
use racer_rb.Base.{ℕ, String, ◌≡◌, Bool, List, [], ◌∷◌, ◌++◌, map, All}
use racer_rb.Json.{JsonLib, Value, string}
use racer_rb.Agent.Trace.{RubyTrace}
use racer_rb.Worker.Sending.{init_worker}
use racer_rb.Protocol.Queued.{Queued, view, addresses, messages_of}
use racer_rb.Protocol.Sending.{AllSent}
use racer_rb.Protocol.Tidy.{IsSettled, Tidy}
use racer_rb.Racer.State.{closed, Vm, stop_message, State, M, ◌>>◌}
use racer_rb.Racer.Ensures.{Ensures}
use racer_rb.Racer.Session.{flush_end}
use racer_rb.Racer.Owned.{AreDistinct}
use racer_rb.Racer.Events.{Event}
use racer_rb.Racer.Tracer.{Tracer, process_events}

-- The names of the methods, as the agent has them.
abbrev pub names_of : List Queued → List Value
names_of [] = []
names_of (q ∷ queue) = RubyTrace.method_name (view q) ∷ names_of queue

-- The session has ended in a state `before` the worker: the stacks are empty, and the queue has the
-- addresses of some traces, no two of them the same, and then the last message. The traces are the ones
-- that stand in the heap at those addresses, with all that the worker sends of them in place and no
-- calls of blocks, and they are of the methods `names`, in order. Each has been sent, so that the agent
-- reads it as its view, and freed.
pub record Arrived (J : JsonLib) (names : List String) (texts : List (JsonLib.Text J)) (u : State)
    : Type 0 where
  pub before : State
  pub queue : List Queued
  pub stacks : before.call_stacks ≡ []
  pub socket : before.socket ≡ closed
  pub pushed : before.pushed ≡ messages_of queue ++ stop_message ∷ []
  pub settled : All (IsSettled before.heap) queue
  pub sent_once : AreDistinct (addresses queue)
  pub methods : names_of queue ≡ map string names
  pub sent : AllSent J queue (addresses queue) before texts u

module _ (J : JsonLib) (send_ok : ℕ → Bool) (vm : Vm) (f levels : ℕ) where
  -- The events are handled, the session ends, and the worker goes through the queue.
  unfoldable pub trace_and_send : List Event → M (List (JsonLib.Text J))
  unfolding process_events flush_end init_worker
  trace_and_send es =
      process_events vm f levels es >> flush_end 1 >> λ t. init_worker J send_ok 1 1 0 t.pushed t
