-- ===== src/Racer/Events.antt =====
-- ext/racer/racer.cc, process_tracepoint and process_block_tracepoint: the handler of each event.
use racer_rb.Base.{ℕ, String, Option, if◌then◌else◌}
use racer_rb.Traces.{Ptr}
use racer_rb.Racer.State.{RubyValue, Vm, M, pure, ◌>>=◌}
use racer_rb.Racer.Paths.{should_process_event}
use racer_rb.Racer.Calls.{
  CallEvent, ReturnEvent, RescueEvent, process_call_event, process_return_event,
  process_rescued_event,
}
use racer_rb.Racer.Blocks.{BlockCall, process_block_call_event, process_block_return_event}

-- The events that the tracepoint of `start` is set on.
pub data Event : Type 0 where
  call_event : CallEvent → Event
  return_event : ReturnEvent → Event
  rescue_event : RescueEvent → Event

-- The events that a block's tracepoint is set on; a return has the value returned.
pub data BlockEvent : Type 0 where
  block_call_event : BlockCall → BlockEvent
  block_return_event : RubyValue → BlockEvent

module _ (vm : Vm) (f levels : ℕ) where
  unfoldable pub process_event : Event → M (Unit {0})
  unfolding process_call_event process_return_event process_rescued_event
  process_event (call_event e) = process_call_event vm f levels e
  process_event (return_event e) = process_return_event vm f levels e
  process_event (rescue_event e) = process_rescued_event vm f levels e

  -- The paths are those of the event and of its caller.
  unfoldable pub process_tracepoint : Option String → Option String → Event → M (Unit {0})
  unfolding should_process_event process_event
  process_tracepoint path caller event = do
    traced ← should_process_event vm path caller
    if traced then process_event event else pure tt

  -- `p` is the trace that the tracepoint has as data.
  unfoldable pub process_block_tracepoint : Ptr → BlockEvent → M (Unit {0})
  unfolding process_block_call_event process_block_return_event
  process_block_tracepoint p (block_call_event e) = process_block_call_event vm f levels p e
  process_block_tracepoint p (block_return_event value) =
      process_block_return_event vm f levels p value
