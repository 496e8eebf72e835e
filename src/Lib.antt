-- ===== src/Lib.antt =====
-- racer: a Ruby extension in C++ that traces the calls of a Ruby program, with the types of their
-- arguments and results, and sends the traces to an agent, a Ruby process, that collects them.
--
-- The program's parts, and the files that model them:
--
--   Traces        ext/racer/traces.hh: the records of a trace. A pointer to a trace is an address, and
--                 the allocated traces are a partial function from addresses (`Heap`). The arrays of
--                 parameters are lists. A char* is an optional string (`CString`).
--   Racer         ext/racer/racer.cc, the extension. State has its static variables, as the record
--                 `State`, and `Vm`, which stands for the functions of Ruby's C API that the code asks;
--                 the code is explicit state passing (`M`), where none is undefined behaviour, an
--                 exception that leaves the extension, or an end of the fuel. The TypeErrors of `start`
--                 are results instead (`StartResult`), with the state that they leave.
--     Constants   explore_constant and explore_constant_namespace: each class or module is described
--                 once, with its ancestors.
--     Generics    class_to_constant_instance to value_to_constant_instance: the types of values.
--     Paths       process_event_check_path and should_process_event: which events are traced.
--     Parameters  assign_parameters.
--     Calls       process_call_event, process_return_event and process_rescued_event: the stack of
--                 each fiber.
--     Blocks      process_block_call_event and process_block_return_event.
--     Events      process_tracepoint and process_block_tracepoint.
--     Session     start, stop and flush_end.
--     Free        ext/racer/traces.cc: the frees of traces that free_trace makes.
--   Worker        ext/racer/worker.cc, the thread that takes the traces off the queue. Writer has the
--                 write_ functions, Sizes the size_of_ functions, Loop the message of one trace, and
--                 Sending the loop of init_worker.
--   Agent         lib/racer/agent.rb and lib/racer/trace.rb, the receiver: Trace has the Ruby objects,
--                 Shift the shift_ methods and the part of worker_loop that reads a message, and Stream
--                 the loop of worker_loop, which cuts messages from what it reads. Feed, Framing and
--                 Reading prove it against a machine that reads one byte after the other.
--   Json          what the worker asks of json-c and the agent of Ruby's JSON, with the laws that they
--                 rely on: a text parses to the values that were added, in order.
--
-- The handlers of Racer fill traces on the heap and hand them, by address, to the queue; the worker
-- turns each into one flat array of values, and the agent takes the values off that array again. No
-- type or length but the counts in the array itself keeps the two in step, so that the two are proved
-- against each other, by way of the values of each part in order:
--
--   Protocol      Tokens: the values of the parts of a message. Views: a trace as the agent sees it,
--                 and which traces can be sent. Reads and Writes: the agent and the worker against
--                 those values. RoundTrip puts them together; Reading has the
--                 reading of small parts. Sizes and Capacity: the size of the array. Queued and Sending:
--                 the worker's loop over the traces of a queue. Connection: from the queue to the agent.
--                 Tidy, TidySteps, TidyReturns and TidyEvents: the traces on the stacks and in the queue
--                 stay apart; AllStacks and TidyEnd: so they are at the end of the session. Session: from
--                 the events of a program to the agent.
--   Racer.Ensures has postconditions of code that changes the state. Closed has the finitely many
--                 classes that explorations come to, Known the order of the constants, Found what the
--                 loops over ancestors find, Explored the explorations, Types the types of values,
--                 Returns what process_return_event does, Nesting what calls of blocks inside of each
--                 other do, PathCache the theorem on Paths, StartStates and Starts what `start` does
--                 to the kept answers, Dispatch which events process_tracepoint hands on, over
--                 Filters, and Delivery the way of a trace to the agent. Shapes and Arguments are
--                 about assign_parameters, over Advanced, for code that makes tracepoints. Stacks
--                 says when the stacks are in order; Records says what is recorded of a call, and
--                 Outcomes what a call event may come to; Pushes and Retries prove it of
--                 process_call_event. Tracer is an abstract tracer of names; Models and Refines prove
--                 the handlers against it, and Sends has what it tells of calls and returns that
--                 match. Owned and Ownership say which traces a trace owns and frees, Releases and
--                 Stops what the end of a session does with the traces on the stacks.
--   Base          the names of the library that all use, lists and association lists.
--   Tests         sample data, runs, and the theorems at them.
--
-- Integers: int, long and size_t in the sizes wrap around as written out (`to_int`, `to_long`,
-- `sign_extend`). C++ leaves the overflow of an int undefined: it comes to pass only in the sizes, of
-- traces with 2^31 values or more, where the model goes on with the wrapped bits, so that `none` does
-- not stand for it. The size is but the capacity that json-c is asked for, as its bits; how json-c takes
-- one with the sign bit set is left to its law, that a new array is empty. Counts that are written are
-- lengths of lists below 2^31. The depth given to `start` is a Fixnum that is not negative.
--
-- Fuel: block traces nest through the heap, so that the worker and free_trace take one unit for each
-- level of nesting; the agent takes one for each level of types and of blocks, and is run with the
-- number of values in the message, which is enough for all that the worker writes. explore_constant
-- takes a unit for each class or module that is not yet explored, and value_to_constant_instance one
-- for each level down to the maximal depth.
--
-- Not modelled: the queue (a copy of tiny_queue, of which only the messages pushed are recorded), the
-- socket's calls but for whether `send` succeeds and how reads divide what is sent, the interleaving of
-- the worker with the traced program (its loop runs on a queue that is given), the names and the arrays
-- of arguments as memory of their own, Ruby's garbage collector, warnings, the registration of the
-- extension with Ruby, and the collectors behind the agent.
pub mod Agent
pub mod Base
pub mod Json
pub mod Protocol
pub mod Racer
pub mod Traces
pub mod Worker
mod Tests
