-- ===== src/Tests.antt =====
-- Runs of the code on sample data, and the theorems at them.
mod Machine
mod Samples
mod Tracing
mod Sessions
mod Starting
mod Filtering
use mathlib.Core.Option
use text.Mathlib.Text.{◌==◌ as str_eq}
use racer_rb.Base.{
  ℕ, ◌+◌, ◌<◌, ◌^◌, String, ◌≡◌, refl, true, false, Option, none, some, List, [], ◌∷◌, ◌==◌, ◌||◌,
  ◌∙◌, sym, length, if◌then◌else◌, arith, lookup, insert, has, All,
}
use racer_rb.Traces
use racer_rb.Traces.{
  CString, Ptr, Constant, ConstantInstance, constant_instance, BlockParameter, unset_block,
  unset_trace, ReturnTrace, Heap, required, class_type,
}
use racer_rb.Json.{Value, string, plain_json}
use racer_rb.Worker.Sizes.{size_of_constant_instance, to_int}
use racer_rb.Worker.Loop.{message_text}
use racer_rb.Agent.Trace.{RubyInstance, RubyBlockParam, block, no_block, no_traces, block_trace}
use racer_rb.Agent.Shift.{ok, receive}
use racer_rb.Protocol.Tokens.{block_param_depth, trace_tokens, instance_tokens}
use racer_rb.Protocol.Views.{view_trace, view_instance, IsSendable, IsBlock, IsComplete}
use racer_rb.Protocol.RoundTrip.{receive-message_text}
use racer_rb.Protocol.Sizes.{size_of_constant_instance-length}
use racer_rb.Racer.State.{RubyValue, Vm, t_class, t_module, State, initial, ◌>>◌}
use racer_rb.Racer.Constants.{explore_constant}
use racer_rb.Racer.Ensures.{Ensures}
use racer_rb.Racer.Generics.{value_to_constant_instance}
use racer_rb.Racer.Known.{Kept, Named}
use racer_rb.Racer.Closed.{missing, spaces, IsMember, IsClosed, AreObjects, type_class, All-at}
use racer_rb.Racer.Explored.{explore_constant-IsSound}
use racer_rb.Racer.Constants.{segments}
use racer_rb.Racer.Types.{IsType, value_to_instance-IsType}
use racer_rb.Racer.Calls.{ReturnEvent, process_return_event}
use racer_rb.Racer.Blocks.{with_block, process_block_return_event}
use racer_rb.Racer.Nesting.{
  Calls, no_calls, call, unfinished, run, Completed, process_block_return-Completed,
}
use racer_rb.Racer.Delivery.{Delivered, process_return_event-receive}
use racer_rb.Protocol.Views.{IsBlock}
use racer_rb.Racer.Paths.{should_process_event}
use racer_rb.Racer.PathCache.{IsCached, should_process-is_traced}
use racer_rb.Tests.Machine.{
  vm, classes, objects, classes-IsClosed, objects-AreObjects, initial-Ready,
}
use racer_rb.Tests.Samples.{strings, heap, sample, called_block, sample-IsSendable}

receive-message_text_example :
    (text : List Value) × (message_text plain_json heap 3 sample ≡ some text)
    × (receive plain_json text ≡ ok (view_trace sample called_block, []))
receive-message_text_example =
    receive-message_text plain_json heap called_block 3 sample
      (unfold block_param_depth in omega arith) sample-IsSendable

size_of_constant_instance-length_example :
    size_of_constant_instance strings
    ≡ some (to_int (length (instance_tokens (view_instance strings))))
size_of_constant_instance-length_example =
    size_of_constant_instance-length strings
      (unfold IsComplete in (tt, refl, (((tt, refl, tt), tt), tt)))

explore_constant-IsSound_example :
    Ensures (Named classes 8 initial) (explore_constant vm 8 14 initial)
explore_constant-IsSound_example =
    explore_constant-IsSound vm classes 8 14 initial classes-IsClosed (unfold has in refl)
      initial-Ready

value_to_instance-IsType_example :
    Ensures
      (λ i t. Kept classes 8 initial t × IsType 1 0 i)
      (value_to_constant_instance vm 8 2 23 0 initial)
value_to_instance-IsType_example =
    value_to_instance-IsType vm classes (λ v. has v objects ≡ true) 8 2 23 0 initial
      classes-IsClosed objects-AreObjects (unfold has in refl) initial-Ready (omega arith)
      (omega arith)

-- A call of `each` with a block that is being traced, and its return.
abbrev awaited : ReturnTrace
awaited = record unset_trace {
  method_name = some "each";
  block_param = some (record unset_block { name = some "block"; tracepoint_id = 9 });
}

abbrev called : State
called = record initial {
  call_stacks = (1, 1 ∷ []) ∷ [];
  heap = λ p. if p == 1 then some awaited else none;
  block_tracepoints = λ tp. if tp == 9 then some (record { target = 1; enabled = true }) else none;
}

abbrev return_of : String → ReturnEvent
return_of name = record { fiber = 1; method_name = name; return_value = 23 }

-- The same call while its block runs for the first time, and a call inside of that.
abbrev running_block : BlockParameter
running_block = record unset_block { name = some "block"; tracepoint_id = 9 }

abbrev running : State
running = record called {
  heap = λ p.
      if p == 1
      then some (with_block (unfinished running_block (some 2 ∷ [])) awaited)
      else if p == 2
      then some unset_trace
      else none;
}

abbrev inner_call : Calls
inner_call = call (record { self = 21; parameters = []; block_given = false }) no_calls 22 no_calls

process_block_return-Completed_example :
    Ensures
      (λ _. Completed classes 8 1 2 running_block unset_trace running)
      ((run vm 8 2 1 inner_call >> process_block_return_event vm 8 2 1 23) running)
process_block_return-Completed_example =
    process_block_return-Completed vm classes (λ v. has v objects ≡ true) 8 2 classes-IsClosed
      objects-AreObjects inner_call 1 2 running_block unset_trace 23 running
      (record { trace = _; here = refl; block = refl }) refl refl (unfold has in refl)
      (record {
        known = record { named = initial-Ready.known.named; pending = tt };
        fits = initial-Ready.fits;
      })
      (omega arith)

-- The sample trace on top of a stack.
abbrev awaiting : State
awaiting = record initial {
  call_stacks = (1, 1 ∷ []) ∷ [];
  heap = λ p. if p == 1 then some sample else heap p;
}

process_return_event-receive_example :
    Ensures
      (λ _. Delivered plain_json 3 1 called_block sample awaiting)
      (process_return_event vm 8 2 (return_of "each") awaiting)
process_return_event-receive_example =
    process_return_event-receive plain_json vm classes (λ v. has v objects ≡ true) 8 2 3
      (return_of "each") awaiting 1 [] sample called_block classes-IsClosed objects-AreObjects
      (unfold has in refl)
      (record {
        known = record { named = initial-Ready.known.named; pending = tt };
        fits = initial-Ready.fits;
      })
      (omega arith) (unfold lookup in refl) refl refl (λ set. cc)
      (record {
        method_owner = sample-IsSendable.method_owner;
        method_callee = sample-IsSendable.method_callee;
        constant_updates = sample-IsSendable.constant_updates;
        params = sample-IsSendable.params;
        block_param = unfold IsBlock in sample-IsSendable.block_param;
      })
      (unfold block_param_depth in omega arith)

abbrev matching : State
matching = record initial { path_matcher = some 1 }

matching-IsCached : IsCached vm (λ path. path ≡ "app.rb") 1 matching
unfolding lookup
matching-IsCached path b used e = cc

should_process-is_traced_example :
    (t : State) × (should_process_event vm (some "app.rb") none matching ≡ some (true, t))
    × IsCached vm (λ path. path ≡ "app.rb") 1 t
    × (t ≡ record matching { matched_paths = t.matched_paths })
should_process-is_traced_example =
    should_process-is_traced vm (λ path. path ≡ "app.rb") (λ p q e e' same. e ∙ sym e') 1
      (some "app.rb") none matching refl tt refl matching-IsCached

-- The type of an array of arrays of strings, two levels deep and cut at one.
nested_type :
    Option.map
      (λ r. r.0)
      (value_to_constant_instance vm 5 5 23 0 (record initial { max_generic_depth = 2 }))
    ≡ some (
        constant_instance
          (some "Array")
          1
          (Traces.union (Traces.instance_of strings Traces.no_instances) Traces.no_unions)
          false)
unfolding value_to_constant_instance lookup insert has
nested_type = refl

-- `M` brings `N` along for the class that is explored first; the class that is explored when `M` is
-- known lists `N` as if it included it itself.
included : RubyValue → State → Option (List CString)
included c s = elim (lookup c s.constant_map) [ none ↦ none | some k ↦ some k.included_modules ]

first_class :
    Option.map (λ r. included 14 r.1) (explore_constant vm 5 14 initial)
    ≡ some (some (some "M" ∷ []))
unfolding explore_constant included lookup has insert
first_class = refl

second_class :
    Option.bind
      (explore_constant vm 5 14 initial)
      (λ r. Option.map (λ q. included 15 q.1) (explore_constant vm 5 15 r.1))
    ≡ some (some (some "M" ∷ some "N" ∷ []))
unfolding explore_constant included Option.bind lookup has insert
second_class = refl
