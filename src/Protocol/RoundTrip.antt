-- ===== src/Protocol/RoundTrip.antt =====
-- ext/racer/worker.cc and lib/racer/agent.rb: the worker's message of a trace, as the agent reads it.
use racer_rb.Base.{
  ℕ, ap, ◌+◌, ◌≤◌, ◌≡◌, refl, Option, none, some, List, [], ◌∷◌, ◌++◌, length, length-append,
  append-nil, arith,
}
use racer_rb.Traces.{ConstantInstance, constant_instance, ReturnTrace, Heap}
use racer_rb.Json.{JsonLib, Value}
use racer_rb.Worker.Loop.{message_text}
use racer_rb.Agent.Trace.{
  RubyInstance, RubyUnions, RubyInstances, ruby_instance, no_unions, union, no_instances,
  instance_of, RubyParam, RubyBlockParam, no_block, block, RubyBlockTraces, no_traces, block_trace,
  RubyTrace,
}
use racer_rb.Agent.Shift.{ok, shift_trace, receive}
use racer_rb.Protocol.Tokens.{
  instance_tokens, unions_tokens, instances_tokens, params_tokens, param_tokens, block_param_tokens,
  block_traces_tokens, callee_tokens, trace_tokens, instance_depth, unions_depth, instances_depth,
  params_depth, block_param_types, block_traces_types, block_param_depth, block_traces_depth,
  callee_depth, FitsTypes,
}
use racer_rb.Protocol.Views.{
  view_instance, IsComplete, IsCompleteCallee, IsSendable, view_callee, view_trace,
}
use racer_rb.Protocol.Reads.{IsNamed, Reads-trace}
use racer_rb.Protocol.Writes.{write_message-Writes}
use racer_rb.Protocol.Capacity.{array_size-lt}

length_values : (xs ys : List Value) → length (xs ++ ys) ≡ length xs + length ys
length_values = length-append

ruleset lengths = (arith, length_values)

mutual
  unfolding instance_tokens instance_depth

  depth-le : (i : RubyInstance) → instance_depth i ≤ length (instance_tokens i)
  depth-le (ruby_instance name singleton us) = omega (arith, unions_depth-le us)

  unions_depth-le : (us : RubyUnions) → unions_depth us ≤ length (unions_tokens us)
  unions_depth-le no_unions = omega arith
  unions_depth-le (union is us) = omega (lengths, instances_depth-le is, unions_depth-le us)

  instances_depth-le : (is : RubyInstances) → instances_depth is ≤ length (instances_tokens is)
  instances_depth-le no_instances = omega arith
  instances_depth-le (instance_of i is) = omega (lengths, depth-le i, instances_depth-le is)

params_depth-le : (ps : List RubyParam) → params_depth ps ≤ length (params_tokens ps)
unfolding params_depth params_tokens param_tokens
params_depth-le [] = omega arith
params_depth-le (p ∷ ps) = omega (
  arith,
  length_values (instance_tokens p.type_name) (params_tokens ps),
  depth-le p.type_name,
  params_depth-le ps,
)

mutual
  unfolding block_param_tokens block_param_types block_param_depth

  block_le :
      (b : RubyBlockParam)
      → (block_param_types b ≤ length (block_param_tokens b))
        × (block_param_depth b ≤ length (block_param_tokens b))
  block_le no_block = omega arith
  block_le (block name ts) = omega (arith, block_traces_le ts)

  block_traces_le :
      (ts : RubyBlockTraces)
      → (block_traces_types ts ≤ length (block_traces_tokens ts))
        × (block_traces_depth ts ≤ length (block_traces_tokens ts))
  block_traces_le no_traces = omega arith
  block_traces_le (block_trace s r ps b ts) =
      omega (lengths, depth-le s, depth-le r, params_depth-le ps, block_le b, block_traces_le ts)

callee_depth-le : (c : Option RubyInstance) → callee_depth c ≤ length (callee_tokens c)
callee_depth-le none = omega arith
callee_depth-le (some i) = depth-le i

-- The number of values in a message bounds its nesting.
FitsTypes-length : (t : RubyTrace) → FitsTypes (length (trace_tokens t)) t
unfolding trace_tokens
FitsTypes-length t = record {
  return_type = omega (lengths, depth-le t.return_type);
  method_owner = omega (lengths, depth-le t.method_owner);
  method_callee = omega (lengths, callee_depth-le t.method_callee);
  params = omega (lengths, params_depth-le t.params);
  block_param = omega (lengths, block_le t.block_param);
}

block_depth-le : (t : RubyTrace) → block_param_depth t.block_param ≤ length (trace_tokens t)
unfolding trace_tokens
block_depth-le t = omega (lengths, block_le t.block_param)

IsNamed-view : (c : Option ConstantInstance) → IsCompleteCallee c → IsNamed (view_callee c)
unfolding view_instance IsComplete
IsNamed-view none complete = tt
IsNamed-view (some (constant_instance none count us singleton)) complete = absurd complete.0
IsNamed-view (some (constant_instance (some s) count us singleton)) complete = refl

shift_trace-tokens :
    (t : RubyTrace)
    → IsNamed t.method_callee
    → shift_trace (length (trace_tokens t)) (length (trace_tokens t)) (trace_tokens t) ≡ ok (t, [])
shift_trace-tokens t named =
    let size = length (trace_tokens t) in
    let read = Reads-trace t size size (FitsTypes-length t) named (block_depth-le t) in
    let all = read.reads [] in rw append-nil at all

module _ (J : JsonLib) where
  open J use {
    Text, parse, to_json_string, contents, new_array_ext, contents-new_array_ext,
    parse-to_json_string,
  }

  -- The message that is formed parses to the values of the trace's view, which are read as the view.
  pub message_text-parse :
      (h : Heap) (b : RubyBlockParam) (f : ℕ) (t : ReturnTrace)
      → block_param_depth b ≤ f
      → IsSendable h b t
      → (text : Text) × (message_text J h f t ≡ some text)
        × (parse text ≡ some (trace_tokens (view_trace t b)))
  unfolding message_text
  message_text-parse h b f t d is =
      let (n, sized, short) = array_size-lt h b f t d is in
      let (a, written, held) = (write_message-Writes J h b f t d is).writes (new_array_ext n) in
      let whole : contents a ≡ trace_tokens (view_trace t b) = rw contents-new_array_ext at held in
      (to_json_string a, rw (sized, written) refl, rw (parse-to_json_string a) (ap some whole))

  pub receive-tokens :
      (text : Text) (b : RubyBlockParam) (t : ReturnTrace)
      → IsCompleteCallee t.method_callee
      → parse text ≡ some (trace_tokens (view_trace t b))
      → receive J text ≡ ok (view_trace t b, [])
  unfolding receive
  receive-tokens text b t complete parsed =
      rw parsed (shift_trace-tokens (view_trace t b) (IsNamed-view t.method_callee complete))

  -- For a trace whose names are set, whose argument counts fit, and whose block traces are allocated
  -- and nest no deeper than the fuel `f`, the worker forms a message without undefined behaviour, and
  -- the agent makes of that message exactly the trace's view, with no value left over.
  pub receive-message_text :
      (h : Heap) (b : RubyBlockParam) (f : ℕ) (t : ReturnTrace)
      → block_param_depth b ≤ f
      → IsSendable h b t
      → (text : Text) × (message_text J h f t ≡ some text)
        × (receive J text ≡ ok (view_trace t b, []))
  receive-message_text h b f t d is =
      let (text, formed, parsed) = message_text-parse h b f t d is in
      (text, formed, receive-tokens text b t is.method_callee parsed)
