-- ===== src/Racer/Records.antt =====
-- ext/racer/racer.cc, process_call_event: what is recorded of a call.
use racer_rb.Base.{
  ℕ, ◌+◌, ◌≡◌, refl, Bool, true, false, ◌||◌, Option, some, ◌∷◌, ◌==◌, map, is_some, if◌then◌else◌,
  lookup, insert,
}
use racer_rb.Traces.{
  MethodKind, instance_kind, singleton_kind, MethodVisibility, public_visibility,
  private_visibility, protected_visibility, Ptr, ConstantInstance, ReturnTrace, unset_trace,
}
use racer_rb.Racer.State.{RubyType, t_class, t_module, t_other, Vm, State, update}
use racer_rb.Racer.Calls.{CallEvent, method_kind_of}
use racer_rb.Racer.Returns.{AreMade}
use racer_rb.Racer.Advanced.{IsFresh}
use racer_rb.Racer.Shapes.{shape, shapes, names_block}
use racer_rb.Racer.Stacks.{stack_of}

-- The state once the trace of a call is allocated.
abbrev pub begun : State → State
begun s = record s {
  heap = update s.heap s.next_trace (some unset_trace);
  next_trace = s.next_trace + 1;
}

-- The trace of a call before its parameters are known.
abbrev pub base : Vm → ℕ → ℕ → CallEvent → Option ConstantInstance → ConstantInstance → ReturnTrace
base vm f levels e callee owner = record unset_trace {
  method_name = some e.method_name;
  method_kind = method_kind_of vm f levels e.self;
  method_callee = callee;
  method_owner = owner;
}

-- Nothing but stacks, constants, traces and tracepoints changes.
abbrev pub CallFrame : State → State → Type 0
CallFrame s t = t ≡ record s {
  call_stacks = t.call_stacks;
  constant_map = t.constant_map;
  constant_updates = t.constant_updates;
  heap = t.heap;
  next_trace = t.next_trace;
  block_tracepoints = t.block_tracepoints;
  next_tracepoint = t.next_tracepoint;
}

abbrev pub call_frame : State → State → State
call_frame t r = record r {
  call_stacks = t.call_stacks;
  constant_map = t.constant_map;
  constant_updates = t.constant_updates;
  heap = t.heap;
  next_trace = t.next_trace;
  block_tracepoints = t.block_tracepoints;
  next_tracepoint = t.next_tracepoint;
}

-- The kind of a method by the type of its receiver: classes and modules have singleton methods.
abbrev pub kind_by_type : RubyType → MethodKind
kind_by_type t_class = singleton_kind
kind_by_type t_module = singleton_kind
kind_by_type t_other = instance_kind

-- The visibility of a method by whether its class has it among its public and its private ones.
abbrev pub visibility_by : (public private : Bool) → MethodVisibility
visibility_by true _ = public_visibility
visibility_by false true = private_visibility
visibility_by false false = protected_visibility

-- The call has its trace, at the next address, on top of its fiber's stack.
pub record Recorded (vm : Vm) (f levels : ℕ) (e : CallEvent) (s t : State) : Type 0 where
  pub trace : ReturnTrace
  pub here : t.heap s.next_trace ≡ some trace
  pub stacks :
      t.call_stacks
      ≡ insert e.fiber (s.next_trace ∷ stack_of (lookup e.fiber s.call_stacks)) s.call_stacks
  pub name : trace.method_name ≡ some e.method_name
  pub kind : trace.method_kind ≡ kind_by_type (Vm.rb_type vm e.self)
  pub visibility :
      trace.method_visibility
      ≡ visibility_by
          (Vm.public_method_defined vm e.defined_class e.method_name)
          (Vm.private_method_defined vm e.defined_class e.method_name)
  pub params : map shape trace.params ≡ shapes e.parameters
  pub has_block : is_some trace.block_param ≡ (names_block e.parameters || e.block_given)
  pub fresh : IsFresh t.block_tracepoints trace.block_param
  pub rescued : trace.rescued ≡ false
  pub others : (q : Ptr) → (q == s.next_trace) ≡ false → t.heap q ≡ s.heap q
  pub made : AreMade s.block_tracepoints t.block_tracepoints
  pub frame : CallFrame s t

pub kind_if :
    (type : RubyType)
    → (if elim type [ t_other ↦ false | _ ↦ true ] then singleton_kind else instance_kind)
      ≡ kind_by_type type
kind_if t_class = refl
kind_if t_module = refl
kind_if t_other = refl

pub visibility_if :
    (public private : Bool)
    → (if public
        then public_visibility
        else if private
        then private_visibility
        else protected_visibility)
      ≡ visibility_by public private
visibility_if true private = refl
visibility_if false true = refl
visibility_if false false = refl
