-- ===== src/Racer/Calls.antt =====
-- ext/racer/racer.cc, process_call_event to process_rescued_event and process_tracepoint: the call
-- stack of each fiber.
use text.Mathlib.Text.{◌==◌ as str_eq}
use racer_rb.Base.{
  ℕ, String, Bool, true, false, ◌&&◌, ◌||◌, Option, none, some, List, [], ◌∷◌, ◌++◌, ◌==◌,
  if◌then◌else◌, lookup, insert,
}
use racer_rb.Traces.{
  MethodKind, instance_kind, singleton_kind, MethodVisibility, public_visibility,
  private_visibility, protected_visibility, CString, Ptr, Constant, ConstantInstance,
  constant_instance, no_unions, BlockParameter, ReturnTrace, unset_trace,
}
use racer_rb.Racer.State.{
  RubyValue, t_other, Vm, trace_message, State, M, pure, ◌>>=◌, ◌>>◌, modify, new_trace,
  write_trace, read_trace, disable_tracepoint,
}
use racer_rb.Racer.Constants.{explore_constant}
use racer_rb.Racer.Generics.{class_to_constant_instance, value_to_constant_instance}
use racer_rb.Racer.Parameters.{RubyArgument, assign_parameters}
use racer_rb.Racer.Free.{free_trace}

-- What a tracepoint's argument gives at a call.
pub record CallEvent : Type 0 where
  pub fiber : ℕ
  pub method_name : String
  pub defined_class : RubyValue
  pub self : RubyValue
  pub parameters : List RubyArgument
  pub block_given : Bool

pub record ReturnEvent : Type 0 where
  pub fiber : ℕ
  pub method_name : String
  pub return_value : RubyValue

pub record RescueEvent : Type 0 where
  pub fiber : ℕ
  pub method_name : String

abbrev pub instance_name : ConstantInstance → CString
instance_name (constant_instance name count us singleton) = name

-- `strcmp(s, t) == 0`; a null pointer is undefined behaviour.
abbrev pub strcmp_eq : CString → CString → Option Bool
strcmp_eq (some s) (some t) = some (str_eq s t)
strcmp_eq _ _ = none

abbrev pub conjunction : Option Bool → Option Bool → Option Bool
conjunction none b = none
conjunction (some false) b = some false
conjunction (some true) b = b

-- The comparisons are made from left to right, and only as long as they hold.
abbrev pub is_retry : ReturnTrace → ReturnTrace → Option Bool
is_retry trace previous = conjunction (some previous.rescued) (
    conjunction (strcmp_eq trace.method_name previous.method_name)
      (strcmp_eq (instance_name trace.method_owner) (instance_name previous.method_owner)))

abbrev pub lift : {A : Type 0} → Option A → M A
lift none s = none
lift (some a) s = some (a, s)

-- The tracepoint of the trace's block, if it has one, is disabled.
unfoldable pub disable_block : Option BlockParameter → M (Unit {0})
unfolding disable_tracepoint
disable_block none = pure tt
disable_block (some b) =
    if b.tracepoint_id == 0 then pure tt else disable_tracepoint b.tracepoint_id

-- `constant_map.at` throws where a key is missing.
unfoldable pub constants_at : List (RubyValue × Constant) → List RubyValue → Option (List Constant)
constants_at map [] = some []
constants_at map (c ∷ cs) = elim (lookup c map) [
  | none ↦ none
  | some constant ↦ elim (constants_at map cs) [ none ↦ none | some rest ↦ some (constant ∷ rest) ]
]

unfoldable pub take_constant_updates : M (List Constant)
unfolding constants_at
take_constant_updates s = elim (constants_at s.constant_map s.constant_updates) [
  | none ↦ none
  | some cs ↦ some (cs, record s { constant_updates = [] })
]

module _ (vm : Vm) (f levels : ℕ) where
  open vm use {
    rb_type, rb_obj_class, rb_singleton_class, rb_class_attached_object, is_singleton,
    public_method_defined, private_method_defined, method_defined,
  }

  abbrev pub is_module_or_class : RubyValue → Bool
  is_module_or_class v = elim (rb_type v) [ t_other ↦ false | _ ↦ true ]

  -- The class or module behind its singleton class.
  unfoldable pub attached_class : RubyValue → RubyValue
  attached_class c =
      if is_singleton c && is_module_or_class (rb_class_attached_object c)
      then rb_class_attached_object c
      else c

  abbrev pub method_kind_of : RubyValue → MethodKind
  method_kind_of self = if is_module_or_class self then singleton_kind else instance_kind

  abbrev pub receiver_class : RubyValue → RubyValue
  receiver_class self = if is_module_or_class self then self else rb_obj_class self

  -- Whether the receiver's class, or its singleton class, has the method itself.
  abbrev pub implements : RubyValue → String → Bool
  implements self name =
      let owner = if is_module_or_class self then rb_singleton_class self else rb_obj_class self in
      method_defined owner name || private_method_defined owner name

  unfoldable pub find_callee : CallEvent → M (Option ConstantInstance)
  unfolding attached_class explore_constant class_to_constant_instance
  find_callee e = if receiver_class e.self == attached_class e.defined_class then pure none else do
    _ ← explore_constant vm f (receiver_class e.self)
    if implements e.self e.method_name then pure none else (do
      i ← class_to_constant_instance vm f (receiver_class e.self) 0 no_unions false
      pure (some i))

  unfoldable pub method_visibility_of : CallEvent → MethodVisibility
  method_visibility_of e =
      if public_method_defined e.defined_class e.method_name
      then public_visibility
      else if private_method_defined e.defined_class e.method_name
      then private_visibility
      else protected_visibility

  -- Whether the call repeats the method on top of the fiber's stack after a rescue.
  unfoldable pub detect_retry : ReturnTrace → Option (List Ptr) → M Bool
  unfolding read_trace
  detect_retry trace none = pure false
  detect_retry trace (some []) = pure false
  detect_retry trace (some (top ∷ below)) = do
    previous ← read_trace top
    lift (is_retry trace previous)

  abbrev pub push_stack : ℕ → Ptr → Option (List Ptr) → State → State
  push_stack fiber p none s = record s { call_stacks = insert fiber (p ∷ []) s.call_stacks }
  push_stack fiber p (some stack) s = record s {
    call_stacks = insert fiber (p ∷ stack) s.call_stacks;
  }

  unfoldable pub record_call : Ptr → CallEvent → ReturnTrace → Option (List Ptr) → M (Unit {0})
  unfolding method_visibility_of assign_parameters write_trace
  record_call p e trace stack = do
    trace' ←
        assign_parameters vm f levels p e.parameters e.block_given
          (record trace { method_visibility = method_visibility_of e })
    write_trace p trace'
    modify (push_stack e.fiber p stack)

  unfoldable pub drop_call : Ptr → ReturnTrace → M (Unit {0})
  unfolding write_trace free_trace
  drop_call p trace = write_trace p trace >> free_trace 1 p

  abbrev pub finish_call : Ptr → CallEvent → ReturnTrace → Option (List Ptr) → M (Unit {0})
  finish_call p e trace stack = do
    retried ← detect_retry trace stack
    if retried then drop_call p trace else record_call p e trace stack

  unfoldable pub process_call_event : CallEvent → M (Unit {0})
  unfolding new_trace find_callee detect_retry drop_call record_call
  process_call_event e = do
    p ← new_trace unset_trace
    callee ← find_callee e
    owner ← class_to_constant_instance vm f (attached_class e.defined_class) 0 no_unions false
    stacks ← (λ s. some (lookup e.fiber s.call_stacks, s))
    finish_call p e
        (record unset_trace {
          method_name = some e.method_name;
          method_kind = method_kind_of e.self;
          method_callee = callee;
          method_owner = owner;
        })
        stacks

  -- The trace is off the stack: it is completed and handed to the queue.
  unfoldable pub send_trace : Ptr → ReturnTrace → ReturnEvent → M (Unit {0})
  unfolding disable_block take_constant_updates write_trace value_to_constant_instance
  send_trace p trace e = do
    return_type ← value_to_constant_instance vm f levels e.return_value 0
    disable_block trace.block_param
    updates ← take_constant_updates
    write_trace p (record trace {
      return_type = return_type;
      constant_updates = trace.constant_updates ++ updates;
    })
    modify (λ s. record s { pushed = s.pushed ++ trace_message p ∷ [] })

  -- A return that does not match the top of the stack is ignored.
  abbrev pub return_if : Bool → Ptr → List Ptr → ReturnTrace → ReturnEvent → M (Unit {0})
  return_if false top below trace e = pure tt
  return_if true top below trace e = do
    modify (λ s. record s { call_stacks = insert e.fiber below s.call_stacks })
    send_trace top trace e

  unfoldable pub return_from : ReturnEvent → Option (List Ptr) → M (Unit {0})
  unfolding read_trace send_trace
  return_from e none = pure tt
  return_from e (some []) = pure tt
  return_from e (some (top ∷ below)) = do
    trace ← read_trace top
    matches ← lift (strcmp_eq trace.method_name (some e.method_name))
    return_if matches top below trace e

  unfoldable pub process_return_event : ReturnEvent → M (Unit {0})
  unfolding return_from
  process_return_event e s = return_from e (lookup e.fiber s.call_stacks) s

  abbrev pub name_matches : CString → String → Bool
  name_matches none name = false
  name_matches (some s) name = str_eq s name

  unfoldable pub rescue_on : RescueEvent → Option (List Ptr) → M (Unit {0})
  unfolding read_trace write_trace
  rescue_on e none = pure tt
  rescue_on e (some []) = pure tt
  rescue_on e (some (top ∷ below)) = do
    trace ← read_trace top
    if name_matches trace.method_name e.method_name
        then write_trace top (record trace { rescued = true })
        else pure tt

  unfoldable pub process_rescued_event : RescueEvent → M (Unit {0})
  unfolding rescue_on
  process_rescued_event e s = rescue_on e (lookup e.fiber s.call_stacks) s
