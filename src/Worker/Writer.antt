-- ===== src/Worker/Writer.antt =====
-- ext/racer/worker.cc, write_constant to write_params and the body of init_worker's loop: what is
-- added to the JSON array for a trace. `none` is undefined behaviour: a null name given to json-c, a
-- read past `generic_arguments`, a block trace with no self type, a dangling pointer.
use racer_rb.Base.{ℕ, zero, suc, Option, none, some, List, [], ◌∷◌, length, is_some}
use racer_rb.Traces.{
  ParamType, required, optional, rest, keyword_required, keyword_optional, keyword_rest, ClassType,
  module_type, class_type, MethodKind, instance_kind, singleton_kind, MethodVisibility,
  public_visibility, private_visibility, protected_visibility, CString, Ptr, Constant,
  ConstantInstance, Unions, Instances, constant_instance, no_unions, union, no_instances,
  instance_of, Parameter, BlockParameter, ReturnTrace, Heap,
}
use racer_rb.Json.{JsonLib}

-- An enumerator's number, as `json_object_new_int` is given it.
abbrev pub param_type_int : ParamType → ℕ
param_type_int required = 0
param_type_int optional = 1
param_type_int rest = 2
param_type_int keyword_required = 3
param_type_int keyword_optional = 4
param_type_int keyword_rest = 5

abbrev pub class_type_int : ClassType → ℕ
class_type_int module_type = 0
class_type_int class_type = 1

abbrev pub method_kind_int : MethodKind → ℕ
method_kind_int instance_kind = 0
method_kind_int singleton_kind = 1

abbrev pub method_visibility_int : MethodVisibility → ℕ
method_visibility_int public_visibility = 0
method_visibility_int private_visibility = 1
method_visibility_int protected_visibility = 2

abbrev pub instances_size : Instances → ℕ
instances_size no_instances = 0
instances_size (instance_of i is) = suc (instances_size is)

module _ (J : JsonLib) where
  open J use {
    Object, Array, new_string, new_boolean, new_int, new_int64, new_uint64, new_null, array_add,
  }

  abbrev pub Writer : Type 0
  Writer = Array → Option Array

  -- Code that runs one writer after another on the same array.
  infixl 5 ◌>>◌
  unfoldable pub ◌>>◌ : Writer → Writer → Writer
  ◌>>◌ v w a = elim (v a) [ none ↦ none | some b ↦ w b ]

  unfoldable pub skip : Writer
  skip a = some a

  unfoldable pub add : Object → Writer
  add o a = some (array_add a o)

  unfoldable pub fault : Writer
  fault a = none

  -- `json_object_new_string(s)`, which reads `s` up to its end.
  unfoldable pub add_string : CString → Writer
  add_string none = fault
  add_string (some s) = add (new_string s)

  -- A name that the source tests for null first.
  unfoldable pub add_string_or_null : CString → Writer
  add_string_or_null none = add new_null
  add_string_or_null (some s) = add (new_string s)

  unfoldable pub add_strings : List CString → Writer
  add_strings [] = skip
  add_strings (name ∷ names) = add_string name >> add_strings names

  unfoldable pub write_superclass : Option CString → Writer
  write_superclass none = add new_null
  write_superclass (some name) = add_string name

  unfoldable pub write_constant : Constant → Writer
  write_constant c = do
    add_string c.name
    add (new_boolean c.anonymous)
    add (new_int (class_type_int c.type))
    write_superclass c.superclass
    add (new_uint64 (length c.included_modules))
    add_strings c.included_modules
    add (new_uint64 (length c.prepended_modules))
    add_strings c.prepended_modules
    add (new_uint64 (length c.extended_modules))
    add_strings c.extended_modules

  unfoldable pub write_constants : List Constant → Writer
  write_constants [] = skip
  write_constants (c ∷ cs) = write_constant c >> write_constants cs

  -- The loop over `generic_arguments` makes as many rounds as the count says.
  unfoldable mutual
    pub write_constant_instance : ConstantInstance → Writer
    write_constant_instance (constant_instance name count arguments singleton) = do
      add_string name
      add (new_boolean singleton)
      add (new_uint64 count)
      write_unions arguments count

    pub write_unions : Unions → ℕ → Writer
    write_unions no_unions zero = skip
    write_unions no_unions (suc n) = fault
    write_unions (union is us) zero = skip
    write_unions (union is us) (suc n) = do
      add (new_uint64 (instances_size is))
      write_instances is
      write_unions us n

    pub write_instances : Instances → Writer
    write_instances no_instances = skip
    write_instances (instance_of i is) = write_constant_instance i >> write_instances is

  unfoldable pub write_optional_instance : Option ConstantInstance → Writer
  write_optional_instance none = fault
  write_optional_instance (some i) = write_constant_instance i

  unfoldable pub write_callee : Option ConstantInstance → Writer
  write_callee none = add new_null
  write_callee (some i) = write_constant_instance i

  unfoldable pub write_param : Parameter → Writer
  write_param p = do
    add_string_or_null p.name
    add (new_int (param_type_int p.param_type))
    write_constant_instance p.type_name

  unfoldable pub write_param_loop : List Parameter → Writer
  write_param_loop [] = skip
  write_param_loop (p ∷ ps) = write_param p >> write_param_loop ps

  -- `write_traces` writes one block trace by its address.
  unfoldable pub write_block_traces : (Ptr → Writer) → List Ptr → Writer
  write_block_traces write_trace [] = skip
  write_block_traces write_trace (p ∷ ps) = write_trace p >> write_block_traces write_trace ps

  unfoldable pub write_block_param : (Ptr → Writer) → Option BlockParameter → Writer
  write_block_param write_trace none = skip
  write_block_param write_trace (some b) = do
    add_string_or_null b.name
    add (new_uint64 (length b.block_traces))
    write_block_traces write_trace b.block_traces

  unfoldable pub write_params_with : (Ptr → Writer) → ReturnTrace → Writer
  write_params_with write_trace trace = do
    add (new_int64 (length trace.params))
    write_param_loop trace.params
    add (new_boolean (is_some trace.block_param))
    write_block_param write_trace trace.block_param

  -- `trace->…`, through a pointer that must lead to a trace.
  unfoldable pub dereference : Option ReturnTrace → (ReturnTrace → Writer) → Writer
  dereference none write = fault
  dereference (some trace) write = write trace

  module _ (h : Heap) where
    -- Blocks nest through the heap, so a level of nesting costs a unit of fuel.
    unfoldable pub write_block_trace : ℕ → Ptr → Writer
    unfolding dereference
    write_block_trace zero p = fault
    write_block_trace (suc f) p = dereference (h p) λ trace. do
      write_optional_instance trace.block_self_type
      write_constant_instance trace.return_type
      write_params_with (write_block_trace f) trace

    unfoldable pub write_params : ℕ → ReturnTrace → Writer
    write_params f = write_params_with (write_block_trace f)

    unfoldable pub write_message : ℕ → ReturnTrace → Writer
    write_message f trace = do
      add_string trace.method_name
      add (new_int (method_kind_int trace.method_kind))
      add (new_int (method_visibility_int trace.method_visibility))
      write_constant_instance trace.return_type
      write_constant_instance trace.method_owner
      write_callee trace.method_callee
      add (new_uint64 (length trace.constant_updates))
      write_constants trace.constant_updates
      write_params f trace
