-- ===== src/Traces.antt =====
-- ext/racer/traces.hh: what the tracer records of a call, and what it sends to the agent.
-- A `char *` is `Option String`, with `none` for a null pointer. A `ReturnTrace *` is an address of
-- the heap that ext/racer/racer.cc allocates its traces in.
use racer_rb.Base.{ℕ, zero, String, Bool, false, Option, none, List, []}

pub data ParamType : Type 0 where
  required optional rest keyword_required keyword_optional keyword_rest : ParamType

pub data ClassType : Type 0 where
  module_type class_type : ClassType

pub data MethodKind : Type 0 where
  instance_kind singleton_kind : MethodKind

pub data MethodVisibility : Type 0 where
  public_visibility private_visibility protected_visibility : MethodVisibility

abbrev pub CString : Type 0
CString = Option String

abbrev pub Ptr : Type 0
Ptr = ℕ

pub record Constant : Type 0 where
  pub name : CString
  pub anonymous : Bool
  pub type : ClassType
  pub superclass : Option CString
  pub included_modules : List CString
  pub prepended_modules : List CString
  pub extended_modules : List CString

-- `generic_arguments` points to an array of `generic_argument_count` vectors, the members of a union
-- type each; a null pointer is the array of no vectors.
mutual
  pub data ConstantInstance : Type 0 where
    constant_instance :
        (name : CString) (generic_argument_count : ℕ) (generic_arguments : Unions)
        (singleton : Bool)
        → ConstantInstance

  pub data Unions : Type 0 where
    no_unions : Unions
    union : Instances → Unions → Unions

  pub data Instances : Type 0 where
    no_instances : Instances
    instance_of : ConstantInstance → Instances → Instances

-- `ConstantInstance {}`
abbrev pub unset_instance : ConstantInstance
unset_instance = constant_instance none zero no_unions false

pub record Parameter : Type 0 where
  pub name : CString
  pub type_name : ConstantInstance
  pub param_type : ParamType

-- A `nullptr` on `current_block_call_stack` stands for a call of an inner block. `tracepoint_id` is
-- zero where no tracepoint is set.
pub record BlockParameter : Type 0 where
  pub name : CString
  pub tracepoint_id : ℕ
  pub block_traces : List Ptr
  pub current_block_call_stack : List (Option Ptr)

-- `BlockParameter {}`
abbrev pub unset_block : BlockParameter
unset_block = record {
  name = none;
  tracepoint_id = zero;
  block_traces = [];
  current_block_call_stack = [];
}

-- `params` holds the first `params_size` cells of the source's array, which are those it fills.
pub record ReturnTrace : Type 0 where
  pub method_owner : ConstantInstance
  pub method_callee : Option ConstantInstance
  pub method_name : CString
  pub method_kind : MethodKind
  pub method_visibility : MethodVisibility
  pub return_type : ConstantInstance
  pub params : List Parameter
  pub rescued : Bool
  pub constant_updates : List Constant
  pub block_param : Option BlockParameter
  pub block_self_type : Option ConstantInstance

-- `ReturnTrace {}`
abbrev pub unset_trace : ReturnTrace
unset_trace = record {
  method_owner = unset_instance;
  method_callee = none;
  method_name = none;
  method_kind = instance_kind;
  method_visibility = public_visibility;
  return_type = unset_instance;
  params = [];
  rescued = false;
  constant_updates = [];
  block_param = none;
  block_self_type = none;
}

-- The traces that are allocated, by address; `none` where nothing is or where it was freed.
abbrev pub Heap : Type 0
Heap = Ptr → Option ReturnTrace
