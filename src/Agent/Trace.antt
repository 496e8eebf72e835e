-- ===== src/Agent/Trace.antt =====
-- lib/racer/trace.rb: the objects that the agent makes of a message. An attribute that takes over a
-- JSON value unchanged is a `Value`; a symbol out of a table is the enumerator of that name.
use racer_rb.Base.{Option, List, String, [], ◌∷◌}
use racer_rb.Traces.{
  ParamType, required, optional, rest, keyword_required, keyword_optional, keyword_rest, ClassType,
  module_type, class_type, MethodKind, instance_kind, singleton_kind, MethodVisibility,
  public_visibility, private_visibility, protected_visibility,
}
use racer_rb.Json.{Value}

abbrev pub kinds : List MethodKind
kinds = instance_kind ∷ singleton_kind ∷ []

abbrev pub visibilities : List MethodVisibility
visibilities = public_visibility ∷ private_visibility ∷ protected_visibility ∷ []

abbrev pub constant_types : List ClassType
constant_types = module_type ∷ class_type ∷ []

abbrev pub param_types : List ParamType
param_types = required ∷ optional ∷ rest ∷ keyword_required ∷ keyword_optional ∷ keyword_rest ∷ []

pub record RubyConstant : Type 0 where
  pub name : Value
  pub anonymous : Value
  pub type : ClassType
  pub superclass : Value
  pub included_modules : List Value
  pub prepended_modules : List Value
  pub extended_modules : List Value

mutual
  pub data RubyInstance : Type 0 where
    ruby_instance : (name singleton : Value) (generic_arguments : RubyUnions) → RubyInstance

  pub data RubyUnions : Type 0 where
    no_unions : RubyUnions
    union : RubyInstances → RubyUnions → RubyUnions

  pub data RubyInstances : Type 0 where
    no_instances : RubyInstances
    instance_of : RubyInstance → RubyInstances → RubyInstances

pub record RubyParam : Type 0 where
  pub name : Option String
  pub type_name : RubyInstance
  pub type : ParamType

-- A block trace holds a block parameter of its own, which may hold block traces again.
mutual
  pub data RubyBlockParam : Type 0 where
    no_block : RubyBlockParam
    block : (name : Value) (traces : RubyBlockTraces) → RubyBlockParam

  pub data RubyBlockTraces : Type 0 where
    no_traces : RubyBlockTraces
    block_trace :
        (self_type return_type : RubyInstance) (params : List RubyParam)
        (block_param : RubyBlockParam)
        → RubyBlockTraces
        → RubyBlockTraces

pub record RubyTrace : Type 0 where
  pub method_owner : RubyInstance
  pub method_callee : Option RubyInstance
  pub method_name : Value
  pub method_kind : MethodKind
  pub method_visibility : MethodVisibility
  pub return_type : RubyInstance
  pub params : List RubyParam
  pub block_param : RubyBlockParam
  pub constant_updates : List RubyConstant
