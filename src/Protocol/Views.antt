-- ===== src/Protocol/Views.antt =====
-- What a trace of the heap is to the agent, for a trace that the worker can write.
use racer_rb.Base.{ℕ, suc, ◌≡◌, Option, none, some, List, [], ◌∷◌, All, map}
use racer_rb.Traces.{
  CString, Ptr, Constant, ConstantInstance, Unions, Instances, constant_instance, Parameter,
  BlockParameter, ReturnTrace, Heap,
}
use racer_rb.Json.{Value, nil, boolean}
use racer_rb.Agent.Trace.{
  RubyConstant, RubyInstance, RubyUnions, RubyInstances, ruby_instance, no_unions, union,
  no_instances, instance_of, RubyParam, RubyBlockParam, no_block, block, RubyBlockTraces, no_traces,
  block_trace, RubyTrace,
}
use racer_rb.Protocol.Tokens.{name_value}

abbrev pub HasName : CString → Type 0
HasName none = ⊥
HasName (some s) = Unit

abbrev pub unions_size : Unions → ℕ
unions_size Unions.no_unions = 0
unions_size (Unions.union is us) = suc (unions_size us)

unfoldable mutual
  pub view_instance : ConstantInstance → RubyInstance
  view_instance (constant_instance name count us singleton) =
      ruby_instance (name_value name) (boolean singleton) (view_unions us)

  pub view_unions : Unions → RubyUnions
  view_unions Unions.no_unions = no_unions
  view_unions (Unions.union is us) = union (view_instances is) (view_unions us)

  pub view_instances : Instances → RubyInstances
  view_instances Instances.no_instances = no_instances
  view_instances (Instances.instance_of i is) = instance_of (view_instance i) (view_instances is)

-- All names are set, and `generic_argument_count` is the length of the array.
unfoldable mutual
  pub IsComplete : ConstantInstance → Type 0
  IsComplete (constant_instance name count us singleton) =
      HasName name × (count ≡ unions_size us) × AreUnions us

  pub AreUnions : Unions → Type 0
  AreUnions Unions.no_unions = Unit
  AreUnions (Unions.union is us) = AreInstances is × AreUnions us

  pub AreInstances : Instances → Type 0
  AreInstances Instances.no_instances = Unit
  AreInstances (Instances.instance_of i is) = IsComplete i × AreInstances is

abbrev pub superclass_value : Option CString → Value
superclass_value none = nil
superclass_value (some name) = name_value name

abbrev pub view_constant : Constant → RubyConstant
view_constant c = record {
  name = name_value c.name;
  anonymous = boolean c.anonymous;
  type = c.type;
  superclass = superclass_value c.superclass;
  included_modules = map name_value c.included_modules;
  prepended_modules = map name_value c.prepended_modules;
  extended_modules = map name_value c.extended_modules;
}

abbrev pub HasSuperclassName : Option CString → Type 0
HasSuperclassName none = Unit
HasSuperclassName (some name) = HasName name

pub record IsNamedConstant (c : Constant) : Type 0 where
  pub name : HasName c.name
  pub superclass : HasSuperclassName c.superclass
  pub included_modules : All HasName c.included_modules
  pub prepended_modules : All HasName c.prepended_modules
  pub extended_modules : All HasName c.extended_modules

abbrev pub view_param : Parameter → RubyParam
view_param p = record { name = p.name; type_name = view_instance p.type_name; type = p.param_type }

abbrev pub IsCompleteParam : Parameter → Type 0
IsCompleteParam p = IsComplete p.type_name

abbrev pub IsSelfType : RubyInstance → Option ConstantInstance → Type 0
IsSelfType s none = ⊥
IsSelfType s (some i) = IsComplete i × (s ≡ view_instance i)

-- The parts of a block trace that stand in the trace itself.
pub record IsBlockTrace (s r : RubyInstance) (ps : List RubyParam) (t : ReturnTrace) : Type 0 where
  pub self_type : IsSelfType s t.block_self_type
  pub return_type : IsComplete t.return_type
  pub return_view : r ≡ view_instance t.return_type
  pub params : All IsCompleteParam t.params
  pub params_view : ps ≡ map view_param t.params

-- A block parameter, with the traces that its addresses lead to.
unfoldable mutual
  pub IsBlock : Heap → RubyBlockParam → Option BlockParameter → Type 0
  IsBlock h no_block none = Unit
  IsBlock h no_block (some b) = ⊥
  IsBlock h (block name ts) none = ⊥
  IsBlock h (block name ts) (some b) = (name ≡ name_value b.name) × AreTraces h ts b.block_traces

  pub AreTraces : Heap → RubyBlockTraces → List Ptr → Type 0
  AreTraces h no_traces [] = Unit
  AreTraces h no_traces (p ∷ qs) = ⊥
  AreTraces h (block_trace s r ps b ts) [] = ⊥
  AreTraces h (block_trace s r ps b ts) (p ∷ qs) =
      (t : ReturnTrace) × (h p ≡ some t)
      × IsBlockTrace s r ps t
      × IsBlock h b t.block_param
      × AreTraces h ts qs

abbrev pub IsCompleteCallee : Option ConstantInstance → Type 0
IsCompleteCallee none = Unit
IsCompleteCallee (some i) = IsComplete i

-- A trace that the worker can write: its names are set, and its block is `b`.
pub record IsSendable (h : Heap) (b : RubyBlockParam) (t : ReturnTrace) : Type 0 where
  pub method_name : HasName t.method_name
  pub return_type : IsComplete t.return_type
  pub method_owner : IsComplete t.method_owner
  pub method_callee : IsCompleteCallee t.method_callee
  pub constant_updates : All IsNamedConstant t.constant_updates
  pub params : All IsCompleteParam t.params
  pub block_param : IsBlock h b t.block_param

abbrev pub view_callee : Option ConstantInstance → Option RubyInstance
view_callee none = none
view_callee (some i) = some (view_instance i)

abbrev pub view_trace : ReturnTrace → RubyBlockParam → RubyTrace
view_trace t b = record {
  method_owner = view_instance t.method_owner;
  method_callee = view_callee t.method_callee;
  method_name = name_value t.method_name;
  method_kind = t.method_kind;
  method_visibility = t.method_visibility;
  return_type = view_instance t.return_type;
  params = map view_param t.params;
  block_param = b;
  constant_updates = map view_constant t.constant_updates;
}
