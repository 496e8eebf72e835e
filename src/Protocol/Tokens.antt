-- ===== src/Protocol/Tokens.antt =====
-- The wire form of the agent's objects: the values of a message in order, and how deep types and
-- blocks nest in it.
use racer_rb.Base.{
  ℕ, suc, ◌≤◌, max, String, true, false, Option, none, some, List, [], ◌∷◌, ◌++◌, length,
}
use racer_rb.Json.{Value, nil, boolean, integer, string}
use racer_rb.Worker.Writer.{param_type_int, class_type_int, method_kind_int, method_visibility_int}
use racer_rb.Agent.Trace.{
  RubyConstant, RubyInstance, RubyUnions, RubyInstances, ruby_instance, no_unions, union,
  no_instances, instance_of, RubyParam, RubyBlockParam, no_block, block, RubyBlockTraces, no_traces,
  block_trace, RubyTrace,
}

abbrev pub count_unions : RubyUnions → ℕ
count_unions no_unions = 0
count_unions (union is us) = suc (count_unions us)

abbrev pub count_instances : RubyInstances → ℕ
count_instances no_instances = 0
count_instances (instance_of i is) = suc (count_instances is)

abbrev pub count_traces : RubyBlockTraces → ℕ
count_traces no_traces = 0
count_traces (block_trace s r ps b ts) = suc (count_traces ts)

unfoldable mutual
  pub instance_tokens : RubyInstance → List Value
  instance_tokens (ruby_instance name singleton us) =
      name ∷ singleton ∷ integer (count_unions us) ∷ unions_tokens us

  pub unions_tokens : RubyUnions → List Value
  unions_tokens no_unions = []
  unions_tokens (union is us) =
      integer (count_instances is) ∷ (instances_tokens is ++ unions_tokens us)

  pub instances_tokens : RubyInstances → List Value
  instances_tokens no_instances = []
  instances_tokens (instance_of i is) = instance_tokens i ++ instances_tokens is

abbrev pub values_tokens : List Value → List Value
values_tokens vs = integer (length vs) ∷ vs

unfoldable pub constant_tokens : RubyConstant → List Value
constant_tokens c =
    c.name
    ∷ c.anonymous
    ∷ integer (class_type_int c.type)
    ∷ c.superclass
    ∷ (values_tokens c.included_modules
        ++ (values_tokens c.prepended_modules ++ values_tokens c.extended_modules))

unfoldable pub constants_tokens : List RubyConstant → List Value
constants_tokens [] = []
constants_tokens (c ∷ cs) = constant_tokens c ++ constants_tokens cs

abbrev pub name_value : Option String → Value
name_value none = nil
name_value (some s) = string s

unfoldable pub param_tokens : RubyParam → List Value
param_tokens p = name_value p.name ∷ integer (param_type_int p.type) ∷ instance_tokens p.type_name

unfoldable pub params_tokens : List RubyParam → List Value
params_tokens [] = []
params_tokens (p ∷ ps) = param_tokens p ++ params_tokens ps

unfoldable mutual
  pub block_param_tokens : RubyBlockParam → List Value
  block_param_tokens no_block = boolean false ∷ []
  block_param_tokens (block name ts) =
      boolean true ∷ name ∷ integer (count_traces ts) ∷ block_traces_tokens ts

  pub block_traces_tokens : RubyBlockTraces → List Value
  block_traces_tokens no_traces = []
  block_traces_tokens (block_trace s r ps b ts) =
      (instance_tokens s
        ++ (instance_tokens r ++ integer (length ps) ∷ (params_tokens ps ++ block_param_tokens b)))
      ++ block_traces_tokens ts

abbrev pub callee_tokens : Option RubyInstance → List Value
callee_tokens none = nil ∷ []
callee_tokens (some i) = instance_tokens i

unfoldable pub trace_tokens : RubyTrace → List Value
trace_tokens t =
    t.method_name
    ∷ integer (method_kind_int t.method_kind)
    ∷ integer (method_visibility_int t.method_visibility)
    ∷ (instance_tokens t.return_type
        ++ (instance_tokens t.method_owner
            ++ (callee_tokens t.method_callee
                ++ (integer (length t.constant_updates)
                    ∷ (constants_tokens t.constant_updates
                        ++ (integer (length t.params)
                            ∷ (params_tokens t.params ++ block_param_tokens t.block_param)))))))

-- How deep generic arguments nest.
unfoldable mutual
  pub instance_depth : RubyInstance → ℕ
  instance_depth (ruby_instance name singleton us) = suc (unions_depth us)

  pub unions_depth : RubyUnions → ℕ
  unions_depth no_unions = 0
  unions_depth (union is us) = max (instances_depth is) (unions_depth us)

  pub instances_depth : RubyInstances → ℕ
  instances_depth no_instances = 0
  instances_depth (instance_of i is) = max (instance_depth i) (instances_depth is)

unfoldable pub params_depth : List RubyParam → ℕ
params_depth [] = 0
params_depth (p ∷ ps) = max (instance_depth p.type_name) (params_depth ps)

-- How deep the types in a block parameter nest.
unfoldable mutual
  pub block_param_types : RubyBlockParam → ℕ
  block_param_types no_block = 0
  block_param_types (block name ts) = block_traces_types ts

  pub block_traces_types : RubyBlockTraces → ℕ
  block_traces_types no_traces = 0
  block_traces_types (block_trace s r ps b ts) =
      max (max (instance_depth s) (max (instance_depth r) (params_depth ps)))
        (max (block_param_types b) (block_traces_types ts))

-- How deep block traces nest.
unfoldable mutual
  pub block_param_depth : RubyBlockParam → ℕ
  block_param_depth no_block = 0
  block_param_depth (block name ts) = suc (block_traces_depth ts)

  pub block_traces_depth : RubyBlockTraces → ℕ
  block_traces_depth no_traces = 0
  block_traces_depth (block_trace s r ps b ts) = max (block_param_depth b) (block_traces_depth ts)

abbrev pub callee_depth : Option RubyInstance → ℕ
callee_depth none = 0
callee_depth (some i) = instance_depth i

-- The fuel for types suffices for every type of a trace.
pub record FitsTypes (types : ℕ) (t : RubyTrace) : Type 0 where
  pub return_type : instance_depth t.return_type ≤ types
  pub method_owner : instance_depth t.method_owner ≤ types
  pub method_callee : callee_depth t.method_callee ≤ types
  pub params : params_depth t.params ≤ types
  pub block_param : block_param_types t.block_param ≤ types
