-- ===== src/Tests/Samples.antt =====
-- A sample trace with a block trace.
use racer_rb.Base.{String, refl, false, none, some, [], ◌∷◌, ◌==◌, if◌then◌else◌}
use racer_rb.Traces
use racer_rb.Traces.{
  CString, Ptr, Constant, ConstantInstance, constant_instance, BlockParameter, unset_block,
  unset_trace, ReturnTrace, Heap, required, class_type,
}
use racer_rb.Json.{string}
use racer_rb.Agent.Trace.{RubyInstance, RubyBlockParam, block, no_block, no_traces, block_trace}
use racer_rb.Protocol.Views.{view_instance, IsSendable, IsBlock, IsComplete}

abbrev plain : String → ConstantInstance
plain name = constant_instance (some name) 0 Traces.no_unions false

-- Array[String]
abbrev pub strings : ConstantInstance
strings =
    constant_instance (some "Array") 1
      (Traces.union (Traces.instance_of (plain "String") Traces.no_instances) Traces.no_unions)
      false

-- A call of the block that took an Integer and gave an Array[String].
abbrev pub block_call : ReturnTrace
block_call = record unset_trace {
  return_type = strings;
  params = record { name = some "x"; type_name = plain "Integer"; param_type = required } ∷ [];
  block_self_type = some (plain "Foo");
}

abbrev pub heap : Heap
heap p = if p == 2 then some block_call else none

abbrev pub sample : ReturnTrace
sample = record unset_trace {
  method_owner = plain "Foo";
  method_name = some "each";
  return_type = plain "NilClass";
  constant_updates =
      record {
        name = some "Foo";
        anonymous = false;
        type = class_type;
        superclass = some (some "Object");
        included_modules = some "Enumerable" ∷ [];
        prepended_modules = [];
        extended_modules = [];
      }
      ∷ [];
  block_param = some (record unset_block { name = some "block"; block_traces = 2 ∷ [] });
}

-- The block of `sample`, as the agent sees it.
abbrev pub called_block : RubyBlockParam
called_block = block (string "block") (
    block_trace (view (plain "Foo")) (view strings)
      (record { name = some "x"; type_name = view (plain "Integer"); type = required } ∷ [])
      no_block no_traces)
  where
    view : ConstantInstance → RubyInstance
    view = view_instance

pub sample-IsSendable : IsSendable heap called_block sample
unfolding IsComplete IsBlock
sample-IsSendable = record {
  method_name = tt;
  return_type = (tt, refl, tt);
  method_owner = (tt, refl, tt);
  method_callee = tt;
  constant_updates = (
    record {
      name = tt;
      superclass = tt;
      included_modules = (tt, tt);
      prepended_modules = tt;
      extended_modules = tt;
    },
    tt,
  );
  params = tt;
  block_param = (
    refl,
    (
      block_call,
      refl,
      record {
        self_type = ((tt, refl, tt), refl);
        return_type = (tt, refl, (((tt, refl, tt), tt), tt));
        return_view = refl;
        params = ((tt, refl, tt), tt);
        params_view = refl;
      },
      tt,
      tt,
    ),
  );
}
