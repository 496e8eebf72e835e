-- ===== src/Racer/Parameters.antt =====
-- ext/racer/racer.cc, assign_parameters: the types of the arguments of a call, and its block.
use text.Mathlib.Text.{◌==◌ as str_eq}
use racer_rb.Base.{
  ℕ, ◌+◌, String, Bool, true, false, Option, none, some, List, [], ◌∷◌, ◌++◌, if◌then◌else◌,
}
use racer_rb.Traces.{
  ParamType, required, optional, rest, keyword_required, keyword_optional, keyword_rest, CString,
  Ptr, ConstantInstance, no_unions, BlockParameter, unset_block, ReturnTrace,
}
use racer_rb.Racer.State.{RubyValue, Vm, M, pure, ◌>>=◌, update}
use racer_rb.Racer.Generics.{class_to_constant_instance, value_to_constant_instance}

-- The kinds of Ruby's Method#parameters.
pub data ParamId : Type 0 where
  req_param opt_param rest_param keyreq_param key_param keyrest_param nokey_param block_param_id :
      ParamId
  unknown_param : ParamId

-- One entry of the parameters, with its name, none where it has no name, and what the local variable
-- of that name holds; `block` is none where a block parameter holds nil.
pub record RubyArgument : Type 0 where
  pub id : ParamId
  pub name : Option String
  pub value : RubyValue
  pub block : Option RubyValue

-- The type that goes with a kind; none is a kind that is not known, of which there is a warning.
abbrev pub param_type : ParamId → Option ParamType
param_type req_param = some required
param_type opt_param = some optional
param_type rest_param = some rest
param_type keyreq_param = some keyword_required
param_type key_param = some keyword_optional
param_type keyrest_param = some keyword_rest
param_type _ = none

abbrev pub push_param : CString → ConstantInstance → ParamType → ReturnTrace → ReturnTrace
push_param name i type trace = record trace {
  params = trace.params ++ record { name = name; type_name = i; param_type = type } ∷ [];
}

abbrev pub push_typed : CString → ConstantInstance → Option ParamType → ReturnTrace → ReturnTrace
push_typed name i none trace = trace
push_typed name i (some type) trace = push_param name i type trace

-- A new tracepoint on the block, with the trace at `p` for its data.
unfoldable pub trace_block : Ptr → M ℕ
trace_block p s = some (
  s.next_tracepoint,
  record s {
    next_tracepoint = s.next_tracepoint + 1;
    block_tracepoints =
        update s.block_tracepoints s.next_tracepoint (some (record { target = p; enabled = true }));
  },
)

module _ (vm : Vm) (f levels : ℕ) where
  open vm use {rb_c_array, rb_c_hash, can_target}

  -- A block that the tracepoint cannot be set on, such as one in C, is left alone.
  unfoldable pub block_parameter : Ptr → String → Option RubyValue → M BlockParameter
  unfolding trace_block
  block_parameter p name value = if str_eq name "&" then pure unset_block else elim value [
    | none ↦ pure (record unset_block { name = some name })
    | some b ↦
        if can_target b
        then (do
          tp ← trace_block p
          pure (record unset_block { name = some name; tracepoint_id = tp }))
        else pure (record unset_block { name = some name })
  ]

  unfoldable pub argument_instance : String → RubyValue → M ConstantInstance
  unfolding class_to_constant_instance value_to_constant_instance
  argument_instance name value =
      if str_eq name "*"
      then class_to_constant_instance vm f rb_c_array 0 no_unions false
      else if str_eq name "**"
      then class_to_constant_instance vm f rb_c_hash 0 no_unions false
      else value_to_constant_instance vm f levels value 0

  -- The flag says whether there was a block parameter.
  unfoldable pub assign_named :
      Ptr → ParamId → String → RubyArgument → ReturnTrace × Bool → M (ReturnTrace × Bool)
  unfolding block_parameter argument_instance
  assign_named p block_param_id name a (trace, has_block) = do
    b ← block_parameter p name a.block
    pure (record trace { block_param = some b }, true)
  assign_named p id name a (trace, has_block) = do
    i ← argument_instance name a.value
    pure (push_typed (some name) i (param_type id) trace, has_block)

  -- A required parameter without a name takes an array apart; any other is dropped, `**nil` with no
  -- warning.
  unfoldable pub assign_unnamed : ParamId → ReturnTrace × Bool → M (ReturnTrace × Bool)
  unfolding class_to_constant_instance
  assign_unnamed req_param (trace, has_block) = do
    i ← class_to_constant_instance vm f rb_c_array 0 no_unions false
    pure (push_param none i required trace, has_block)
  assign_unnamed id state = pure state

  unfoldable pub assign_argument : Ptr → RubyArgument → ReturnTrace × Bool → M (ReturnTrace × Bool)
  unfolding assign_named assign_unnamed
  assign_argument p a state = elim a.name [
    | none ↦ assign_unnamed a.id state
    | some name ↦ assign_named p a.id name a state
  ]

  unfoldable pub argument_loop :
      Ptr → List RubyArgument → ReturnTrace × Bool → M (ReturnTrace × Bool)
  unfolding assign_argument
  argument_loop p [] state = pure state
  argument_loop p (a ∷ later) state = assign_argument p a state >>= argument_loop p later

  abbrev pub given_block : Bool → ReturnTrace × Bool → ReturnTrace
  given_block block_given (trace, has_block) =
      if has_block
      then trace
      else if block_given
      then record trace { block_param = some unset_block }
      else trace

  unfoldable pub assign_parameters : Ptr → List RubyArgument → Bool → ReturnTrace → M ReturnTrace
  unfolding argument_loop
  assign_parameters p arguments block_given trace = do
    state ← argument_loop p arguments (record trace { params = [] }, false)
    pure (given_block block_given state)
