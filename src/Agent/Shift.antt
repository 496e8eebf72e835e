-- ===== src/Agent/Shift.antt =====
-- lib/racer/agent.rb, worker_loop from `JSON.parse` on and the shift_ methods: a message taken apart
-- from its front.
use racer_rb.Base.{
  ℕ, zero, suc, String, Bool, false, true, Option, none, some, List, [], ◌∷◌, get_elem?, length,
}
use racer_rb.Traces.{required, ClassType, instance_kind, public_visibility}
use racer_rb.Json.{JsonLib, Value, nil, boolean, integer, string}
use racer_rb.Agent.Trace.{
  kinds, visibilities, constant_types, param_types, RubyConstant, RubyInstance, ruby_instance,
  no_unions, union, no_instances, instance_of, RubyParam, RubyBlockParam, no_block, block,
  RubyBlockTraces, no_traces, block_trace, RubyTrace,
}

-- `raised` is a Ruby exception; `out_of_fuel` has no counterpart in the program.
pub data Result (A : Type 0) : Type 0 where
  ok : A → Result A
  raised out_of_fuel : Result A

-- What is left of `data` goes along with the result.
abbrev pub Shift : Type 0 → Type 0
Shift A = List Value → Result (A × List Value)

abbrev pub pure : {A : Type 0} → A → Shift A
pure a vs = ok (a, vs)

abbrev pub raise : {A : Type 0} → Shift A
raise vs = raised

module _ {A B : Type 0} where
  abbrev pub and_then : Result (A × List Value) → (A → Shift B) → Result (B × List Value)
  and_then (ok (a, vs)) k = k a vs
  and_then raised k = raised
  and_then out_of_fuel k = out_of_fuel

  infixl 5 ◌>>=◌
  abbrev pub ◌>>=◌ : Shift A → (A → Shift B) → Shift B
  m >>= k = λ vs. and_then (m vs) k

-- `data.shift`, which is nil on an empty array.
unfoldable pub shift : Shift Value
shift [] = ok (nil, [])
shift (v ∷ vs) = ok (v, vs)

-- `n.times.map { … }` with the items collected by `cons`.
unfoldable pub times : {A L : Type 0} → L → (A → L → L) → Shift A → ℕ → Shift L
times empty cons item zero vs = ok (empty, vs)
times empty cons item (suc n) vs =
    and_then (item vs) λ a. times empty cons item n >>= λ l. pure (cons a l)

-- `data.shift.times`: only an integer has the method.
unfoldable pub shift_count : Shift ℕ
shift_count (integer n ∷ vs) = ok (n, vs)
shift_count _ = raised

-- `table.fetch(data.shift) { default }`, which raises on what is no integer.
unfoldable pub shift_fetch : {A : Type 0} → List A → A → Shift A
shift_fetch table default (integer n ∷ vs) = elim (get_elem? table n) [
  | none ↦ ok (default, vs)
  | some a ↦ ok (a, vs)
]
shift_fetch table default _ = raised

-- Nested types cost a unit of fuel for each level.
unfoldable pub shift_constant_instance : ℕ → Shift RubyInstance
unfolding shift times shift_count
shift_constant_instance zero = λ vs. out_of_fuel
shift_constant_instance (suc f) = do
  name ← shift
  singleton ← shift
  count ← shift_count
  arguments ←
      times no_unions union
        (shift_count >>= times no_instances instance_of (shift_constant_instance f)) count
  pure (ruby_instance name singleton arguments)

unfoldable pub shift_values : Shift (List Value)
unfolding shift_count times shift
shift_values = shift_count >>= times [] ◌∷◌ shift

-- `TYPES.fetch(type)`, with no default.
unfoldable pub fetch_type : Value → Shift ClassType
fetch_type (integer n) vs = elim (get_elem? constant_types n) [
  | none ↦ raised
  | some t ↦ ok (t, vs)
]
fetch_type _ vs = raised

unfoldable pub shift_constant : Shift RubyConstant
unfolding shift shift_values fetch_type
shift_constant = do
  name ← shift
  anonymous ← shift
  type ← shift
  superclass ← shift
  included ← shift_values
  prepended ← shift_values
  extended ← shift_values
  type' ← fetch_type type
  pure (record {
    name = name;
    anonymous = anonymous;
    type = type';
    superclass = superclass;
    included_modules = included;
    prepended_modules = prepended;
    extended_modules = extended;
  })

-- `name&.to_sym`: a nil stays nil, and only a string has the method.
unfoldable pub to_sym : Value → Shift (Option String)
to_sym nil vs = ok (none, vs)
to_sym (string s) vs = ok (some s, vs)
to_sym _ vs = raised

unfoldable pub shift_param : ℕ → Shift RubyParam
unfolding shift shift_fetch shift_constant_instance to_sym
shift_param f = do
  name ← shift
  type ← shift_fetch param_types required
  type_name ← shift_constant_instance f
  name' ← to_sym name
  pure (record { name = name'; type_name = type_name; type = type })

unfoldable pub shift_param_list : ℕ → Shift (List RubyParam)
unfolding shift_count times shift_param
shift_param_list f = shift_count >>= times [] ◌∷◌ (shift_param f)

-- Ruby's truth: all but nil and false.
abbrev pub truthy : Value → Bool
truthy nil = false
truthy (boolean b) = b
truthy _ = true

unfoldable pub shift_block_if : Bool → Shift RubyBlockTraces → Shift RubyBlockParam
unfolding shift
shift_block_if false traces = pure no_block
shift_block_if true traces = do name ← shift; ts ← traces; pure (block name ts)

-- `traces` reads the block traces of the parameters' block.
unfoldable pub shift_block_param : Shift RubyBlockTraces → Shift RubyBlockParam
unfolding shift shift_block_if
shift_block_param traces = shift >>= λ present. shift_block_if (truthy present) traces

unfoldable pub shift_params_with :
    ℕ → Shift RubyBlockTraces → Shift (List RubyParam × RubyBlockParam)
unfolding shift_param_list shift_block_param
shift_params_with types traces = do
  params ← shift_param_list types
  block_param ← shift_block_param traces
  pure (params, block_param)

-- One block trace, to be put in front of those that follow.
unfoldable pub shift_block_trace :
    ℕ → Shift RubyBlockTraces → Shift (RubyBlockTraces → RubyBlockTraces)
unfolding shift_constant_instance shift_params_with
shift_block_trace types traces = do
  self_type ← shift_constant_instance types
  return_type ← shift_constant_instance types
  (params, block_param) ← shift_params_with types traces
  pure (block_trace self_type return_type params block_param)

-- `types` is the fuel for the types, `f` the fuel for the nesting of blocks.
unfoldable pub shift_block_traces : ℕ → ℕ → Shift RubyBlockTraces
unfolding shift_count times shift_block_trace
shift_block_traces types zero = λ vs. out_of_fuel
shift_block_traces types (suc f) =
    shift_count
    >>= times no_traces (λ cons. cons) (shift_block_trace types (shift_block_traces types f))

unfoldable pub shift_params : ℕ → ℕ → Shift (List RubyParam × RubyBlockParam)
unfolding shift_params_with shift_block_traces
shift_params types f = shift_params_with types (shift_block_traces types f)

unfoldable pub shift_callee : ℕ → Shift (Option RubyInstance)
unfolding shift shift_constant_instance
shift_callee f [] = ok (none, [])
shift_callee f (v ∷ vs) = elim (truthy v) [
  | true ↦ (do i ← shift_constant_instance f; pure (some i)) (v ∷ vs)
  | false ↦ ok (none, vs)
]

unfoldable pub shift_trace : ℕ → ℕ → Shift RubyTrace
unfolding shift shift_fetch shift_constant_instance shift_callee shift_count times shift_constant
    shift_params
shift_trace types f = do
  method_name ← shift
  method_kind ← shift_fetch kinds instance_kind
  method_visibility ← shift_fetch visibilities public_visibility
  return_type ← shift_constant_instance types
  method_owner ← shift_constant_instance types
  method_callee ← shift_callee types
  constant_updates ← (shift_count >>= times [] ◌∷◌ shift_constant)
  (params, block_param) ← shift_params types f
  pure (record {
    method_owner = method_owner;
    method_callee = method_callee;
    method_name = method_name;
    method_kind = method_kind;
    method_visibility = method_visibility;
    return_type = return_type;
    params = params;
    block_param = block_param;
    constant_updates = constant_updates;
  })

-- Every level of nesting takes values, so the number of values is fuel enough.
unfoldable pub shift_message : Option (List Value) → Result (RubyTrace × List Value)
shift_message none = raised
shift_message (some vs) = shift_trace (length vs) (length vs) vs

-- worker_loop from `JSON.parse(data)` to the trace that it pushes, with what is left of `data`.
unfoldable pub receive : (J : JsonLib) → JsonLib.Text J → Result (RubyTrace × List Value)
unfolding shift_message
receive J text = shift_message (JsonLib.parse J text)
