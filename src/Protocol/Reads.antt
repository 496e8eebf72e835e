-- ===== src/Protocol/Reads.antt =====
-- lib/racer/agent.rb: the agent's shift_ methods on the values of the parts of a message.
use racer_rb.Base.{
  ℕ, zero, suc, ◌≤◌, String, ◌≡◌, refl, true, false, Option, none, some, List, [], ◌∷◌, ◌++◌,
  length, arith,
}
use racer_rb.Traces.{
  ParamType, required, ClassType, module_type, class_type, MethodKind, instance_kind,
  MethodVisibility, public_visibility,
}
use racer_rb.Json.{boolean, integer}
use racer_rb.Worker.Writer.{param_type_int, class_type_int, method_kind_int, method_visibility_int}
use racer_rb.Agent.Trace.{
  kinds, visibilities, param_types, RubyConstant, RubyInstance, ruby_instance, RubyParam,
  RubyBlockParam, no_block, block, RubyBlockTraces, no_traces, block_trace, RubyTrace,
}
use racer_rb.Agent.Shift.{
  Shift, pure, times, shift_fetch, fetch_type, shift_constant, to_sym, shift_param,
  shift_param_list, shift_block_param, shift_block_if, shift_params_with, shift_block_trace,
  shift_params, shift_block_traces, shift_callee, shift_trace, truthy,
}
use racer_rb.Protocol.Tokens.{
  count_traces, instance_tokens, constant_tokens, constants_tokens, name_value, param_tokens,
  params_tokens, block_param_tokens, block_traces_tokens, callee_tokens, trace_tokens,
  instance_depth, params_depth, block_param_types, block_traces_types, block_param_depth,
  block_traces_depth, callee_depth, FitsTypes,
}
use racer_rb.Protocol.Reading.{
  Reads-instance, Reads, Reads-bind, Reads-last, Reads-times, Reads-pure, Reads-shift,
  Reads-shift_count, Reads-shift_values,
}

Reads-fetch_type : (t : ClassType) → Reads (fetch_type (integer (class_type_int t))) [] t
unfolding fetch_type
Reads-fetch_type module_type = record { reads = λ others. refl }
Reads-fetch_type class_type = record { reads = λ others. refl }

Reads-constant : (c : RubyConstant) → Reads shift_constant (constant_tokens c) c
unfolding shift_constant constant_tokens
Reads-constant c = Reads-bind _ (Reads-shift c.name) (
    Reads-bind _ (Reads-shift c.anonymous) (
      Reads-bind _ (Reads-shift (integer (class_type_int c.type))) (
        Reads-bind _ (Reads-shift c.superclass) (
          Reads-bind _ (Reads-shift_values c.included_modules) (
            Reads-bind _ (Reads-shift_values c.prepended_modules) (
              Reads-last _ (Reads-shift_values c.extended_modules)
                (Reads-last _ (Reads-fetch_type c.type) (Reads-pure c))))))))

Reads-constants :
    (cs : List RubyConstant)
    → Reads (times [] ◌∷◌ shift_constant (length cs)) (constants_tokens cs) cs
unfolding times constants_tokens
Reads-constants [] = record { reads = λ others. refl }
Reads-constants (c ∷ cs) = Reads-times [] ◌∷◌ (length cs) (Reads-constant c) (Reads-constants cs)

-- The agent's tables list the enumerators in the order of their numbers.
Reads-param_type :
    (t : ParamType) → Reads (shift_fetch param_types required) (integer (param_type_int t) ∷ []) t
unfolding shift_fetch
Reads-param_type required = record { reads = λ others. refl }
Reads-param_type _ = record { reads = λ others. refl }

Reads-kind :
    (k : MethodKind) → Reads (shift_fetch kinds instance_kind) (integer (method_kind_int k) ∷ []) k
unfolding shift_fetch
Reads-kind instance_kind = record { reads = λ others. refl }
Reads-kind _ = record { reads = λ others. refl }

Reads-visibility :
    (v : MethodVisibility)
    → Reads (shift_fetch visibilities public_visibility) (integer (method_visibility_int v) ∷ []) v
unfolding shift_fetch
Reads-visibility public_visibility = record { reads = λ others. refl }
Reads-visibility _ = record { reads = λ others. refl }

Reads-to_sym : (name : Option String) → Reads (to_sym (name_value name)) [] name
unfolding to_sym
Reads-to_sym none = record { reads = λ others. refl }
Reads-to_sym (some s) = record { reads = λ others. refl }

Reads-param :
    (p : RubyParam) (f : ℕ)
    → instance_depth p.type_name ≤ f
    → Reads (shift_param f) (param_tokens p) p
unfolding shift_param param_tokens
Reads-param p f h = Reads-bind _ (Reads-shift (name_value p.name)) (
    Reads-bind _ (Reads-param_type p.type) (
      Reads-last _ (Reads-instance p.type_name f h)
        (Reads-last _ (Reads-to_sym p.name) (Reads-pure p))))

Reads-params :
    (ps : List RubyParam) (f : ℕ)
    → params_depth ps ≤ f
    → Reads (times [] ◌∷◌ (shift_param f) (length ps)) (params_tokens ps) ps
unfolding times params_tokens params_depth
Reads-params [] f h = record { reads = λ others. refl }
Reads-params (p ∷ ps) f h =
    Reads-times [] ◌∷◌ (length ps) (Reads-param p f (omega arith)) (Reads-params ps f (omega arith))

Reads-param_list :
    (ps : List RubyParam) (f : ℕ)
    → params_depth ps ≤ f
    → Reads (shift_param_list f) (integer (length ps) ∷ params_tokens ps) ps
unfolding shift_param_list
Reads-param_list ps f h = Reads-bind _ (Reads-shift_count (length ps)) (Reads-params ps f h)

Reads-params_with :
    {ps : List RubyParam} {b : RubyBlockParam} {types : ℕ} (traces : Shift RubyBlockTraces)
    → params_depth ps ≤ types
    → Reads (shift_block_param traces) (block_param_tokens b) b
    → Reads
        (shift_params_with types traces)
        (integer (length ps) ∷ (params_tokens ps ++ block_param_tokens b))
        (ps, b)
unfolding shift_params_with
Reads-params_with {ps} {b} {types} traces h hb =
    Reads-bind _ (Reads-param_list ps types h) (Reads-last _ hb (Reads-pure (ps, b)))

mutual
  unfolding times shift_block_param shift_block_if shift_block_trace shift_block_traces
      block_param_tokens block_param_types block_param_depth

  Reads-block_param :
      (b : RubyBlockParam) (types f : ℕ)
      → block_param_types b ≤ types
      → block_param_depth b ≤ f
      → Reads (shift_block_param (shift_block_traces types f)) (block_param_tokens b) b
  Reads-block_param no_block types f ht hf =
      Reads-bind _ (Reads-shift (boolean false)) (Reads-pure no_block)
  Reads-block_param (block name ts) types zero ht hf = absurd (omega arith)
  Reads-block_param (block name ts) types (suc f) ht hf =
      Reads-bind _ (Reads-shift (boolean true)) (
        Reads-bind _ (Reads-shift name) (
          Reads-last _
            (Reads-bind _ (Reads-shift_count (count_traces ts))
              (Reads-block_traces ts types f (omega arith) (omega arith)))
            (Reads-pure (block name ts))))

  Reads-block_traces :
      (ts : RubyBlockTraces) (types f : ℕ)
      → block_traces_types ts ≤ types
      → block_traces_depth ts ≤ f
      → Reads
          (times no_traces
            (λ cons. cons)
            (shift_block_trace types (shift_block_traces types f))
            (count_traces ts))
          (block_traces_tokens ts)
          ts
  Reads-block_traces no_traces types f ht hf = record { reads = λ others. refl }
  Reads-block_traces (block_trace s r ps b ts) types f ht hf =
      Reads-times no_traces (λ cons. cons) (count_traces ts)
        (Reads-bind _ (Reads-instance s types (omega arith)) (
          Reads-bind _ (Reads-instance r types (omega arith)) (
            Reads-last _
              (Reads-params_with _ (omega arith)
                (Reads-block_param b types f (omega arith) (omega arith)))
              (Reads-pure (block_trace s r ps b)))))
        (Reads-block_traces ts types f (omega arith) (omega arith))

-- The name of a callee is not nil, by which the agent tells a callee from none.
abbrev pub IsNamed : Option RubyInstance → Type 0
IsNamed none = Unit
IsNamed (some (ruby_instance name singleton us)) = truthy name ≡ true

Reads-callee :
    (c : Option RubyInstance) (f : ℕ)
    → IsNamed c
    → callee_depth c ≤ f
    → Reads (shift_callee f) (callee_tokens c) c
unfolding shift_callee instance_tokens
Reads-callee none f named h = record { reads = λ others. refl }
Reads-callee (some (ruby_instance name singleton us)) f named h =
    let i = ruby_instance name singleton us in
    let whole = Reads-last (λ x. pure (some x)) (Reads-instance i f h) (Reads-pure (some i)) in
    record { reads = λ others. rw (named, shift_callee) (whole.reads others) }

-- A message that holds the wire form of a trace is shifted to that trace, and nothing is left.
pub Reads-trace :
    (t : RubyTrace) (types f : ℕ)
    → FitsTypes types t
    → IsNamed t.method_callee
    → block_param_depth t.block_param ≤ f
    → Reads (shift_trace types f) (trace_tokens t) t
unfolding shift_trace shift_params trace_tokens
Reads-trace t types f fits named h = Reads-bind _ (Reads-shift t.method_name) (
    Reads-bind _ (Reads-kind t.method_kind) (
      Reads-bind _ (Reads-visibility t.method_visibility) (
        Reads-bind _ (Reads-instance t.return_type types fits.return_type) (
          Reads-bind _ (Reads-instance t.method_owner types fits.method_owner) (
            Reads-bind _ (Reads-callee t.method_callee types named fits.method_callee) (
              Reads-bind _
                (Reads-bind _ (Reads-shift_count (length t.constant_updates))
                  (Reads-constants t.constant_updates))
                (Reads-last _
                  (Reads-params_with _ fits.params
                    (Reads-block_param t.block_param types f fits.block_param h))
                  (Reads-pure t))))))))
