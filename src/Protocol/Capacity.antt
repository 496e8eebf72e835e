-- ===== src/Protocol/Capacity.antt =====
-- ext/racer/worker.cc: the capacity that the worker computes for a message, against the number of values that it adds.
use racer_rb.Base.{
  ℕ, zero, suc, ◌+◌, ◌-◌, ◌*◌, ◌%◌, ◌^◌, ◌≤◌, ◌<◌, ◌≡◌, refl, Option, none, some, List, [], ◌∷◌,
  ◌++◌, length, map, arith,
}
use racer_rb.Traces.{Ptr, ConstantInstance, Parameter, BlockParameter, ReturnTrace, Heap}
use racer_rb.Json.{Value, integer}
use racer_rb.Worker.Sizes.{
  to_int, to_long, sign_extend, size_then, size_loop, size_of_constant_updates, size_of_block,
  size_of_params_with, size_at, size_of_block_trace, size_of_params, size_of_callee, array_size,
}
use racer_rb.Agent.Trace.{
  RubyInstance, ruby_instance, RubyParam, RubyBlockParam, no_block, block, RubyBlockTraces,
  no_traces, block_trace,
}
use racer_rb.Protocol.Tokens.{
  instance_tokens, constants_tokens, params_tokens, param_tokens, block_param_tokens,
  block_traces_tokens, callee_tokens, trace_tokens, block_param_depth, block_traces_depth,
}
use racer_rb.Protocol.Views.{
  view_instance, view_constant, view_param, IsBlock, AreTraces, IsCompleteCallee, IsSendable,
  view_callee, view_trace,
}
use racer_rb.Protocol.Sizes.{
  size_of_constant_instance-length, length_values, size_of_constants-length,
}

-- `o` is `base` and at most `limit` more, in its low 32 bits.
record Adds (o : Option ℕ) (base limit : ℕ) : Type 0 where
  result : ℕ
  total : ℕ
  eq : o ≡ some result
  low : result % 2 ^ 32 ≡ (base + total) % 2 ^ 32
  le : total ≤ limit

length-instance_tokens : (i : RubyInstance) → 3 ≤ length (instance_tokens i)
unfolding instance_tokens
length-instance_tokens (ruby_instance name singleton us) = omega arith

-- A parameter is announced as three values, and takes at least five.
length-params : (ps : List Parameter) → length ps * 3 ≤ length (params_tokens (map view_param ps))
unfolding params_tokens param_tokens instance_tokens view_instance
length-params [] = omega arith
length-params (p ∷ ps) = omega (
  arith,
  length-params ps,
  length-instance_tokens (view_instance p.type_name),
  length_values (instance_tokens (view_instance p.type_name)) (params_tokens (map view_param ps)),
)

block_tokens_pos : (b : RubyBlockParam) → 1 ≤ length (block_param_tokens b)
unfolding block_param_tokens
block_tokens_pos no_block = omega arith
block_tokens_pos (block name ts) = omega arith

-- The values of a block trace before its block are more than the two it is announced as.
length-block_trace :
    (s r : RubyInstance) (ps : List RubyParam) (b : RubyBlockParam) (ts : RubyBlockTraces)
    → 4
        + (1 + length (params_tokens ps) + length (block_param_tokens b))
        + length (block_traces_tokens ts)
      ≤ length (block_traces_tokens (block_trace s r ps b ts))
unfolding block_param_tokens
length-block_trace s r ps b ts =
    let tail = integer (length ps) ∷ (params_tokens ps ++ block_param_tokens b) in
    omega (
      arith,
      length-instance_tokens s,
      length-instance_tokens r,
      length_values (params_tokens ps) (block_param_tokens b),
      length_values (instance_tokens r) tail,
      length_values (instance_tokens s) (instance_tokens r ++ tail),
      length_values (instance_tokens s ++ (instance_tokens r ++ tail)) (block_traces_tokens ts),
    )

extend_add :
    (size n : ℕ)
    → to_long (size + sign_extend (to_int (2 + n))) % 2 ^ 32 ≡ (size + (2 + n)) % 2 ^ 32
extend_add size n = ground arith

module _ (h : Heap) where
  block_trace_size :
      (f : ℕ) (p : Ptr) {t : ReturnTrace} {n : ℕ}
      → h p ≡ some t
      → size_of_params_with (size_of_block_trace h f) t ≡ some n
      → size_of_block_trace h (suc f) p ≡ some (to_int (2 + n))
  unfolding size_of_block_trace size_at
  block_trace_size f p e a = rw (e, a)

  params_Adds :
      (f : ℕ) (t : ReturnTrace) (b : RubyBlockParam)
      → Adds
          (size_of_block
            (size_of_block_trace h f)
            t.block_param
            (to_long (2 + length t.params * 3)))
          (to_long (2 + length t.params * 3))
          (length (block_param_tokens b) - 1)
      → 1 ≤ length (block_param_tokens b)
      → Adds
          (size_of_params_with (size_of_block_trace h f) t)
          0
          (1 + length (params_tokens (map view_param t.params)) + length (block_param_tokens b))
  unfolding size_of_params_with
  params_Adds f t b a pos = record {
    result = to_int a.result;
    total = 2 + length t.params * 3 + a.total;
    eq = rw a.eq;
    low = omega (arith, a.low);
    le = omega (arith, a.le, length-params t.params);
  }

  loop_Adds :
      (f : ℕ) (size : ℕ) {p : Ptr} (ps : List Ptr) {t : ReturnTrace} (limit rest whole : ℕ)
      → h p ≡ some t
      → (a : Adds (size_of_params_with (size_of_block_trace h f) t) 0 limit)
      → ((next : ℕ)
          → Adds
              (size_loop to_long
                (λ q. size_then (size_of_block_trace h (suc f) q) λ n. some (sign_extend n))
                ps
                next)
              next
              rest)
      → 2 + limit + rest ≤ whole
      → Adds
          (size_loop to_long
            (λ q. size_then (size_of_block_trace h (suc f) q) λ n. some (sign_extend n))
            (p ∷ ps)
            size)
          size
          whole
  unfolding size_loop
  loop_Adds f size {p} ps limit rest whole e a next fits =
      let step = to_long (size + sign_extend (to_int (2 + a.result))) in
      record {
        result = (next step).result;
        total = 2 + a.total + (next step).total;
        eq = rw (block_trace_size f p e a.eq) (next step).eq;
        low = omega (arith, a.low, extend_add size a.result, (next step).low);
        le = omega (arith, a.le, (next step).le);
      }

  mutual
    unfolding size_of_block size_loop IsBlock block_param_tokens block_param_depth

    size_of_block-Adds :
        (b : RubyBlockParam) (f size : ℕ) (o : Option BlockParameter)
        → block_param_depth b ≤ f
        → IsBlock h b o
        → Adds
            (size_of_block (size_of_block_trace h f) o size)
            size
            (length (block_param_tokens b) - 1)
    size_of_block-Adds no_block f size none d is = record {
      result = size;
      total = 0;
      eq = refl;
      low = omega arith;
      le = omega arith;
    }
    size_of_block-Adds no_block f size (some o) d is = absurd is
    size_of_block-Adds (block name ts) f size none d is = absurd is
    size_of_block-Adds (block name ts) zero size (some o) d is = absurd (omega arith)
    size_of_block-Adds (block name ts) (suc f) size (some o) d (named, are) =
        let a = size_of_traces-Adds ts f (to_long (size + 2)) o.block_traces (omega arith) are in
        record {
          result = a.result;
          total = 2 + a.total;
          eq = a.eq;
          low = omega (arith, a.low);
          le = omega (arith, a.le);
        }

    size_of_traces-Adds :
        (ts : RubyBlockTraces) (f size : ℕ) (ps : List Ptr)
        → block_traces_depth ts ≤ f
        → AreTraces h ts ps
        → Adds
            (size_loop to_long
              (λ q. size_then (size_of_block_trace h (suc f) q) λ n. some (sign_extend n))
              ps
              size)
            size
            (length (block_traces_tokens ts))
    size_of_traces-Adds no_traces f size [] d are = record {
      result = size;
      total = 0;
      eq = refl;
      low = omega arith;
      le = omega arith;
    }
    size_of_traces-Adds no_traces f size (p ∷ ps) d are = absurd are
    size_of_traces-Adds (block_trace s r params b ts) f size [] d are = absurd are
    size_of_traces-Adds (block_trace s r params b ts) f size (p ∷ ps) d (t, e, is, isb, are) =
        loop_Adds f size ps
          (1 + length (params_tokens (map view_param t.params)) + length (block_param_tokens b))
          (length (block_traces_tokens ts))
          (length (block_traces_tokens (block_trace s r params b ts))) e
          (params_Adds f t b (size_of_block-Adds b f _ t.block_param (omega arith) isb)
            (block_tokens_pos b))
          (λ next. size_of_traces-Adds ts f next ps (omega arith) are)
          (rw (← is.params_view) (omega (arith, length-block_trace s r params b ts)))

  -- Each part of a message but the parameters is announced at its length.
  callee_size :
      (c : Option ConstantInstance)
      → IsCompleteCallee c
      → size_of_callee h c ≡ some (to_int (length (callee_tokens (view_callee c))))
  callee_size none complete = refl
  callee_size (some i) complete = size_of_constant_instance-length i complete

  -- A bound on the parts of a message gives a bound on the message.
  length-trace :
      (b : RubyBlockParam) (t : ReturnTrace)
      → 3
          + length (instance_tokens (view_instance t.return_type))
          + length (instance_tokens (view_instance t.method_owner))
          + length (callee_tokens (view_callee t.method_callee))
          + (1 + length (constants_tokens (map view_constant t.constant_updates)))
          + (1 + length (params_tokens (map view_param t.params)) + length (block_param_tokens b))
        ≡ length (trace_tokens (view_trace t b))
  unfolding trace_tokens
  length-trace b t =
      let params = params_tokens (map view_param t.params) ++ block_param_tokens b in
      let size : Value = integer (length (map view_param t.params)) in
      let updates = constants_tokens (map view_constant t.constant_updates) in
      let count : Value = integer (length (map view_constant t.constant_updates)) in
      let callee = callee_tokens (view_callee t.method_callee) in
      let owner = instance_tokens (view_instance t.method_owner) in
      omega (
        arith,
        length_values (params_tokens (map view_param t.params)) (block_param_tokens b),
        length_values updates (size ∷ params),
        length_values callee (count ∷ (updates ++ size ∷ params)),
        length_values owner (callee ++ count ∷ (updates ++ size ∷ params)),
        length_values (instance_tokens (view_instance t.return_type))
            (owner ++ (callee ++ count ∷ (updates ++ size ∷ params))),
      )

  -- For a trace that can be sent, whose blocks nest no deeper than the fuel `f`, the capacity asked of
  -- json-c is defined, and less than the number of values of the message if those are fewer than 2^31.
  pub array_size-lt :
      (b : RubyBlockParam) (f : ℕ) (t : ReturnTrace)
      → block_param_depth b ≤ f
      → IsSendable h b t
      → (n : ℕ) × (array_size h f t ≡ some n)
        × (length (trace_tokens (view_trace t b)) < 2 ^ 31
            → n < length (trace_tokens (view_trace t b)))
  unfolding array_size size_of_params size_of_constant_updates
  array_size-lt b f t d is =
      let a =
        params_Adds f t b (size_of_block-Adds b f _ t.block_param d is.block_param)
          (block_tokens_pos b) in
      let r = to_int (length (instance_tokens (view_instance t.return_type))) in
      let o = to_int (length (instance_tokens (view_instance t.method_owner))) in
      let u = to_int (1 + length (constants_tokens (map view_constant t.constant_updates))) in
      let c = to_int (length (callee_tokens (view_callee t.method_callee))) in
      (
        to_int (to_int (2 + r + o + a.result + u) + c),
        rw (
          size_of_constant_instance-length t.return_type is.return_type,
          size_of_constant_instance-length t.method_owner is.method_owner,
          a.eq,
          size_of_constants-length t.constant_updates 1,
          callee_size t.method_callee is.method_callee,
        ),
        λ small. omega (arith, a.low, a.le, length-trace b t),
      )
