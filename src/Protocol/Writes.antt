-- ===== src/Protocol/Writes.antt =====
-- ext/racer/worker.cc: the write_ functions against the values of the parts of a message.
use racer_rb.Base.{
  ℕ, zero, suc, ◌≤◌, ◌≡◌, refl, ◌∙◌, sym, Bool, true, false, Option, none, some, List, [], ◌∷◌,
  ◌++◌, length, map, append_assoc, append-nil, arith, ap, All, is_some, length-map,
}
use racer_rb.Traces.{
  CString, Ptr, Constant, ConstantInstance, Unions, Instances, constant_instance, Parameter,
  BlockParameter, ReturnTrace, Heap,
}
use racer_rb.Json.{JsonLib, Value, boolean, integer}
use racer_rb.Worker.Writer
use racer_rb.Worker.Writer.{
  param_type_int, class_type_int, method_kind_int, method_visibility_int, instances_size,
}
use racer_rb.Agent.Trace.{
  RubyInstance, RubyParam, RubyBlockParam, no_block, block, RubyBlockTraces, no_traces, block_trace,
}
use racer_rb.Protocol.Tokens.{
  count_unions, count_instances, count_traces, instance_tokens, unions_tokens, instances_tokens,
  values_tokens, constant_tokens, constants_tokens, name_value, param_tokens, params_tokens,
  block_param_tokens, block_traces_tokens, callee_tokens, trace_tokens, block_param_depth,
  block_traces_depth,
}
use racer_rb.Protocol.Views.{
  view_instance, view_unions, view_instances, IsComplete, AreUnions, AreInstances, HasName,
  unions_size, superclass_value, view_constant, HasSuperclassName, IsNamedConstant, view_param,
  IsCompleteParam, IsSelfType, IsBlockTrace, IsBlock, AreTraces, IsCompleteCallee, IsSendable,
  view_callee, view_trace,
}

count-view_unions : (us : Unions) → count_unions (view_unions us) ≡ unions_size us
unfolding view_unions
count-view_unions Unions.no_unions = refl
count-view_unions (Unions.union is us) = ap suc (count-view_unions us)

count-view_instances : (is : Instances) → count_instances (view_instances is) ≡ instances_size is
unfolding view_instances
count-view_instances Instances.no_instances = refl
count-view_instances (Instances.instance_of i is) = ap suc (count-view_instances is)

length-AreTraces :
    (h : Heap) (ts : RubyBlockTraces) (ps : List Ptr)
    → AreTraces h ts ps
    → length ps ≡ count_traces ts
unfolding IsBlock
length-AreTraces h no_traces [] are = refl
length-AreTraces h no_traces (p ∷ ps) are = absurd are
length-AreTraces h (block_trace s r params b ts) [] are = absurd are
length-AreTraces h (block_trace s r params b ts) (p ∷ ps) are =
    ap suc (length-AreTraces h ts ps are.4)

module _ (J : JsonLib) where
  open J use {
    Object, Array, array_add, contents, value, contents-array_add, new_string, new_null,
    new_boolean, new_int, new_int64, new_uint64, value-new_string, value-new_boolean, value-new_int,
    value-new_int64, value-new_uint64, value-new_null,
  }

  -- `w` meets no undefined behaviour, and appends exactly `ws`.
  pub record Writes (w : Writer.Writer J) (ws : List Value) : Type 0 where
    pub writes : (a : Array) → (b : Array) × (w a ≡ some b) × (contents b ≡ contents a ++ ws)

  module _ {v w : Writer.Writer J} {us ws : List Value} where
    Writes-seq : Writes v us → Writes w ws → Writes (Writer.◌>>◌ J v w) (us ++ ws)
    unfolding Writer.◌>>◌
    Writes-seq hv hw = record {
      writes = λ a.
          let (b, eb, cb) = hv.writes a in
          let (c, ec, cc') = hw.writes b in
          (c, rw (eb, Writer.◌>>◌) ec, cc' ∙ (rw cb (append_assoc (contents a) us ws)));
    }

  Writes-skip : Writes (Writer.skip J) []
  unfolding Writer.skip
  Writes-skip = record { writes = λ a. (a, refl, sym (append-nil (contents a))) }

  Writes-add : {o : Object} {v : Value} → value o ≡ v → Writes (Writer.add J o) (v ∷ [])
  unfolding Writer.add
  Writes-add {o} e = record { writes = λ a. (array_add a o, refl, rw (contents-array_add a o, e)) }

  add_boolean : (b : Bool) → Writes (Writer.add J (new_boolean b)) (boolean b ∷ [])
  add_boolean b = Writes-add (value-new_boolean b)

  add_int : (n : ℕ) → Writes (Writer.add J (new_int n)) (integer n ∷ [])
  add_int n = Writes-add (value-new_int n)

  -- A size is written as the number of items of the view.
  add_size : (n : ℕ) {m : ℕ} → n ≡ m → Writes (Writer.add J (new_uint64 n)) (integer m ∷ [])
  add_size n e = Writes-add (value-new_uint64 n ∙ ap integer e)

  add_string-Writes : (s : CString) → HasName s → Writes (Writer.add_string J s) (name_value s ∷ [])
  unfolding Writer.add_string
  add_string-Writes none h = absurd h
  add_string-Writes (some s) h = Writes-add (value-new_string s)

  add_string_or_null-Writes :
      (s : CString) → Writes (Writer.add_string_or_null J s) (name_value s ∷ [])
  unfolding Writer.add_string_or_null
  add_string_or_null-Writes none = Writes-add value-new_null
  add_string_or_null-Writes (some s) = Writes-add (value-new_string s)

  mutual
    unfolding Writer.write_constant_instance view_instance IsComplete instance_tokens

    write_instance-Writes :
        (i : ConstantInstance)
        → IsComplete i
        → Writes (Writer.write_constant_instance J i) (instance_tokens (view_instance i))
    write_instance-Writes (constant_instance name count us singleton) (named, size, parts) =
        Writes-seq (add_string-Writes name named) (
          Writes-seq (add_boolean singleton) (
            Writes-seq (add_size count (size ∙ sym (count-view_unions us)))
              (write_unions-Writes us count size parts)))

    write_unions-Writes :
        (us : Unions) (n : ℕ)
        → n ≡ unions_size us
        → AreUnions us
        → Writes (Writer.write_unions J us n) (unions_tokens (view_unions us))
    write_unions-Writes Unions.no_unions zero e parts = Writes-skip
    write_unions-Writes Unions.no_unions (suc n) e parts = absurd (omega arith)
    write_unions-Writes (Unions.union is us) zero e parts = absurd (omega arith)
    write_unions-Writes (Unions.union is us) (suc n) e (members, parts) =
        Writes-seq (add_size (instances_size is) (sym (count-view_instances is))) (
          Writes-seq (write_instances-Writes is members)
            (write_unions-Writes us n (omega arith) parts))

    write_instances-Writes :
        (is : Instances)
        → AreInstances is
        → Writes (Writer.write_instances J is) (instances_tokens (view_instances is))
    write_instances-Writes Instances.no_instances parts = Writes-skip
    write_instances-Writes (Instances.instance_of i is) (first, parts) =
        Writes-seq (write_instance-Writes i first) (write_instances-Writes is parts)

  add_strings-Writes :
      (names : List CString)
      → All HasName names
      → Writes (Writer.add_strings J names) (map name_value names)
  unfolding Writer.add_strings
  add_strings-Writes [] named = Writes-skip
  add_strings-Writes (s ∷ names) (first, named) =
      Writes-seq (add_string-Writes s first) (add_strings-Writes names named)

  write_superclass-Writes :
      (s : Option CString)
      → HasSuperclassName s
      → Writes (Writer.write_superclass J s) (superclass_value s ∷ [])
  unfolding Writer.write_superclass
  write_superclass-Writes none named = Writes-add value-new_null
  write_superclass-Writes (some s) named = add_string-Writes s named

  size_and_names :
      (names : List CString) {w : Writer.Writer J} {ws : List Value}
      → All HasName names
      → Writes w ws
      → Writes
          (Writer.◌>>◌ J
            (Writer.add J (new_uint64 (length names)))
            (Writer.◌>>◌ J (Writer.add_strings J names) w))
          (values_tokens (map name_value names) ++ ws)
  size_and_names names named hw =
      Writes-seq (add_size (length names) (sym (length-map name_value names)))
        (Writes-seq (add_strings-Writes names named) hw)

  write_constant-Writes :
      (c : Constant)
      → IsNamedConstant c
      → Writes (Writer.write_constant J c) (constant_tokens (view_constant c))
  unfolding Writer.write_constant constant_tokens
  write_constant-Writes c named = Writes-seq (add_string-Writes c.name named.name) (
      Writes-seq (add_boolean c.anonymous) (
        Writes-seq (add_int (class_type_int c.type)) (
          Writes-seq (write_superclass-Writes c.superclass named.superclass) (
            size_and_names c.included_modules named.included_modules (
              size_and_names c.prepended_modules named.prepended_modules (
                Writes-seq
                  (add_size (length c.extended_modules)
                    (sym (length-map name_value c.extended_modules)))
                  (add_strings-Writes c.extended_modules named.extended_modules)))))))

  write_constants-Writes :
      (cs : List Constant)
      → All IsNamedConstant cs
      → Writes (Writer.write_constants J cs) (constants_tokens (map view_constant cs))
  unfolding Writer.write_constants constants_tokens
  write_constants-Writes [] named = Writes-skip
  write_constants-Writes (c ∷ cs) (first, named) =
      Writes-seq (write_constant-Writes c first) (write_constants-Writes cs named)

  write_param_loop-Writes :
      (ps : List Parameter)
      → All IsCompleteParam ps
      → Writes (Writer.write_param_loop J ps) (params_tokens (map view_param ps))
  unfolding Writer.write_param_loop Writer.write_param params_tokens param_tokens
  write_param_loop-Writes [] complete = Writes-skip
  write_param_loop-Writes (p ∷ ps) (first, complete) =
      Writes-seq
        (Writes-seq (add_string_or_null-Writes p.name) (
          Writes-seq (add_int (param_type_int p.param_type))
            (write_instance-Writes p.type_name first)))
        (write_param_loop-Writes ps complete)

  write_callee-Writes :
      (c : Option ConstantInstance)
      → IsCompleteCallee c
      → Writes (Writer.write_callee J c) (callee_tokens (view_callee c))
  unfolding Writer.write_callee
  write_callee-Writes none complete = Writes-add value-new_null
  write_callee-Writes (some i) complete = write_instance-Writes i complete

  write_self-Writes :
      (s : RubyInstance) (i : Option ConstantInstance)
      → IsSelfType s i
      → Writes (Writer.write_optional_instance J i) (instance_tokens s)
  unfolding Writer.write_optional_instance
  write_self-Writes s none h = absurd h
  write_self-Writes s (some i) (complete, e) = rw e (write_instance-Writes i complete)

  -- `write_block_param` and the flag before it are the last part of `write_params`.
  write_params_with-Writes :
      (b : RubyBlockParam) (write_trace : Ptr → Writer.Writer J) (t : ReturnTrace)
      → All IsCompleteParam t.params
      → Writes
          (Writer.◌>>◌ J
            (Writer.add J (new_boolean (is_some t.block_param)))
            (Writer.write_block_param J write_trace t.block_param))
          (block_param_tokens b)
      → Writes (Writer.write_params_with J write_trace t) (
          integer (length (map view_param t.params))
          ∷ (params_tokens (map view_param t.params) ++ block_param_tokens b))
  unfolding Writer.write_params_with
  write_params_with-Writes b write_trace t complete hb =
      Writes-seq
        (Writes-add (value-new_int64 _ ∙ ap integer (sym (length-map view_param t.params))))
        (Writes-seq (write_param_loop-Writes t.params complete) hb)

  -- One block trace, whose block is written as `b`.
  write_block_trace-Writes :
      (h : Heap) (f : ℕ) {s r : RubyInstance} {params : List RubyParam} (b : RubyBlockParam)
      {p : Ptr} {t : ReturnTrace}
      → h p ≡ some t
      → IsBlockTrace s r params t
      → Writes
          (Writer.◌>>◌ J
            (Writer.add J (new_boolean (is_some t.block_param)))
            (Writer.write_block_param J (Writer.write_block_trace J h f) t.block_param))
          (block_param_tokens b)
      → Writes (Writer.write_block_trace J h (suc f) p) (
          instance_tokens s
          ++ (instance_tokens r
              ++ integer (length params) ∷ (params_tokens params ++ block_param_tokens b)))
  unfolding Writer.write_block_trace
  write_block_trace-Writes h f {s} b {t} e is hb =
      rw (e, is.return_view, is.params_view)
        (Writes-seq (write_self-Writes s t.block_self_type is.self_type) (
          Writes-seq (write_instance-Writes t.return_type is.return_type)
            (write_params_with-Writes b (Writer.write_block_trace J h f) t is.params hb)))

  module _ (h : Heap) where
    mutual
      unfolding Writer.write_block_param Writer.write_block_traces IsBlock block_param_tokens
          block_param_depth

      write_block_param-Writes :
          (b : RubyBlockParam) (f : ℕ) (o : Option BlockParameter)
          → block_param_depth b ≤ f
          → IsBlock h b o
          → Writes
              (Writer.◌>>◌ J
                (Writer.add J (new_boolean (is_some o)))
                (Writer.write_block_param J (Writer.write_block_trace J h f) o))
              (block_param_tokens b)
      write_block_param-Writes no_block f none d is = Writes-seq (add_boolean false) Writes-skip
      write_block_param-Writes no_block f (some o) d is = absurd is
      write_block_param-Writes (block name ts) f none d is = absurd is
      write_block_param-Writes (block name ts) zero (some o) d is = absurd (omega arith)
      write_block_param-Writes (block name ts) (suc f) (some o) d (named, are) = rw named (
          Writes-seq (add_boolean true) (
            Writes-seq (add_string_or_null-Writes o.name) (
              Writes-seq
                (add_size (length o.block_traces) (length-AreTraces h ts o.block_traces are))
                (write_block_traces-Writes ts f o.block_traces (omega arith) are))))

      write_block_traces-Writes :
          (ts : RubyBlockTraces) (f : ℕ) (ps : List Ptr)
          → block_traces_depth ts ≤ f
          → AreTraces h ts ps
          → Writes
              (Writer.write_block_traces J (Writer.write_block_trace J h (suc f)) ps)
              (block_traces_tokens ts)
      write_block_traces-Writes no_traces f [] d are = Writes-skip
      write_block_traces-Writes no_traces f (p ∷ ps) d are = absurd are
      write_block_traces-Writes (block_trace s r params b ts) f [] d are = absurd are
      write_block_traces-Writes (block_trace s r params b ts) f (p ∷ ps) d (t, e, is, isb, are) =
          Writes-seq
            (write_block_trace-Writes h f b e is
              (write_block_param-Writes b f t.block_param (omega arith) isb))
            (write_block_traces-Writes ts f ps (omega arith) are)

    -- What `write_message` appends for a trace that can be written.
    pub write_message-Writes :
        (b : RubyBlockParam) (f : ℕ) (t : ReturnTrace)
        → block_param_depth b ≤ f
        → IsSendable h b t
        → Writes (Writer.write_message J h f t) (trace_tokens (view_trace t b))
    unfolding Writer.write_message Writer.write_params trace_tokens
    write_message-Writes b f t d is = Writes-seq (add_string-Writes t.method_name is.method_name) (
        Writes-seq (add_int (method_kind_int t.method_kind)) (
          Writes-seq (add_int (method_visibility_int t.method_visibility)) (
            Writes-seq (write_instance-Writes t.return_type is.return_type) (
              Writes-seq (write_instance-Writes t.method_owner is.method_owner) (
                Writes-seq (write_callee-Writes t.method_callee is.method_callee) (
                  Writes-seq
                    (add_size (length t.constant_updates)
                      (sym (length-map view_constant t.constant_updates)))
                    (Writes-seq (write_constants-Writes t.constant_updates is.constant_updates) (
                      write_params_with-Writes b (Writer.write_block_trace J h f) t is.params
                        (write_block_param-Writes b f t.block_param d is.block_param)))))))))
