-- ===== src/Racer/Arguments.antt =====
-- ext/racer/racer.cc, assign_parameters: the parameters and the block of a trace, against what
-- Method#parameters gives.
use text.Mathlib.Text.{◌==◌ as str_eq}
use racer_rb.Base.{
  ℕ, ◌<◌, String, ◌≡◌, refl, sym, ap, ◌∙◌, Bool, true, false, ◌||◌, Option, none, some, List, [],
  ◌∷◌, ◌++◌, map, append_assoc, append-nil, is_some, if◌then◌else◌, All, All-append, arith,
}
use racer_rb.Traces.{
  ParamType, required, CString, Ptr, ConstantInstance, no_unions, BlockParameter, unset_block,
  ReturnTrace,
}
use racer_rb.Protocol.Views.{IsComplete, IsCompleteParam}
use racer_rb.Racer.State.{RubyValue, Vm, State, M, pure, ◌>>=◌}
use racer_rb.Racer.Generics.{class_to_constant_instance, value_to_constant_instance}
use racer_rb.Racer.Parameters.{
  ParamId, req_param, opt_param, rest_param, keyreq_param, key_param, keyrest_param, nokey_param,
  block_param_id, unknown_param, RubyArgument, param_type, push_param, push_typed, trace_block,
  block_parameter, argument_instance, assign_named, assign_unnamed, assign_argument, argument_loop,
  given_block, assign_parameters,
}
use racer_rb.Racer.Ensures.{Ensures, holds, Ensures-bind, Ensures-mono, Ensures-if}
use racer_rb.Racer.Closed.{IsMember, IsClosed, AreObjects}
use racer_rb.Racer.Known.{Ready}
use racer_rb.Racer.Returns.{AreMade}
use racer_rb.Racer.Types.{plain_instance-IsComplete, value_to_instance-IsType}
use racer_rb.Racer.Advanced.{
  IsFresh, IsFresh-AreMade, Advanced, Advanced-refl, Advanced-trans, Kept-Advanced,
}
use racer_rb.Racer.Shapes.{
  shape, named_shape, unnamed_shape, argument_shape, shapes, is_block, names_block, Assigned,
  or_false, or_assoc, or_true, map-append,
}

-- What the code records of a named parameter that it has found a kind for.
abbrev typed_shape : String → Option ParamType → List (CString × ParamType)
typed_shape name none = []
typed_shape name (some type) = (some name, type) ∷ []

module _ (vm : Vm) (classes : List RubyValue) (IsObject : RubyValue → Type 0) (f levels : ℕ)
    (closed : IsClosed vm classes) (objects : AreObjects vm classes IsObject)
    (arrays : IsMember classes (Vm.rb_c_array vm))
    (hashes : IsMember classes (Vm.rb_c_hash vm)) where
  trace_block-IsFresh :
      (p : Ptr) (name : String) (s : State)
      → Ready classes f s
      → Ensures
          (λ b t. Advanced classes f s t × IsFresh t.block_tracepoints (some b))
          ((trace_block p >>= λ tp.
              pure (record unset_block { name = some name; tracepoint_id = tp }))
            s)
  unfolding trace_block
  trace_block-IsFresh p name s ready = holds (
    record {
      ready = record {
        known = record { named = ready.known.named; pending = ready.known.pending };
        fits = ready.fits;
      };
      frame = refl;
      made = λ tp e. ground (arith, e);
    },
    (refl, refl, λ set. ground arith),
  )

  block_parameter-IsFresh :
      (p : Ptr) (name : String) (value : Option RubyValue) (s : State)
      → Ready classes f s
      → Ensures
          (λ b t. Advanced classes f s t × IsFresh t.block_tracepoints (some b))
          (block_parameter vm f levels p name value s)
  unfolding block_parameter trace_block
  block_parameter-IsFresh p name none s ready =
      Ensures-if (str_eq name "&") (pure unset_block)
        (pure (record unset_block { name = some name })) s
        (λ _. holds (Advanced-refl ready, (refl, refl, λ set. cc)))
        (λ _. holds (Advanced-refl ready, (refl, refl, λ set. cc)))
  block_parameter-IsFresh p name (some b) s ready =
      let traced : M BlockParameter = trace_block p >>= λ tp.
      pure (record unset_block { name = some name; tracepoint_id = tp }) in
      let untraced : M BlockParameter = pure (record unset_block { name = some name }) in
      Ensures-if (str_eq name "&") (pure unset_block)
        (if Vm.can_target vm b then traced else untraced) s
        (λ _. holds (Advanced-refl ready, (refl, refl, λ set. cc)))
        λ _.
          Ensures-if (Vm.can_target vm b) traced untraced s
            (λ _. trace_block-IsFresh p name s ready)
            (λ _. holds (Advanced-refl ready, (refl, refl, λ set. cc)))

  class_to_instance-Complete :
      (klass : RubyValue) (s : State)
      → IsMember classes klass
      → Ready classes f s
      → Ensures
          (λ i t. Advanced classes f s t × IsComplete i)
          (class_to_constant_instance vm f klass 0 no_unions false s)
  class_to_instance-Complete klass s member ready =
      Ensures-mono (plain_instance-IsComplete vm classes f klass false s closed member ready)
        λ i t (kept, complete). (Kept-Advanced kept, complete)

  argument_instance-Complete :
      (name : String) (value : RubyValue) (s : State)
      → IsObject value
      → Ready classes f s
      → s.max_generic_depth < levels
      → Ensures
          (λ i t. Advanced classes f s t × IsComplete i)
          (argument_instance vm f levels name value s)
  unfolding argument_instance
  argument_instance-Complete name value s object ready enough =
      Ensures-if (str_eq name "*")
        (class_to_constant_instance vm f (Vm.rb_c_array vm) 0 no_unions false)
        (if str_eq name "**"
          then class_to_constant_instance vm f (Vm.rb_c_hash vm) 0 no_unions false
          else value_to_constant_instance vm f levels value 0)
        s (λ _. class_to_instance-Complete _ s arrays ready)
        λ _.
          Ensures-if (str_eq name "**")
            (class_to_constant_instance vm f (Vm.rb_c_hash vm) 0 no_unions false)
            (value_to_constant_instance vm f levels value 0) s
            (λ _. class_to_instance-Complete _ s hashes ready)
            λ _.
              Ensures-mono
                (value_to_instance-IsType vm classes IsObject f levels value 0 s closed objects
                  object ready (omega arith) (omega (arith, enough)))
                λ i t (kept, typed). (Kept-Advanced kept, typed.complete)

  -- What one argument does to the trace and the flag.
  abbrev Assigns :
      State → ReturnTrace → List (CString × ParamType) → Bool → ReturnTrace × Bool → State → Type 0
  Assigns s trace ss b r t = Advanced classes f s t × Assigned trace ss b r t

  push_param-Assigned :
      (trace : ReturnTrace) (ss : List (CString × ParamType)) (b : Bool) (r : ReturnTrace × Bool)
      (s t : State) (name : CString) (i : ConstantInstance) (type : ParamType)
      → Assigned trace ss b r s
      → AreMade s.block_tracepoints t.block_tracepoints
      → IsComplete i
      → Assigned trace (ss ++ (name, type) ∷ []) (b || false) (push_param name i type r.0, r.1) t
  push_param-Assigned trace ss b r s t name i type a more complete = record {
    same = ap (λ q. push_param name i type q) a.same;
    complete = All-append IsCompleteParam r.0.params _ a.complete (complete, tt);
    shapes = map-append shape r.0.params _ ∙ ap (λ zs. zs ++ (name, type) ∷ []) a.shapes;
    fresh = IsFresh-AreMade s.block_tracepoints t.block_tracepoints r.0.block_param more a.fresh;
    has = rw or_false a.has;
    flag = rw or_false a.flag;
  }

  weaken_Assigned :
      (trace : ReturnTrace) (ss : List (CString × ParamType)) (b : Bool) (r : ReturnTrace × Bool)
      (s t : State)
      → Assigned trace ss b r s
      → AreMade s.block_tracepoints t.block_tracepoints
      → Assigned trace (ss ++ []) (b || false) r t
  weaken_Assigned trace ss b r s t a more = record {
    same = a.same;
    complete = a.complete;
    shapes = rw append-nil a.shapes;
    fresh = IsFresh-AreMade s.block_tracepoints t.block_tracepoints r.0.block_param more a.fresh;
    has = rw or_false a.has;
    flag = rw or_false a.flag;
  }

  push_typed-Assigned :
      (trace : ReturnTrace) (ss : List (CString × ParamType)) (b : Bool) (r : ReturnTrace × Bool)
      (s t : State) (name : String) (i : ConstantInstance) (o : Option ParamType)
      → Assigned trace ss b r s
      → AreMade s.block_tracepoints t.block_tracepoints
      → IsComplete i
      → Assigned trace
          (ss ++ typed_shape name o)
          (b || false)
          (push_typed (some name) i o r.0, r.1)
          t
  push_typed-Assigned trace ss b r s t name i none a more complete =
      weaken_Assigned trace ss b r s t a more
  push_typed-Assigned trace ss b r s t name i (some type) a more complete =
      push_param-Assigned trace ss b r s t (some name) i type a more complete

  assign_typed-Assigned :
      (name : String) (value : RubyValue) (o : Option ParamType) (trace : ReturnTrace)
      (ss : List (CString × ParamType)) (b : Bool) (r : ReturnTrace × Bool) (s : State)
      → IsObject value
      → Ready classes f s
      → s.max_generic_depth < levels
      → Assigned trace ss b r s
      → Ensures (Assigns s trace (ss ++ typed_shape name o) (b || false)) (
          (argument_instance vm f levels name value >>= λ i.
          pure (push_typed (some name) i o r.0, r.1))
            s)
  assign_typed-Assigned name value o trace ss b r s object ready enough a =
      Ensures-bind _ (argument_instance-Complete name value s object ready enough)
        λ i t (advanced, complete).
          holds (advanced, push_typed-Assigned trace ss b r s t name i o a advanced.made complete)

  assign_named-Assigned :
      (p : Ptr) (id : ParamId) (name : String) (a : RubyArgument) (trace : ReturnTrace)
      (ss : List (CString × ParamType)) (b : Bool) (r : ReturnTrace × Bool) (s : State)
      → IsObject a.value
      → Ready classes f s
      → s.max_generic_depth < levels
      → Assigned trace ss b r s
      → Ensures
          (Assigns s trace (ss ++ named_shape id name) (b || is_block id (some name)))
          (assign_named vm f levels p id name a r s)
  unfolding assign_named
  assign_named-Assigned p block_param_id name a trace ss b r s object ready enough got =
      Ensures-bind _ (block_parameter-IsFresh p name a.block s ready) λ c t (advanced, fresh).
        holds (
          advanced,
          record {
            same = ap {A = ReturnTrace} (λ q. record q { block_param = some c }) got.same;
            complete = got.complete;
            shapes = rw append-nil got.shapes;
            fresh = fresh;
            has = sym (or_true b);
            flag = sym (or_true b);
          },
        )
  assign_named-Assigned p req_param name a trace ss b r s object ready enough got =
      assign_typed-Assigned name a.value (param_type req_param) trace ss b r s object ready enough
        got
  assign_named-Assigned p opt_param name a trace ss b r s object ready enough got =
      assign_typed-Assigned name a.value (param_type opt_param) trace ss b r s object ready enough
        got
  assign_named-Assigned p rest_param name a trace ss b r s object ready enough got =
      assign_typed-Assigned name a.value (param_type rest_param) trace ss b r s object ready enough
        got
  assign_named-Assigned p keyreq_param name a trace ss b r s object ready enough got =
      assign_typed-Assigned name a.value (param_type keyreq_param) trace ss b r s object ready
        enough got
  assign_named-Assigned p key_param name a trace ss b r s object ready enough got =
      assign_typed-Assigned name a.value (param_type key_param) trace ss b r s object ready enough
        got
  assign_named-Assigned p keyrest_param name a trace ss b r s object ready enough got =
      assign_typed-Assigned name a.value (param_type keyrest_param) trace ss b r s object ready
        enough got
  assign_named-Assigned p nokey_param name a trace ss b r s object ready enough got =
      assign_typed-Assigned name a.value (param_type nokey_param) trace ss b r s object ready enough
        got
  assign_named-Assigned p unknown_param name a trace ss b r s object ready enough got =
      assign_typed-Assigned name a.value (param_type unknown_param) trace ss b r s object ready
        enough got

  assign_unnamed-Assigned :
      (id : ParamId) (trace : ReturnTrace) (ss : List (CString × ParamType)) (b : Bool)
      (r : ReturnTrace × Bool) (s : State)
      → Ready classes f s
      → Assigned trace ss b r s
      → Ensures
          (Assigns s trace (ss ++ unnamed_shape id) (b || false))
          (assign_unnamed vm f levels id r s)
  unfolding assign_unnamed
  assign_unnamed-Assigned req_param trace ss b r s ready got =
      Ensures-bind _ (class_to_instance-Complete (Vm.rb_c_array vm) s arrays ready)
        λ i t (advanced, complete). holds (
          advanced,
          push_param-Assigned trace ss b r s t none i required got advanced.made complete,
        )
  assign_unnamed-Assigned block_param_id trace ss b r s ready got =
      holds (Advanced-refl ready, weaken_Assigned trace ss b r s s got (λ tp e. e))
  assign_unnamed-Assigned opt_param trace ss b r s ready got =
      holds (Advanced-refl ready, weaken_Assigned trace ss b r s s got (λ tp e. e))
  assign_unnamed-Assigned rest_param trace ss b r s ready got =
      holds (Advanced-refl ready, weaken_Assigned trace ss b r s s got (λ tp e. e))
  assign_unnamed-Assigned keyreq_param trace ss b r s ready got =
      holds (Advanced-refl ready, weaken_Assigned trace ss b r s s got (λ tp e. e))
  assign_unnamed-Assigned key_param trace ss b r s ready got =
      holds (Advanced-refl ready, weaken_Assigned trace ss b r s s got (λ tp e. e))
  assign_unnamed-Assigned keyrest_param trace ss b r s ready got =
      holds (Advanced-refl ready, weaken_Assigned trace ss b r s s got (λ tp e. e))
  assign_unnamed-Assigned nokey_param trace ss b r s ready got =
      holds (Advanced-refl ready, weaken_Assigned trace ss b r s s got (λ tp e. e))
  assign_unnamed-Assigned unknown_param trace ss b r s ready got =
      holds (Advanced-refl ready, weaken_Assigned trace ss b r s s got (λ tp e. e))

  assign_argument-Assigned :
      (p : Ptr) (a : RubyArgument) (o : Option String) (trace : ReturnTrace)
      (ss : List (CString × ParamType)) (b : Bool) (r : ReturnTrace × Bool) (s : State)
      → a.name ≡ o
      → IsObject a.value
      → Ready classes f s
      → s.max_generic_depth < levels
      → Assigned trace ss b r s
      → Ensures
          (Assigns s trace (ss ++ argument_shape a.id o) (b || is_block a.id o))
          (assign_argument vm f levels p a r s)
  unfolding assign_argument
  assign_argument-Assigned p a none trace ss b r s e object ready enough got =
      rw (assign_argument, e) (assign_unnamed-Assigned a.id trace ss b r s ready got)
  assign_argument-Assigned p a (some name) trace ss b r s e object ready enough got =
      rw (assign_argument, e)
        (assign_named-Assigned p a.id name a trace ss b r s object ready enough got)

  argument_loop-Assigned :
      (p : Ptr) (arguments : List RubyArgument) (trace : ReturnTrace)
      (ss : List (CString × ParamType)) (b : Bool) (r : ReturnTrace × Bool) (s : State)
      → All (λ a. IsObject (RubyArgument.value a)) arguments
      → Ready classes f s
      → s.max_generic_depth < levels
      → Assigned trace ss b r s
      → Ensures
          (Assigns s trace (ss ++ shapes arguments) (b || names_block arguments))
          (argument_loop vm f levels p arguments r s)
  unfolding argument_loop
  argument_loop-Assigned p [] trace ss b r s all ready enough got =
      holds (Advanced-refl ready, weaken_Assigned trace ss b r s s got (λ tp e. e))
  argument_loop-Assigned p (a ∷ later) trace ss b r s (object, all) ready enough got =
      Ensures-bind _
        (assign_argument-Assigned p a a.name trace ss b r s refl object ready enough got)
        λ q t (advanced, got').
          let depth : t.max_generic_depth ≡ s.max_generic_depth =
            ap (λ u. u.max_generic_depth) advanced.frame in
          Ensures-mono
            (argument_loop-Assigned p later trace (ss ++ argument_shape a.id a.name)
              (b || is_block a.id a.name) q t all advanced.ready (omega (arith, depth, enough))
              got')
            λ v u (advanced', done).
              (Advanced-trans advanced advanced', rw (← or_assoc b) (rw append_assoc at done))

-- A trace without a block has been given the parameters and the block of a call.
pub record Filled (arguments : List RubyArgument) (block_given : Bool) (trace filled : ReturnTrace)
    (t : State) : Type 0 where
  pub same : filled ≡ record trace { params = filled.params; block_param = filled.block_param }
  pub complete : All IsCompleteParam filled.params
  pub shapes : map shape filled.params ≡ shapes arguments
  pub fresh : IsFresh t.block_tracepoints filled.block_param
  pub has : is_some filled.block_param ≡ (names_block arguments || block_given)

module _ (vm : Vm) (f levels : ℕ) (arguments : List RubyArgument) (trace : ReturnTrace) where
  -- The flag says whether there was a block parameter.
  given_block-Filled :
      (given flag : Bool) (q : ReturnTrace) (t : State)
      → Assigned trace (shapes arguments) (names_block arguments) (q, flag) t
      → Filled arguments given trace (given_block vm f levels given (q, flag)) t
  given_block-Filled given true q t got = record {
    same = got.same;
    complete = got.complete;
    shapes = got.shapes;
    fresh = got.fresh;
    has = got.has ∙ rw (← got.flag) refl;
  }
  given_block-Filled true false q t got = record {
    same = ap {A = ReturnTrace} (λ r. record r { block_param = some unset_block }) got.same;
    complete = got.complete;
    shapes = got.shapes;
    fresh = (refl, refl, λ set. cc);
    has = sym (or_true (names_block arguments));
  }
  given_block-Filled false false q t got = record {
    same = got.same;
    complete = got.complete;
    shapes = got.shapes;
    fresh = got.fresh;
    has = got.has ∙ sym (or_false (names_block arguments));
  }

-- Let `classes` be closed under what explorations come to, and hold Array, Hash and the classes of some
-- objects, of which the values of the arguments are some. Let the constants be in order, fewer than `f`
-- of the classes be unexplored, and `levels` be more than the maximal depth. Then the arguments of a
-- call are assigned to a trace without undefined behaviour: the trace has a parameter with a complete
-- type for each argument that has a name, is no block and is of a known kind, and for each required one
-- without a name, with those names and kinds, in order; it has a block exactly if the method names a
-- block parameter or a block is given, with no calls yet and a tracepoint that was made, if any; and
-- nothing else of the trace, nor of the state but constants and tracepoints, changes.
pub assign_parameters-Filled :
    (vm : Vm) (classes : List RubyValue) (IsObject : RubyValue → Type 0) (f levels : ℕ) (p : Ptr)
    (arguments : List RubyArgument) (given : Bool) (trace : ReturnTrace) (s : State)
    → IsClosed vm classes
    → AreObjects vm classes IsObject
    → IsMember classes (Vm.rb_c_array vm)
    → IsMember classes (Vm.rb_c_hash vm)
    → All (λ a. IsObject (RubyArgument.value a)) arguments
    → Ready classes f s
    → s.max_generic_depth < levels
    → trace.block_param ≡ none
    → Ensures
        (λ filled t. Advanced classes f s t × Filled arguments given trace filled t)
        (assign_parameters vm f levels p arguments given trace s)
unfolding assign_parameters
assign_parameters-Filled vm classes IsObject f levels p arguments given trace s closed objects
      arrays hashes all ready enough no_block =
    Ensures-bind _
      (argument_loop-Assigned vm classes IsObject f levels closed objects arrays hashes p arguments
        trace [] false (record trace { params = [] }, false) s all ready enough
        (record {
          same = refl;
          complete = tt;
          shapes = refl;
          fresh = rw no_block tt;
          has = rw no_block refl;
          flag = refl;
        }))
      λ r t (advanced, got).
        holds (advanced, given_block-Filled vm f levels arguments trace given r.1 r.0 t got)
