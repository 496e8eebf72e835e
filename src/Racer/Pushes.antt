-- ===== src/Racer/Pushes.antt =====
-- ext/racer/racer.cc, process_call_event: the trace that a call puts on the stack of its fiber.
use mathlib.Core.Path.{subst}
use racer_rb.Base.{
  ℕ, ◌+◌, ◌≡◌, refl, sym, ap, ◌∙◌, false, Option, none, some, List, ◌∷◌, ◌==◌, if◌then◌else◌, All,
  lookup, insert, arith,
}
use racer_rb.Traces.{Ptr, ConstantInstance, no_unions, BlockParameter, ReturnTrace}
use racer_rb.Protocol.Views.{HasName, IsComplete, IsNamedConstant, IsCompleteCallee}
use racer_rb.Racer.State.{
  RubyValue, Vm, BlockTracepoint, State, M, pure, update, ◌>>=◌, write_trace,
}
use racer_rb.Racer.Constants.{explore_constant}
use racer_rb.Racer.Generics.{class_to_constant_instance}
use racer_rb.Racer.Parameters.{RubyArgument}
use racer_rb.Racer.Calls.{
  CallEvent, attached_class, receiver_class, method_visibility_of, implements, find_callee,
  push_stack, record_call,
}
use racer_rb.Racer.Ensures.{Ensures, holds, Ensures-bind, Ensures-if}
use racer_rb.Racer.Closed.{IsMember}
use racer_rb.Racer.Known.{Ready, Kept, Kept-refl, Kept-trans}
use racer_rb.Racer.Explored.{explore_constant-IsSound}
use racer_rb.Racer.Returns.{IsMade, AreMade}
use racer_rb.Racer.Types.{plain_instance-IsComplete}
use racer_rb.Racer.Advanced.{IsFresh, Advanced, Advanced-trans, Kept-Advanced}
use racer_rb.Racer.Arguments.{Filled, assign_parameters-Filled}
use racer_rb.Racer.Stacks.{
  World, IsAwaiting, IsAwaiting-AreMade, Stands, stack_of, IsGood, Stands-old, All-map,
  stacks-insert,
}
use racer_rb.Racer.Records.{kind_if, visibility_if, begun, base, call_frame, Recorded}

-- The classes of a call are among the classes, and its arguments among the objects.
pub record IsCallable (vm : Vm) (classes : List RubyValue) (IsObject : RubyValue → Type 0)
    (f levels : ℕ) (e : CallEvent) : Type 0 where
  pub owner : IsMember classes (attached_class vm f levels e.defined_class)
  pub receiver : IsMember classes (receiver_class vm f levels e.self)
  pub arguments : All (λ a. IsObject (RubyArgument.value a)) e.parameters

module _ (vm : Vm) (classes : List RubyValue) (IsObject : RubyValue → Type 0) (f levels : ℕ)
    (world : World vm classes IsObject) where
  pub find_callee-Complete :
      (e : CallEvent) (s : State)
      → IsCallable vm classes IsObject f levels e
      → Ready classes f s
      → Ensures (λ c t. Kept classes f s t × IsCompleteCallee c) (find_callee vm f levels e s)
  unfolding find_callee
  find_callee-Complete e s callable ready =
      let klass = receiver_class vm f levels e.self in
      let instance : M (Option ConstantInstance) =
        class_to_constant_instance vm f klass 0 no_unions false >>= λ i. pure (some i) in
      let own = implements vm f levels e.self e.method_name in
      Ensures-if (klass == attached_class vm f levels e.defined_class) (pure none)
        (explore_constant vm f klass >>= λ _. if own then pure none else instance) s
        (λ _. holds (Kept-refl ready, tt))
        λ _.
          Ensures-bind _
            (explore_constant-IsSound vm classes f klass s world.closed callable.receiver ready)
            λ r t n.
              Ensures-if own (pure none) instance t (λ _. holds {a = none} (n.kept, tt))
                λ _.
                  Ensures-bind _
                    (plain_instance-IsComplete vm classes f klass false t world.closed
                      callable.receiver n.kept.ready)
                    λ i u (kept, complete). holds {a = some i} (Kept-trans n.kept kept, complete)

pub Stands-others :
    (s t : State) (p q : Ptr)
    → s.heap p ≡ none
    → p ≡ s.next_trace
    → ((q : Ptr) → (q == p) ≡ false → t.heap q ≡ s.heap q)
    → AreMade s.block_tracepoints t.block_tracepoints
    → Stands s q
    → Stands t q
Stands-others s t p q new e others made stands = record {
  trace = stands.trace;
  here = others q (rw e (Stands-old s q (rw (← e) new) stands)) ∙ stands.here;
  awaiting =
      IsAwaiting-AreMade s.block_tracepoints t.block_tracepoints stands.trace made stands.awaiting;
}

push_stack-insert :
    (vm : Vm) (f levels fiber : ℕ) (p : Ptr) (o : Option (List Ptr)) (s : State)
    → push_stack vm f levels fiber p o s
      ≡ record s { call_stacks = insert fiber (p ∷ stack_of o) s.call_stacks }
push_stack-insert vm f levels fiber p none s = refl
push_stack-insert vm f levels fiber p (some stack) s = refl

IsFresh-IsMade :
    (m : ℕ → Option BlockTracepoint) (o : Option BlockParameter) → IsFresh m o → IsMade m o
IsFresh-IsMade m none fresh = tt
IsFresh-IsMade m (some b) (traces, calls, made) = made

module _ (vm : Vm) (classes : List RubyValue) (IsObject : RubyValue → Type 0) (f levels : ℕ)
    (world : World vm classes IsObject) (e : CallEvent)
    (callable : IsCallable vm classes IsObject f levels e) (s : State)
    (good : IsGood classes f levels s) where
  -- The trace is filled and on its stack.
  filled_state : State → ReturnTrace → State
  filled_state t q = record t {
    heap = update t.heap s.next_trace (some q);
    call_stacks =
        insert e.fiber (s.next_trace ∷ stack_of (lookup e.fiber s.call_stacks)) t.call_stacks;
  }

  module _ (c : Option ConstantInstance) (i : ConstantInstance)
      (complete_callee : IsCompleteCallee c) (complete_owner : IsComplete i) where
    -- The trace of the call, with its visibility.
    seen : ReturnTrace
    seen = record (base vm f levels e c i) {
      method_visibility = method_visibility_of vm f levels e;
    }

    filled_state-others :
        (q : ReturnTrace) (t : State)
        → Advanced classes f (begun s) t
        → (r : Ptr) → (r == s.next_trace) ≡ false
        → (filled_state t q).heap r ≡ s.heap r
    unfolding filled_state
    filled_state-others q t through r other =
        rw other (ap (λ (v : State). v.heap r) through.frame ∙ rw other refl)

    filled-IsAwaiting :
        (q : ReturnTrace) (t : State)
        → Filled e.parameters e.block_given seen q t
        → IsAwaiting t.block_tracepoints q
    unfolding seen
    filled-IsAwaiting q t filled = record {
      method_name = subst (λ (r : ReturnTrace). HasName r.method_name) (sym filled.same) tt;
      method_owner =
          subst (λ (r : ReturnTrace). IsComplete r.method_owner) (sym filled.same) complete_owner;
      method_callee =
          subst (λ (r : ReturnTrace). IsCompleteCallee r.method_callee) (sym filled.same)
            complete_callee;
      params = filled.complete;
      constant_updates =
          subst (λ (r : ReturnTrace). All IsNamedConstant r.constant_updates) (sym filled.same) tt;
      block_param = IsFresh-IsMade t.block_tracepoints q.block_param filled.fresh;
    }

    filled_state-IsGood :
        (q : ReturnTrace) (t : State)
        → Advanced classes f (begun s) t
        → Filled e.parameters e.block_given seen q t
        → IsGood classes f levels (filled_state t q)
    filled_state-IsGood q t through filled =
        let same : t.call_stacks ≡ s.call_stacks =
          ap (λ (v : State). v.call_stacks) through.frame in
        let next : t.next_trace ≡ s.next_trace + 1 =
          ap (λ (v : State). v.next_trace) through.frame in
        let limit : t.max_generic_depth ≡ s.max_generic_depth =
          ap (λ (v : State). v.max_generic_depth) through.frame in
        let new : s.heap s.next_trace ≡ none = good.free s.next_trace (omega arith) in
        let old = λ (r : Ptr) (stands : Stands s r).
          Stands-others s (filled_state t q) s.next_trace r new refl
            (filled_state-others q t through) (unfold filled_state in through.made) stands in
        unfold filled_state in
        record {
          ready = record {
            known = record {
              named = through.ready.known.named;
              pending = through.ready.known.pending;
            };
            fits = through.ready.fits;
          };
          depth = omega (arith, limit, good.depth);
          free = λ r le.
              let other : (r == s.next_trace) ≡ false = ground (arith, next, le) in
              filled_state-others q t through r other ∙ good.free r (omega (arith, next, le));
          stacks = λ k.
              subst
                (λ stacks. All (Stands (filled_state t q)) (
                  stack_of (
                    lookup k (
                      insert e.fiber (s.next_trace ∷ stack_of (lookup e.fiber s.call_stacks))
                        stacks))))
                (sym same)
                (stacks-insert (Stands (filled_state t q)) e.fiber
                  (s.next_trace ∷ stack_of (lookup e.fiber s.call_stacks)) s.call_stacks
                  (
                    record {
                      trace = q;
                      here = ground arith;
                      awaiting = filled-IsAwaiting q t filled;
                    },
                    All-map (Stands s) (Stands (filled_state t q)) _ old (good.stacks e.fiber),
                  )
                  (λ j. All-map (Stands s) (Stands (filled_state t q)) _ old (good.stacks j)) k);
        }

    filled_state-Recorded :
        (q : ReturnTrace) (t : State)
        → Advanced classes f (begun s) t
        → Filled e.parameters e.block_given seen q t
        → (recorded : Recorded vm f levels e s (filled_state t q)) × (recorded.trace.method_owner
            ≡ i)
    filled_state-Recorded q t through filled =
        let same : t.call_stacks ≡ s.call_stacks =
          ap (λ (v : State). v.call_stacks) through.frame in
        unfold filled_state seen method_visibility_of in
        (
          record {
            trace = q;
            here = ground arith;
            stacks =
                ap
                  (λ stacks.
                    insert e.fiber (s.next_trace ∷ stack_of (lookup e.fiber s.call_stacks)) stacks)
                  same;
            name = ap (λ (r : ReturnTrace). r.method_name) filled.same;
            kind =
                ap (λ (r : ReturnTrace). r.method_kind) filled.same
                ∙ kind_if (Vm.rb_type vm e.self);
            visibility =
                ap (λ (r : ReturnTrace). r.method_visibility) filled.same
                ∙ visibility_if (Vm.public_method_defined vm e.defined_class e.method_name)
                    (Vm.private_method_defined vm e.defined_class e.method_name);
            params = filled.shapes;
            has_block = filled.has;
            fresh = filled.fresh;
            rescued = ap (λ (r : ReturnTrace). r.rescued) filled.same;
            others = filled_state-others q t through;
            made = through.made;
            frame = ap (call_frame (filled_state t q)) through.frame;
          },
          ap (λ (r : ReturnTrace). r.method_owner) filled.same,
        )

    pub record_call-Recorded :
        (u : State)
        → Kept classes f (begun s) u
        → Ensures
            (λ _ t.
              IsGood classes f levels t
              × ((recorded : Recorded vm f levels e s t) × (recorded.trace.method_owner ≡ i)))
            (record_call vm f levels s.next_trace e
              (base vm f levels e c i)
              (lookup e.fiber s.call_stacks)
              u)
    unfolding record_call write_trace seen filled_state
    record_call-Recorded u kept =
        let limit : u.max_generic_depth ≡ s.max_generic_depth =
          ap (λ (v : State). v.max_generic_depth) kept.frame in
        Ensures-bind _
          (assign_parameters-Filled vm classes IsObject f levels s.next_trace e.parameters
            e.block_given seen u world.closed world.objects world.arrays world.hashes
            callable.arguments kept.ready (omega (arith, limit, good.depth)) refl)
          λ q t (advanced, filled). rw push_stack-insert (holds (finished q t advanced filled))
      where
        finished :
            (q : ReturnTrace) (t : State)
            → Advanced classes f u t
            → Filled e.parameters e.block_given seen q t
            → IsGood classes f levels (filled_state t q)
              × ((recorded : Recorded vm f levels e s (filled_state t q))
                  × (recorded.trace.method_owner ≡ i))
        finished q t advanced filled =
            let through = Advanced-trans (Kept-Advanced kept) advanced in
            (filled_state-IsGood q t through filled, filled_state-Recorded q t through filled)
