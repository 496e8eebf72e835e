-- ===== src/Racer/Retries.antt =====
-- ext/racer/racer.cc, process_call_event: a call that repeats the method on top of the stack after a
-- rescue, and the whole of the handler.
use mathlib.Core.Path.{subst}
use racer_rb.Base.{
  ℕ, ◌+◌, ◌≡◌, refl, sym, ap, ◌∙◌, ◌⊎◌, inl, inr, some_same, true, false, Option, none, some, List,
  [], ◌∷◌, ◌==◌, All, lookup, arith, Bool-cases,
}
use racer_rb.Traces.{Ptr, ConstantInstance, ReturnTrace}
use racer_rb.Protocol.Views.{IsComplete, IsCompleteCallee}
use racer_rb.Racer.State.{
  RubyValue, Vm, State, update, new_trace, write_trace, read_trace, delete_trace,
}
use racer_rb.Racer.Free.{free_trace, free_block_param}
use racer_rb.Racer.Calls.{
  CallEvent, instance_name, is_retry, attached_class, detect_retry, record_call, drop_call,
  finish_call, process_call_event,
}
use racer_rb.Racer.Ensures.{Ensures, holds, Ensures-bind, Ensures-mono, Ensures-eq}
use racer_rb.Racer.Known.{Ready, Kept, Kept-trans}
use racer_rb.Racer.Types.{plain_instance-IsComplete}
use racer_rb.Racer.Stacks.{World, Stands, stack_of, IsGood, Stands-old, All-map}
use racer_rb.Racer.Pushes.{IsCallable, Stands-others, record_call-Recorded, find_callee-Complete}
use racer_rb.Racer.Records.{begun, base, call_frame}
use racer_rb.Racer.Outcomes.{
  Retries, IsOwner, Unrecorded, IsComplete-name, AreAlike, is_retry-cases, Outcome, is_recorded,
  is_dropped,
}

no_stack :
    {o : Option (List Ptr)} {top : Ptr} {below : List Ptr} → o ≡ none → ¬ (o ≡ some (top ∷ below))
no_stack e e' = cc

empty_stack :
    {o : Option (List Ptr)} {top : Ptr} {below : List Ptr}
    → o ≡ some []
    → ¬ (o ≡ some (top ∷ below))
empty_stack e e' = cc

module _ (vm : Vm) (classes : List RubyValue) (IsObject : RubyValue → Type 0) (f levels : ℕ)
    (world : World vm classes IsObject) (e : CallEvent)
    (callable : IsCallable vm classes IsObject f levels e) (s : State)
    (good : IsGood classes f levels s) where
  abbrev Comes : Unit {0} → State → Type 0
  Comes _ t = IsGood classes f levels t × Outcome vm f levels e s t

  dropped : State → ReturnTrace → State
  dropped u trace = record u {
    heap = update (update u.heap s.next_trace (some trace)) s.next_trace none;
  }

  dropped-heap :
      (u : State) (trace : ReturnTrace) (q : Ptr)
      → Kept classes f (begun s) u
      → (dropped u trace).heap q ≡ s.heap q
  unfolding dropped
  dropped-heap u trace q kept = elim (Bool-cases (q == s.next_trace)) [
    | inl same ↦
        let e : q ≡ s.next_trace = ground (arith, same) in
        rw (same, e) (sym (good.free s.next_trace (omega arith)))
    | inr other ↦ rw other (ap (λ (v : State). v.heap q) kept.frame ∙ rw other refl)
  ]

  drop_call-dropped :
      (u : State) (c : Option ConstantInstance) (i : ConstantInstance)
      → drop_call vm f levels s.next_trace (base vm f levels e c i) u
        ≡ some (tt, dropped u (base vm f levels e c i))
  unfolding drop_call write_trace free_trace read_trace free_block_param delete_trace dropped
  drop_call-dropped u c i =
      let here : (s.next_trace == s.next_trace) ≡ true = ground arith in
      rw (drop_call, read_trace, here) (rw (delete_trace, read_trace, here) refl)

  dropped-IsGood :
      (u : State) (trace : ReturnTrace)
      → Kept classes f (begun s) u
      → IsGood classes f levels (dropped u trace) × Unrecorded s (dropped u trace)
  dropped-IsGood u trace kept =
      let limit : u.max_generic_depth ≡ s.max_generic_depth =
        ap (λ (v : State). v.max_generic_depth) kept.frame in
      let same : u.call_stacks ≡ s.call_stacks = ap (λ (v : State). v.call_stacks) kept.frame in
      let next : u.next_trace ≡ s.next_trace + 1 = ap (λ (v : State). v.next_trace) kept.frame in
      let points : u.block_tracepoints ≡ s.block_tracepoints =
        ap (λ (v : State). v.block_tracepoints) kept.frame in
      let old = λ (q : Ptr) (stands : Stands s q).
        Stands-others s (dropped u trace) s.next_trace q (good.free s.next_trace (omega arith)) refl
          (λ r other. dropped-heap u trace r kept) (unfold dropped in λ tp made. rw points made)
          stands in
      unfold dropped in
      (
        record {
          ready = record {
            known = record { named = kept.ready.known.named; pending = kept.ready.known.pending };
            fits = kept.ready.fits;
          };
          depth = omega (arith, limit, good.depth);
          free = λ q le. dropped-heap u trace q kept ∙ good.free q (omega (arith, next, le));
          stacks = λ k.
              subst (λ stacks. All (Stands (dropped u trace)) (stack_of (lookup k stacks)))
                (sym same) (All-map (Stands s) (Stands (dropped u trace)) _ old (good.stacks k));
        },
        record {
          stacks = same;
          heap = λ q. dropped-heap u trace q kept;
          tracepoints = points;
          frame = ap (call_frame (dropped u trace)) kept.frame;
        },
      )

  module _ (c : Option ConstantInstance) (i : ConstantInstance)
      (complete_callee : IsCompleteCallee c) (complete_owner : IsComplete i)
      (is_owner : IsOwner vm f levels e s i) (u : State) (kept : Kept classes f (begun s) u) where
    -- A retry is of the trace on top of the stack.
    unalike :
        (top : Ptr) (below : List Ptr) (previous : ReturnTrace)
        → lookup e.fiber s.call_stacks ≡ some (top ∷ below)
        → s.heap top ≡ some previous
        → Retries e (instance_name i) s
        → AreAlike (base vm f levels e c i) previous
    unalike top below previous stack here retries =
        let tops : retries.top ∷ retries.below ≡ top ∷ below =
          some_same (lookup e.fiber s.call_stacks) retries.stack stack in
        let is : retries.top ≡ top = cc in
        let same : retries.previous ≡ previous =
          some_same (s.heap top) (subst (λ p. s.heap p ≡ some retries.previous) is retries.here)
            here in
        (
          subst (λ (t : ReturnTrace). t.rescued ≡ true) same retries.rescued,
          sym (subst (λ (t : ReturnTrace). t.method_name ≡ some e.method_name) same retries.name),
          sym (
              subst (λ (t : ReturnTrace). instance_name t.method_owner ≡ instance_name i) same
                retries.owner),
        )

    recorded :
        ¬ (Retries e (instance_name i) s)
        → Ensures Comes (
            record_call vm f levels s.next_trace e
              (base vm f levels e c i)
              (lookup e.fiber s.call_stacks)
              u)
    recorded none_alike =
        Ensures-mono
          (record_call-Recorded vm classes IsObject f levels world e callable s good c i
            complete_callee complete_owner u kept)
          λ _ t (good', (done, owner)). (
            good',
            is_recorded done (rw owner is_owner)
                (subst (λ j. ¬ (Retries e (instance_name j) s)) (sym owner) none_alike),
          )

    -- The call where there is a trace on top of the stack.
    finish_top :
        (top : Ptr) (below : List Ptr) (previous : ReturnTrace)
        → lookup e.fiber s.call_stacks ≡ some (top ∷ below)
        → s.heap top ≡ some previous
        → u.heap top ≡ some previous
        → ((is_retry (base vm f levels e c i) previous ≡ some false)
            × ¬ (AreAlike (base vm f levels e c i) previous))
          ⊎ ((is_retry (base vm f levels e c i) previous ≡ some true)
              × AreAlike (base vm f levels e c i) previous)
        → Ensures Comes
            (finish_call vm f levels s.next_trace e (base vm f levels e c i) (some (top ∷ below)) u)
    unfolding detect_retry read_trace
    finish_top top below previous stack here here' (inl (other, unlike)) =
        rw (detect_retry, read_trace, here', other)
          (rw stack at
            (recorded (λ retries. unlike (unalike top below previous stack here retries))))
    finish_top top below previous stack here here' (inr (same, (rescued, name, owner))) =
        rw (detect_retry, read_trace, here', same, drop_call-dropped)
          (holds (
            (dropped-IsGood u (base vm f levels e c i) kept).0,
            is_dropped i is_owner
                (record {
                  top = top;
                  below = below;
                  previous = previous;
                  stack = stack;
                  here = here;
                  rescued = rescued;
                  name = sym name;
                  owner = sym owner;
                })
                (dropped-IsGood u (base vm f levels e c i) kept).1,
          ))

    finish_call-Comes :
        (o : Option (List Ptr))
        → lookup e.fiber s.call_stacks ≡ o
        → All (Stands s) (stack_of o)
        → Ensures Comes (finish_call vm f levels s.next_trace e (base vm f levels e c i) o u)
    unfolding detect_retry
    finish_call-Comes none stack all =
        rw stack at (recorded (λ retries. no_stack (stack) retries.stack))
    finish_call-Comes (some []) stack all =
        rw stack at (recorded (λ retries. empty_stack (stack) retries.stack))
    finish_call-Comes (some (top ∷ below)) stack (stands, all) =
        let previous = stands.trace in
        let other : (top == s.next_trace) ≡ false =
          Stands-old s top (good.free s.next_trace (omega arith)) stands in
        let here' : u.heap top ≡ some previous =
          ap (λ (v : State). v.heap top) kept.frame ∙ rw other stands.here in
        finish_top top below previous stack stands.here here' (
          is_retry-cases (base vm f levels e c i) previous tt stands.awaiting.method_name
            (IsComplete-name i complete_owner)
            (IsComplete-name previous.method_owner stands.awaiting.method_owner))

pub process_call_event-Outcome :
    (vm : Vm) (classes : List RubyValue) (IsObject : RubyValue → Type 0) (f levels : ℕ)
    (e : CallEvent) (s : State)
    → World vm classes IsObject
    → IsCallable vm classes IsObject f levels e
    → IsGood classes f levels s
    → Ensures
        (λ _ t. IsGood classes f levels t × Outcome vm f levels e s t)
        (process_call_event vm f levels e s)
unfolding process_call_event new_trace
process_call_event-Outcome vm classes IsObject f levels e s world callable good =
    let started : Ready classes f (begun s) = record {
      known = record { named = good.ready.known.named; pending = good.ready.known.pending };
      fits = good.ready.fits;
    } in
    Ensures-bind _
      (find_callee-Complete vm classes IsObject f levels world e (begun s) callable started)
      λ c t (kept, complete).
        Ensures-bind _
          (Ensures-eq (
            plain_instance-IsComplete vm classes f (attached_class vm f levels e.defined_class)
              false t world.closed callable.owner kept.ready))
          λ i u ((kept', complete'), made).
            let through = Kept-trans kept kept' in
            let same : lookup e.fiber u.call_stacks ≡ lookup e.fiber s.call_stacks =
              ap (λ (v : State). lookup e.fiber v.call_stacks) through.frame in
            rw same (
              finish_call-Comes vm classes IsObject f levels world e callable s good c i complete
                complete' (t, u, kept.frame, made) u through (lookup e.fiber s.call_stacks) refl
                (good.stacks e.fiber))
