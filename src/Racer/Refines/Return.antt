-- ===== src/Racer/Refines/Return.antt =====
-- ext/racer/racer.cc, process_return_event, beside the abstract tracer's return.
use mathlib.Core.Path.{subst}
use text.Mathlib.Text.{◌==◌ as str_eq}
use text.Mathlib.TextEquality.{eq_iff}
use racer_rb.Base.{
  some_same, ℕ, String, ◌≡◌, refl, sym, ap, ◌∙◌, inl, inr, false, Option, none, some, List, [], ◌∷◌,
  ◌++◌, ◌==◌, All, lookup, insert, arith, Bool-cases,
}
use racer_rb.Traces.{CString, Ptr, ReturnTrace}
use racer_rb.Racer.State.{RubyValue, Vm, State, update}
use racer_rb.Racer.Ensures.{Ensures, holds, Ensures-mono}
use racer_rb.Racer.Calls.{ReturnEvent, strcmp_eq, process_return_event}
use racer_rb.Racer.Returns.{
  Sent, IsUnmatched, process_return_event_unmatched, process_return_event-Sent,
}
use racer_rb.Racer.Stacks.{
  World, IsAwaiting, IsAwaiting-AreMade, Stands, stack_of, IsGood, All-map, stacks-insert,
}
use racer_rb.Racer.Tracer.{Tracer, IsOffTop, ReturnStep, AreOf, Models}
use racer_rb.Racer.Models.{
  differ, Keeps, AreOf-Keeps, AreSent-Keeps, AreSent-append_one, AreOf-insert, AreOf-top,
  AreOf-empty, writes-Keeps,
}

abbrev logged_return : ReturnEvent → List String → Tracer → Tracer
logged_return e below a = record a {
  stacks = update a.stacks e.fiber below;
  log = a.log ++ e.method_name ∷ [];
}

module _ (vm : Vm) (classes : List RubyValue) (IsObject : RubyValue → Type 0) (f levels : ℕ)
    (world : World vm classes IsObject) where
  module _ (e : ReturnEvent) (s : State) (top : Ptr) (below : List Ptr) (trace : ReturnTrace)
      (there : s.heap top ≡ some trace) (awaiting : IsAwaiting s.block_tracepoints trace)
      (t : State)
      (sent : Sent classes f top trace
        (record s { call_stacks = insert e.fiber below s.call_stacks })
        t) where
    Sent-Keeps : Keeps s t
    Sent-Keeps = writes-Keeps s t top sent.sent sent.others sent.here λ trace' there'.
        ap (λ (r : ReturnTrace). r.method_name) sent.same
        ∙ ap (λ (r : ReturnTrace). r.method_name) (some_same (s.heap top) there there')

    sent-IsAwaiting : IsAwaiting t.block_tracepoints sent.sent
    sent-IsAwaiting =
        let old =
          IsAwaiting-AreMade s.block_tracepoints t.block_tracepoints trace sent.made awaiting in
        subst (IsAwaiting t.block_tracepoints) (sym sent.same) (record {
          method_name = old.method_name;
          method_owner = old.method_owner;
          method_callee = old.method_callee;
          params = old.params;
          constant_updates = sent.updates;
          block_param = old.block_param;
        })

    Sent-Stands : (q : Ptr) → Stands s q → Stands t q
    Sent-Stands q stands = elim (Bool-cases (q == top)) [
      | inl is ↦
          let e : q ≡ top = ground (arith, is) in
          record { trace = sent.sent; here = rw e sent.here; awaiting = sent-IsAwaiting }
      | inr other ↦ record {
        trace = stands.trace;
        here = sent.others q other ∙ stands.here;
        awaiting =
            IsAwaiting-AreMade s.block_tracepoints t.block_tracepoints stands.trace sent.made
              stands.awaiting;
      }
    ]

    Sent-IsGood : IsGood classes f levels s → All (Stands s) below → IsGood classes f levels t
    Sent-IsGood good all =
        let limit : t.max_generic_depth ≡ s.max_generic_depth =
          ap (λ (v : State). v.max_generic_depth) sent.frame in
        let next : t.next_trace ≡ s.next_trace = ap (λ (v : State). v.next_trace) sent.frame in
        record {
          ready = sent.ready;
          depth = omega (arith, limit, good.depth);
          free = λ q le.
              let new : s.heap q ≡ none = good.free q (omega (arith, next, le)) in
              elim (Bool-cases (q == top)) [
                | inl is ↦
                    let e : q ≡ top = ground (arith, is) in
                    absurd (differ (s.heap top) trace (rw e at new) there)
                | inr other ↦ sent.others q other ∙ new
              ];
          stacks = λ k.
              subst (λ stacks. All (Stands t) (stack_of (lookup k stacks))) (sym sent.stacks)
                (stacks-insert (Stands t) e.fiber below s.call_stacks
                  (All-map (Stands s) (Stands t) below Sent-Stands all)
                  (λ j. All-map (Stands s) (Stands t) _ Sent-Stands (good.stacks j)) k);
        }

    Sent-Models :
        (a : Tracer) (rest : List String)
        → Models classes f levels s a
        → All (Stands s) below
        → AreOf s below rest
        → trace.method_name ≡ some e.method_name
        → Models classes f levels t (logged_return e rest a)
    Sent-Models a rest models all are name = record {
      good = Sent-IsGood models.good all;
      stacks = rw (sent.stacks) (
          AreOf-insert t e.fiber below rest s.call_stacks a.stacks
            (AreOf-Keeps s t Sent-Keeps below rest are)
            λ k. AreOf-Keeps s t Sent-Keeps _ _ (models.stacks k));
      log = rw (sent.pushed) (
          AreSent-append_one t s.pushed a.log top e.method_name
            (AreSent-Keeps s t Sent-Keeps _ _ models.log)
            (sent.sent, sent.here, ap (λ (r : ReturnTrace). r.method_name) sent.same ∙ name));
      calm = λ quiet q later found. elim (Bool-cases (q == top)) [
        | inl is ↦ let here' : q ≡ top = ground (arith, is) in calm_sent quiet (rw here' at found)
        | inr other ↦ models.calm quiet q later (sym (sent.others q other) ∙ found)
      ];
    }
      where
        calm_sent :
            a.rescued ≡ false
            → {later : ReturnTrace} → t.heap top ≡ some later
            → later.rescued ≡ false
        calm_sent quiet found =
            let old = models.calm quiet top trace there in
            let same = ap (λ (r : ReturnTrace). r.rescued) sent.same in let is = sent.here in cc

  ignored-Step :
      (e : ReturnEvent) (s : State) (a : Tracer)
      → Models classes f levels s a
      → IsUnmatched e s (lookup e.fiber s.call_stacks)
      → IsOffTop e.method_name (a.stacks e.fiber)
      → Ensures
          (λ _ t. (b : Tracer) × ReturnStep e a b × Models classes f levels t b)
          (process_return_event vm f levels e s)
  ignored-Step e s a models un off =
      rw (process_return_event_unmatched vm f levels e s un) (holds (a, inr (off, refl), models))

  strcmp_eq-other :
      (o : CString) (name other : String)
      → o ≡ some name
      → str_eq name other ≡ false
      → strcmp_eq o (some other) ≡ some false
  strcmp_eq-other o name other is differs = rw is (ap some differs)

  pub return-Step :
      (e : ReturnEvent) (s : State) (a : Tracer)
      → IsObject e.return_value
      → Models classes f levels s a
      → Ensures
          (λ _ t. (b : Tracer) × ReturnStep e a b × Models classes f levels t b)
          (process_return_event vm f levels e s)
  return-Step e s a object models =
      on_stack (lookup e.fiber s.call_stacks) refl (models.good.stacks e.fiber)
        (models.stacks e.fiber)
    where
      on_stack :
          (o : Option (List Ptr))
          → lookup e.fiber s.call_stacks ≡ o
          → All (Stands s) (stack_of o)
          → AreOf s (stack_of o) (a.stacks e.fiber)
          → Ensures
              (λ _ t. (b : Tracer) × ReturnStep e a b × Models classes f levels t b)
              (process_return_event vm f levels e s)
      on_stack none stack all are =
          ignored-Step e s a models (rw stack tt) (rw (AreOf-empty s (a.stacks e.fiber) are) tt)
      on_stack (some []) stack all are =
          ignored-Step e s a models (rw stack tt) (rw (AreOf-empty s (a.stacks e.fiber) are) tt)
      on_stack (some (top ∷ below)) stack (stands, all) are =
          let trace = stands.trace in
          let (name, rest, is, named, are') =
            AreOf-top s top below (a.stacks e.fiber) trace are stands.here in
          elim (Bool-cases (str_eq name e.method_name)) [
            | inr other ↦
                ignored-Step e s a models
                  (rw stack (
                    trace,
                    stands.here,
                    strcmp_eq-other trace.method_name name e.method_name named other,
                  ))
                  (rw is other)
            | inl same ↦
                let name' : name ≡ e.method_name = (eq_iff name e.method_name).0 same in
                let named' : trace.method_name ≡ some e.method_name = named ∙ ap some name' in
                Ensures-mono
                  (process_return_event-Sent vm classes IsObject f levels world.closed world.objects
                    e s top below trace object models.good.ready models.good.depth stack stands.here
                    named' stands.awaiting.block_param stands.awaiting.constant_updates)
                  λ _ t sent. (
                    logged_return e rest a,
                    inl (rest, is ∙ ap (λ n. n ∷ rest) name', refl),
                    Sent-Models e s top below trace stands.here stands.awaiting t sent a rest models
                        all are' named',
                  )
          ]
