-- ===== src/Protocol/TidyEvents.antt =====
-- ext/racer/racer.cc, process_tracepoint: all events keep the traces on the stacks and in the queue apart.
use mathlib.Core.Path.{subst, fun_ext}
use text.Mathlib.Text.{◌==◌ as str_eq}
use text.Mathlib.TextEquality.{eq_iff}
use racer_rb.Base.{
  ℕ, ◌≡◌, refl, sym, ap, ◌∙◌, ◌⊎◌, true, Option, none, some, List, [], ◌∷◌, ◌==◌, All, has, lookup,
  insert, some_same, arith, Bool-cases, inl, inr,
}
use racer_rb.Traces.{Ptr, CString, ReturnTrace}
use racer_rb.Protocol.Views.{HasName}
use racer_rb.Protocol.Queued.{Queued}
use racer_rb.Protocol.Tidy.{
  IsUncalled, IsFresh-IsUncalled, uncalled_block, uncalled_block-IsBlock, uncalled_block-depth,
  stack_at, IsSettled, Tidy, IsSettled-apart,
}
use racer_rb.Protocol.TidySteps.{same-Tidy, pushed-Tidy}
use racer_rb.Protocol.TidyReturns.{sent-Tidy}
use racer_rb.Racer.State.{RubyValue, Vm, State, update, pure, write_trace, read_trace}
use racer_rb.Racer.Ensures.{Ensures, holds, Ensures-both, Ensures-bind, Ensures-mono, Ensures-if}
use racer_rb.Racer.Calls.{
  CallEvent, ReturnEvent, RescueEvent, name_matches, process_call_event, process_return_event,
  process_rescued_event, rescue_on,
}
use racer_rb.Racer.Events.{Event, call_event, return_event, rescue_event, process_event}
use racer_rb.Racer.Returns.{
  Sent, IsUnmatched, process_return_event_unmatched, process_return_event-Sent,
}
use racer_rb.Racer.Stacks.{World, IsAwaiting, Stands, stack_of, IsGood}
use racer_rb.Racer.Pushes.{IsCallable}
use racer_rb.Racer.Retries.{process_call_event-Outcome}
use racer_rb.Racer.Outcomes.{is_recorded, is_dropped}
use racer_rb.Racer.Tracer.{Tracer, Run, done, step, Models, IsProper, process_events}
use racer_rb.Racer.Refines.{process_event-Step}
use racer_rb.Racer.Delivery.{without, Sent-IsSendable}

module _ (vm : Vm) (classes : List RubyValue) (IsObject : RubyValue → Type 0) (f levels : ℕ)
    (world : World vm classes IsObject) where
  call-Tidy :
      (e : CallEvent) (s : State)
      → IsCallable vm classes IsObject f levels e
      → IsGood classes f levels s
      → Tidy s
      → Ensures (λ _ t. Tidy t) (process_call_event vm f levels e s)
  call-Tidy e s callable good tidy =
      Ensures-mono (process_call_event-Outcome vm classes IsObject f levels e s world callable good)
        λ _ t (good', outcome). elim outcome [
          | is_recorded recorded owner fresh ↦
              pushed-Tidy s t tidy e.fiber recorded.trace (good.free s.next_trace (omega arith))
                good.stacks recorded.stacks (ap (λ (v : State). v.socket) recorded.frame)
                (ap (λ (v : State). v.pushed) recorded.frame) recorded.here recorded.others
                (IsFresh-IsUncalled t.block_tracepoints recorded.trace.block_param recorded.fresh)
          | is_dropped i owner retries un ↦
              same-Tidy s t tidy (ap (λ (v : State). v.socket) un.frame) un.stacks
                (ap (λ (v : State). v.pushed) un.frame)
                (subst (λ h. All (IsSettled h) tidy.queue) (sym (fun_ext un.heap)) tidy.settled)
                λ k p later e there. (later, sym (un.heap p) ∙ there, refl)
        ]

  -- The trace on top of a stack whose method returns.
  pub record Returns (e : ReturnEvent) (s : State) (o : Option (List Ptr)) : Type 0 where
    pub top : Ptr
    pub below : List Ptr
    pub stack : o ≡ some (top ∷ below)
    pub stands : Stands s top
    pub name : ReturnTrace.method_name (Stands.trace stands) ≡ some e.method_name

  pub Returns-or_IsUnmatched :
      (e : ReturnEvent) (s : State) (o : Option (List Ptr))
      → All (Stands s) (stack_of o)
      → IsUnmatched e s o ⊎ Returns e s o
  Returns-or_IsUnmatched e s none all = inl tt
  Returns-or_IsUnmatched e s (some []) all = inl tt
  Returns-or_IsUnmatched e s (some (top ∷ below)) (stands, all) =
      by_name stands.trace.method_name refl stands.awaiting.method_name
    where
      by_name :
          (c : CString)
          → ReturnTrace.method_name (Stands.trace stands) ≡ c
          → HasName c
          → IsUnmatched e s (some (top ∷ below)) ⊎ Returns e s (some (top ∷ below))
      by_name none is named = absurd named
      by_name (some n) is named = elim (Bool-cases (str_eq n e.method_name)) [
        | inl same ↦ inr (record {
          top = top;
          below = below;
          stack = refl;
          stands = stands;
          name = is ∙ ap some ((eq_iff n e.method_name).0 same);
        })
        | inr other ↦ inl (stands.trace, stands.here, rw is (ap some other))
      ]

  -- The trace that has been sent, as the agent is to see it.
  abbrev sent_as : Ptr → ReturnTrace → ReturnTrace → Queued
  sent_as top trace sent = record {
    address = top;
    trace = sent;
    block = uncalled_block trace.block_param;
  }

  Sent-IsSettled :
      (top : Ptr) (trace : ReturnTrace) (s t : State)
      → IsAwaiting s.block_tracepoints trace
      → IsUncalled trace.block_param
      → (sent : Sent classes f top trace s t) → IsSettled t.heap (sent_as top trace sent.sent)
  Sent-IsSettled top trace s t awaiting uncalled sent = record {
    queued = record {
      here = sent.here;
      sendable =
          Sent-IsSendable classes f top (uncalled_block trace.block_param) trace s t
            awaiting.method_name
            (record {
              method_owner = awaiting.method_owner;
              method_callee = awaiting.method_callee;
              constant_updates = awaiting.constant_updates;
              params = awaiting.params;
              block_param = uncalled_block-IsBlock (without top s.heap) trace.block_param uncalled;
            })
            sent;
      depth = uncalled_block-depth trace.block_param;
    };
    uncalled = subst (λ (r : ReturnTrace). IsUncalled r.block_param) (sym sent.same) uncalled;
  }

  return-Tidy :
      (e : ReturnEvent) (s : State)
      → IsObject e.return_value
      → IsGood classes f levels s
      → Tidy s
      → Ensures (λ _ t. Tidy t) (process_return_event vm f levels e s)
  return-Tidy e s object good tidy =
      elim (Returns-or_IsUnmatched e s (lookup e.fiber s.call_stacks) (good.stacks e.fiber)) [
        | inl un ↦ rw (process_return_event_unmatched vm f levels e s un) (holds tidy)
        | inr returns ↦
            let trace = returns.stands.trace in
            let awaiting = returns.stands.awaiting in
            let on_top : has returns.top (stack_at s e.fiber) ≡ true =
              rw (returns.stack) (unfold has in ground arith) in
            let uncalled = tidy.uncalled e.fiber returns.top trace on_top returns.stands.here in
            Ensures-mono
              (process_return_event-Sent vm classes IsObject f levels world.closed world.objects e s
                returns.top returns.below trace object good.ready good.depth returns.stack
                returns.stands.here returns.name awaiting.block_param awaiting.constant_updates)
              λ _ t sent.
                sent-Tidy s t tidy e.fiber returns.below (sent_as returns.top trace sent.sent)
                  returns.stack
                  (Sent-IsSettled returns.top trace
                    (record s { call_stacks = insert e.fiber returns.below s.call_stacks }) t
                    (record {
                      method_name = awaiting.method_name;
                      method_owner = awaiting.method_owner;
                      method_callee = awaiting.method_callee;
                      params = awaiting.params;
                      constant_updates = awaiting.constant_updates;
                      block_param = awaiting.block_param;
                    })
                    uncalled sent)
                  sent.stacks (ap (λ (v : State). v.socket) sent.frame) sent.pushed sent.others
      ]

  rescue-Tidy :
      (e : RescueEvent) (s : State) (o : Option (List Ptr))
      → lookup e.fiber s.call_stacks ≡ o
      → All (Stands s) (stack_of o)
      → Tidy s
      → Ensures (λ _ t. Tidy t) (rescue_on vm f levels e o s)
  unfolding rescue_on read_trace write_trace
  rescue-Tidy e s none stack all tidy = holds tidy
  rescue-Tidy e s (some []) stack all tidy = holds tidy
  rescue-Tidy e s (some (top ∷ below)) stack (stands, all) tidy =
      let trace = stands.trace in
      let marked : State = record s {
        heap = update s.heap top (some (record trace { rescued = true }));
      } in
      let on_top : has top (stack_at s e.fiber) ≡ true = rw stack (unfold has in ground arith) in
      let marked-Tidy : Tidy marked =
        same-Tidy s marked tidy refl refl refl
          (IsSettled-apart s.heap marked.heap top tidy.queue (λ q other. rw other refl)
            (tidy.unsent e.fiber top on_top) tidy.settled)
          λ k p later e' there. elim (Bool-cases (p == top)) [
            | inl same ↦
                let is : p ≡ top = ground (arith, same) in
                let found : some (record trace { rescued = true }) ≡ some later =
                  rw same at there in
                (
                  trace,
                  ap s.heap is ∙ stands.here,
                  ap (λ (r : ReturnTrace). r.block_param) (some_same (some later) refl (sym found)),
                )
            | inr other ↦ (later, rw other at there, refl)
          ] in
      rw (rescue_on, read_trace, stands.here)
        (Ensures-if (name_matches vm f levels trace.method_name e.method_name)
          (write_trace top (record trace { rescued = true })) (pure tt) s (λ _. holds marked-Tidy)
          λ _. holds tidy)

  process_event-Tidy :
      (e : Event) (s : State)
      → IsProper vm classes IsObject f levels e
      → IsGood classes f levels s
      → Tidy s
      → Ensures (λ _ t. Tidy t) (process_event vm f levels e s)
  unfolding process_event process_rescued_event
  process_event-Tidy (call_event e) s proper good tidy = call-Tidy e s proper good tidy
  process_event-Tidy (return_event e) s proper good tidy = return-Tidy e s proper good tidy
  process_event-Tidy (rescue_event e) s proper good tidy =
      rescue-Tidy e s (lookup e.fiber s.call_stacks) refl (good.stacks e.fiber) tidy

  -- The state that events come to, with what the abstract tracer comes to.
  pub record Comes (es : List Event) (a : Tracer) (t : State) : Type 0 where
    pub tracer : Tracer
    pub run : Run es a tracer
    pub models : Models classes f levels t tracer
    pub tidy : Tidy t

  -- Let the classes and values of some events be among those of a program whose classes are closed under
  -- what explorations come to; let the state be in order and what the abstract tracer's state says, the
  -- session connected, each fiber have one stack, and the traces on the stacks and in the queue be
  -- different traces whose blocks have no calls, those in the queue fit to be sent. Then the events,
  -- rescues and unmatched returns among them, end without undefined behaviour in such a state again,
  -- which the abstract tracer may get to: no trace is on two stacks, twice on one, or on one and in the
  -- queue, none is twice in the queue, and those in the queue are fit to be sent.
  pub process_events-Comes :
      (es : List Event) (s : State) (a : Tracer)
      → All (IsProper vm classes IsObject f levels) es
      → Models classes f levels s a
      → Tidy s
      → Ensures (λ _ t. Comes es a t) (process_events vm f levels es s)
  unfolding process_events
  process_events-Comes [] s a proper models tidy =
      holds (record { tracer = a; run = done refl; models = models; tidy = tidy })
  process_events-Comes (e ∷ es) s a (first, proper) models tidy =
      Ensures-bind _
        (Ensures-both (process_event-Step vm classes IsObject f levels world e s a first models)
          (process_event-Tidy e s first models.good tidy))
        λ _ t ((b, first_step, models'), tidy').
          Ensures-mono (process_events-Comes es t b proper models' tidy') λ _ u comes. record {
            tracer = comes.tracer;
            run = step first_step comes.run;
            models = comes.models;
            tidy = comes.tidy;
          }
