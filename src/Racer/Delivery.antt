-- ===== src/Racer/Delivery.antt =====
-- ext/racer/racer.cc, process_return_event, with ext/racer/worker.cc and lib/racer/agent.rb: the way of a
-- trace from the return of its method to the agent.
use mathlib.Core.Path.{subst}
use racer_rb.Base.{
  ℕ, ◌≤◌, ◌<◌, ◌≡◌, sym, ◌∙◌, false, Option, none, some, List, [], ◌∷◌, ◌++◌, ◌==◌, String,
  if◌then◌else◌, All, lookup, Bool-cases, inl, inr,
}
use racer_rb.Traces.{CString, Ptr, BlockParameter, ReturnTrace, Heap}
use racer_rb.Json.{JsonLib}
use racer_rb.Worker.Loop.{message_text}
use racer_rb.Agent.Trace.{RubyBlockParam, no_block, block, RubyBlockTraces, no_traces, block_trace}
use racer_rb.Agent.Shift.{ok, receive}
use racer_rb.Protocol.Tokens.{block_param_depth}
use racer_rb.Protocol.Views.{
  HasName, IsComplete, IsNamedConstant, IsCompleteParam, IsCompleteCallee, IsBlock, AreTraces,
  IsSendable, view_trace,
}
use racer_rb.Protocol.RoundTrip.{receive-message_text}
use racer_rb.Racer.State.{RubyValue, Vm, trace_message, State}
use racer_rb.Racer.Calls.{ReturnEvent, process_return_event}
use racer_rb.Racer.Ensures.{Ensures, Ensures-mono}
use racer_rb.Racer.Closed.{IsClosed, AreObjects}
use racer_rb.Racer.Known.{Ready}
use racer_rb.Racer.Returns.{IsMade, Sent, process_return_event-Sent}

-- The traces other than that at `p`.
abbrev pub without : Ptr → Heap → Heap
without p h q = if q == p then none else h q

-- All of a trace that is to be sent but its return type; its block traces are not the trace itself.
pub record IsReturnable (h : Heap) (p : Ptr) (b : RubyBlockParam) (t : ReturnTrace) : Type 0 where
  pub method_owner : IsComplete t.method_owner
  pub method_callee : IsCompleteCallee t.method_callee
  pub constant_updates : All IsNamedConstant t.constant_updates
  pub params : All IsCompleteParam t.params
  pub block_param : IsBlock (without p h) b t.block_param

-- What is found on one heap is found on the other.
abbrev Extends : Heap → Heap → Type 0
Extends h k = (q : Ptr) (t : ReturnTrace) → h q ≡ some t → k q ≡ some t

mutual
  unfolding IsBlock

  IsBlock-mono :
      (h k : Heap) (extends : Extends h k) (b : RubyBlockParam) (o : Option BlockParameter)
      → IsBlock h b o
      → IsBlock k b o
  IsBlock-mono h k extends no_block none is = tt
  IsBlock-mono h k extends no_block (some b) is = absurd is
  IsBlock-mono h k extends (block name ts) none is = absurd is
  IsBlock-mono h k extends (block name ts) (some b) (named, are) =
      (named, AreTraces-mono h k extends ts b.block_traces are)

  AreTraces-mono :
      (h k : Heap) (extends : Extends h k) (ts : RubyBlockTraces) (ps : List Ptr)
      → AreTraces h ts ps
      → AreTraces k ts ps
  AreTraces-mono h k extends no_traces [] are = tt
  AreTraces-mono h k extends no_traces (p ∷ qs) are = absurd are
  AreTraces-mono h k extends (block_trace s r ps b ts) [] are = absurd are
  AreTraces-mono h k extends (block_trace s r ps b ts) (p ∷ qs) (t, e, is, isb, are) = (
    t,
    extends p t e,
    is,
    IsBlock-mono h k extends b t.block_param isb,
    AreTraces-mono h k extends ts qs are,
  )

without-Extends :
    (p : Ptr) (h k : Heap) → ((q : Ptr) → (q == p) ≡ false → k q ≡ h q) → Extends (without p h) k
without-Extends p h k others q t e = elim (Bool-cases (q == p)) [
  | inl same ↦ absurd (none_is_not_some t (rw same at e))
  | inr other ↦ others q other ∙ (rw other at e)
]
  where
    none_is_not_some : (t : ReturnTrace) → none ≡ some t → ⊥
    none_is_not_some t e = cc

pub Sent-IsSendable :
    (classes : List RubyValue) (f : ℕ) (p : Ptr) (b : RubyBlockParam) (trace : ReturnTrace)
    (s t : State)
    → HasName trace.method_name
    → IsReturnable s.heap p b trace
    → (sent : Sent classes f p trace s t) → IsSendable t.heap b sent.sent
Sent-IsSendable classes f p b trace s t named is done =
    subst (IsSendable t.heap b) (sym done.same) (record {
      method_name = named;
      return_type = done.return_type.complete;
      method_owner = is.method_owner;
      method_callee = is.method_callee;
      constant_updates = done.updates;
      params = is.params;
      block_param =
          IsBlock-mono (without p s.heap) t.heap (without-Extends p s.heap t.heap done.others) b
            trace.block_param is.block_param;
    })

-- The queue has gained the trace at `p`, and the agent makes of its message what the trace is.
pub record Delivered (J : JsonLib) (g : ℕ) (p : Ptr) (b : RubyBlockParam) (trace : ReturnTrace)
    (s t : State) : Type 0 where
  pub pushed : t.pushed ≡ s.pushed ++ trace_message p ∷ []
  pub sent : ReturnTrace
  pub here : t.heap p ≡ some sent
  pub same :
      sent
      ≡ record trace { return_type = sent.return_type; constant_updates = sent.constant_updates }
  pub received :
      (text : JsonLib.Text J) × (message_text J t.heap g sent ≡ some text)
      × (receive J text ≡ ok (view_trace sent b, []))

HasName-some : (name : CString) (n : String) → name ≡ some n → HasName name
HasName-some none n e = cc
HasName-some (some m) n e = tt

-- Let `classes` be closed under what explorations come to and hold the classes of some objects, of
-- which the returned value is one; let the constants be in order, fewer than `f` of the classes be
-- unexplored, and `levels` be more than the maximal depth. Let the trace on top of the fiber's
-- stack be of the method that returns; let its block's tracepoint be made, all its types but the
-- return type be complete, its constants have names, and its block traces be other traces,
-- complete, and nested no deeper than `g`. Then the return ends without undefined behaviour, the
-- queue gains the trace, which differs from before in its return type and its constants alone, and
-- from the heap that is left the worker forms a message of it, which the agent reads as that trace,
-- with no value left over.
pub process_return_event-receive :
    (J : JsonLib) (vm : Vm) (classes : List RubyValue) (IsObject : RubyValue → Type 0)
    (f levels g : ℕ) (e : ReturnEvent) (s : State) (top : Ptr) (below : List Ptr)
    (trace : ReturnTrace) (b : RubyBlockParam)
    → IsClosed vm classes
    → AreObjects vm classes IsObject
    → IsObject e.return_value
    → Ready classes f s
    → s.max_generic_depth < levels
    → lookup e.fiber s.call_stacks ≡ some (top ∷ below)
    → s.heap top ≡ some trace
    → trace.method_name ≡ some e.method_name
    → IsMade s.block_tracepoints trace.block_param
    → IsReturnable s.heap top b trace
    → block_param_depth b ≤ g
    → Ensures (λ _. Delivered J g top b trace s) (process_return_event vm f levels e s)
process_return_event-receive J vm classes IsObject f levels g e s top below trace b closed objects
      object ready enough stack here name made is depth =
    Ensures-mono
      (process_return_event-Sent vm classes IsObject f levels closed objects e s top below trace
        object ready enough stack here name made is.constant_updates)
      λ _ t done. record {
        pushed = done.pushed;
        sent = done.sent;
        here = done.here;
        same = done.same;
        received = receive-message_text J t.heap b g done.sent depth (
            Sent-IsSendable classes f top b trace _ t
              (HasName-some trace.method_name e.method_name name)
              (record {
                method_owner = is.method_owner;
                method_callee = is.method_callee;
                constant_updates = is.constant_updates;
                params = is.params;
                block_param = is.block_param;
              })
              done);
      }
