-- ===== src/Protocol/Queued.antt =====
-- ext/racer/worker.cc, init_worker: the traces that wait in the queue.
use mathlib.Core.Path.{subst}
use racer_rb.Base.{ℕ, zero, suc, ◌≤◌, ◌≡◌, ◌∙◌, Option, none, some, List, [], ◌∷◌, ◌++◌, some_same}
use racer_rb.Traces.{Ptr, BlockParameter, ReturnTrace, Heap}
use racer_rb.Agent.Trace.{
  RubyBlockParam, no_block, block, RubyBlockTraces, no_traces, block_trace, RubyTrace,
}
use racer_rb.Protocol.Tokens.{block_param_depth}
use racer_rb.Protocol.Views.{IsBlock, AreTraces, IsSendable, view_trace}
use racer_rb.Racer.State.{Message, trace_message}
use racer_rb.Racer.Owned.{children, somes, Owns, trace_and, has-left, has-middle, has-after}
use racer_rb.Racer.Ownership.{Agrees}

mutual
  unfolding IsBlock

  IsBlock-Owns :
      (h k : Heap) (f : ℕ) (b : RubyBlockParam) (o : Option BlockParameter) (os : List Ptr)
      → Owns h f (children o) os
      → Agrees h k os
      → IsBlock h b o
      → IsBlock k b o
  IsBlock-Owns h k f no_block none os owns agrees is = tt
  IsBlock-Owns h k f no_block (some b) os owns agrees is = absurd is
  IsBlock-Owns h k f (block name ts) none os owns agrees is = absurd is
  IsBlock-Owns h k f (block name ts) (some b) os owns agrees (named, are) = (
    named,
    AreTraces-Owns h k f ts b.block_traces (somes b.current_block_call_stack) os owns agrees are,
  )

  AreTraces-Owns :
      (h k : Heap) (f : ℕ) (ts : RubyBlockTraces) (ps qs os : List Ptr)
      → Owns h f (ps ++ qs) os
      → Agrees h k os
      → AreTraces h ts ps
      → AreTraces k ts ps
  AreTraces-Owns h k f no_traces [] qs os owns agrees are = tt
  AreTraces-Owns h k f no_traces (p ∷ ps) qs os owns agrees are = absurd are
  AreTraces-Owns h k f (block_trace s r rs b ts) [] qs os owns agrees are = absurd are
  AreTraces-Owns h k zero (block_trace s r rs b ts) (p ∷ ps) qs os owns agrees are = elim owns [ ]
  AreTraces-Owns h k (suc f) (block_trace s r rs b ts) (p ∷ ps) qs _
        (trace_and {t = u} {ps = mine} {rs = rest} here owns others) agrees (t, e, is, isb, are) =
      let same : u ≡ t = some_same (h p) here e in
      (
        t,
        agrees p (has-middle p mine rest) ∙ e,
        is,
        IsBlock-Owns h k f b t.block_param mine
            (subst (λ (v : ReturnTrace). Owns h f (children v.block_param) mine) same owns)
            (λ q e'. agrees q (has-left q mine (p ∷ rest) e')) isb,
        AreTraces-Owns h k (suc f) ts ps qs rest others
            (λ q e'. agrees q (has-after q p mine rest e')) are,
      )

-- A trace in the queue, with its block as the agent is to see it.
pub record Queued : Type 0 where
  pub address : Ptr
  pub trace : ReturnTrace
  pub block : RubyBlockParam

abbrev pub view : Queued → RubyTrace
view q = view_trace q.trace q.block

abbrev pub addresses : List Queued → List Ptr
addresses [] = []
addresses (q ∷ qs) = q.address ∷ addresses qs

abbrev pub messages_of : List Queued → List Message
messages_of [] = []
messages_of (q ∷ qs) = trace_message q.address ∷ messages_of qs

-- The trace is there and can be sent.
pub record IsQueued (h : Heap) (g : ℕ) (q : Queued) : Type 0 where
  pub here : h q.address ≡ some q.trace
  pub sendable : IsSendable h q.block q.trace
  pub depth : block_param_depth q.block ≤ g

-- It can be sent from another heap where what it owns is the same.
pub IsQueued-Owns :
    (h k : Heap) (f g : ℕ) (q : Queued) (os : List Ptr)
    → Owns h f (children (ReturnTrace.block_param (Queued.trace q))) os
    → Agrees h k os
    → k (Queued.address q) ≡ h (Queued.address q)
    → IsQueued h g q
    → IsQueued k g q
IsQueued-Owns h k f g q os owns agrees there is = record {
  here = there ∙ is.here;
  sendable = record {
    method_name = is.sendable.method_name;
    return_type = is.sendable.return_type;
    method_owner = is.sendable.method_owner;
    method_callee = is.sendable.method_callee;
    constant_updates = is.sendable.constant_updates;
    params = is.sendable.params;
    block_param =
        IsBlock-Owns h k f q.block q.trace.block_param os owns agrees is.sendable.block_param;
  };
  depth = is.depth;
}
