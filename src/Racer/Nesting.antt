-- ===== src/Racer/Nesting.antt =====
-- ext/racer/racer.cc, process_block_call_event and process_block_return_event: calls of blocks inside
-- of the call of a traced block.
use mathlib.Core.Path.{subst}
use racer_rb.Base.{
  ℕ, ◌<◌, ◌≡◌, refl, sym, ap, ◌∙◌, false, Option, none, some, List, [], ◌∷◌, ◌==◌, arith,
}
use racer_rb.Traces.{Ptr, BlockParameter, ReturnTrace}
use racer_rb.Racer.State.{
  RubyValue, Vm, State, M, pure, ◌>>◌, and_then, update, read_trace, write_trace,
}
use racer_rb.Racer.Blocks.{
  BlockCall, with_block, new_block_call, call_block, process_block_call_event, finish_block_call,
  return_from_block, process_block_return_event,
}
use racer_rb.Racer.Ensures.{Ensures, holds, Ensures-bind, Ensures-mono}
use racer_rb.Racer.Closed.{IsClosed, AreObjects}
use racer_rb.Racer.Known.{Ready}
use racer_rb.Racer.Types.{IsType, value_to_instance-IsType}

-- Calls of blocks, one after another: each is a call, the calls inside of it, and the value returned.
pub data Calls : Type 0 where
  no_calls : Calls
  call : BlockCall → Calls → RubyValue → Calls → Calls

-- The trace at `p` has a block, which stands as `b` says.
pub record HasBlock (p : Ptr) (b : BlockParameter) (s : State) : Type 0 where
  pub trace : ReturnTrace
  pub here : s.heap p ≡ some trace
  pub block : trace.block_param ≡ some b

-- `t` differs from `s` at most in the trace at `p`.
pub record OnlyAt (p : Ptr) (s t : State) : Type 0 where
  pub frame : t ≡ record s { heap = t.heap }
  pub others : (q : Ptr) → (q == p) ≡ false → t.heap q ≡ s.heap q

OnlyAt-trans : {p : Ptr} {s t u : State} → OnlyAt p s t → OnlyAt p t u → OnlyAt p s u
OnlyAt-trans {p} {s} {t} {u} a b = record {
  frame = b.frame ∙ ap {A = State} (λ r. record r { heap = u.heap }) a.frame;
  others = λ q other. b.others q other ∙ a.others q other;
}

-- A block whose call stack is `calls`, and none of whose calls is complete.
abbrev pub unfinished : BlockParameter → List (Option Ptr) → BlockParameter
unfinished b calls = record b { block_traces = []; current_block_call_stack = calls }

module _ (vm : Vm) (f levels : ℕ) (p : Ptr) where
  -- The events of the calls, in order, all of them on the block of the trace at `p`.
  unfoldable pub run : Calls → M (Unit {0})
  unfolding process_block_call_event process_block_return_event
  run no_calls = pure tt
  run (call e inner value later) = do
    process_block_call_event vm f levels p e
    run inner
    process_block_return_event vm f levels p value
    run later

  -- What a block event leaves where it only changes the block's call stack.
  abbrev Leaves : BlockParameter → State → State → Type 0
  Leaves b s t = HasBlock p b t × OnlyAt p s t

  put_block-Leaves :
      (b : BlockParameter) (trace : ReturnTrace) (s : State)
      → Leaves b s (record s { heap = update s.heap p (some (with_block b trace)) })
  put_block-Leaves b trace s = (
    record { trace = with_block b trace; here = ground arith; block = refl },
    record { frame = refl; others = λ q other. rw other refl },
  )

  inner_call :
      (b : BlockParameter) (c : Option Ptr) (calls : List (Option Ptr)) (e : BlockCall) (s : State)
      → HasBlock p (unfinished b (c ∷ calls)) s
      → Ensures
          (λ _. Leaves (unfinished b (none ∷ c ∷ calls)) s)
          (process_block_call_event vm f levels p e s)
  unfolding process_block_call_event read_trace call_block new_block_call write_trace
  inner_call b c calls e s block =
      rw (process_block_call_event, read_trace, block.here, block.block)
        (holds (put_block-Leaves _ block.trace s))

  inner_return :
      (b : BlockParameter) (calls : List (Option Ptr)) (value : RubyValue) (s : State)
      → HasBlock p (unfinished b (none ∷ calls)) s
      → Ensures
          (λ _. Leaves (unfinished b calls) s)
          (process_block_return_event vm f levels p value s)
  unfolding process_block_return_event read_trace return_from_block finish_block_call write_trace
  inner_return b calls value s block =
      rw (process_block_return_event, read_trace, block.here, block.block)
        (holds (put_block-Leaves _ block.trace s))

  Leaves-then :
      {b b' : BlockParameter} {s : State} {r : Option (Unit {0} × State)}
      (k : Unit {0} → M (Unit {0}))
      → Ensures (λ _. Leaves b s) r
      → ((t : State) → HasBlock p b t → Ensures (λ _. Leaves b' t) (k tt t))
      → Ensures (λ _. Leaves b' s) (and_then r k)
  Leaves-then k first next = Ensures-bind k first λ _ t (block, only).
      Ensures-mono (next t block) λ _ u (block', only'). (block', OnlyAt-trans only only')

  run-Leaves :
      (inner : Calls) (b : BlockParameter) (c : Option Ptr) (calls : List (Option Ptr)) (s : State)
      → HasBlock p (unfinished b (c ∷ calls)) s
      → Ensures (λ _. Leaves (unfinished b (c ∷ calls)) s) (run inner s)
  unfolding run
  run-Leaves no_calls b c calls s block =
      holds (block, record { frame = refl; others = λ q other. refl })
  run-Leaves (call e inner value later) b c calls s block =
      Leaves-then _ (inner_call b c calls e s block) λ t block1.
        Leaves-then _ (run-Leaves inner b none (c ∷ calls) t block1) λ u block2.
          Leaves-then _ (inner_return b (c ∷ calls) value u block2)
            λ v block3. run-Leaves later b c calls v block3

-- The call at `q` of the block of the trace at `p` is complete.
pub record Completed (classes : List RubyValue) (f : ℕ) (p q : Ptr) (b : BlockParameter)
    (block_call : ReturnTrace) (s t : State) : Type 0 where
  pub block : HasBlock p (record b { block_traces = q ∷ []; current_block_call_stack = [] }) t
  pub trace : ReturnTrace
  pub here : t.heap q ≡ some trace
  pub same : trace ≡ record block_call { return_type = trace.return_type }
  pub return_type : IsType s.max_generic_depth 0 trace.return_type
  pub ready : Ready classes f t
  pub others : (r : Ptr) → (r == p) ≡ false → (r == q) ≡ false → t.heap r ≡ s.heap r

module _ (vm : Vm) (classes : List RubyValue) (IsObject : RubyValue → Type 0) (f levels : ℕ)
    (closed : IsClosed vm classes) (objects : AreObjects vm classes IsObject) where
  finish-Completed :
      (p q : Ptr) (b : BlockParameter) (last_trace block_call : ReturnTrace) (value : RubyValue)
      (s : State)
      → (q == p) ≡ false
      → s.heap q ≡ some block_call
      → IsObject value
      → Ready classes f s
      → s.max_generic_depth < levels
      → Ensures
          (λ _. Completed classes f p q b block_call s)
          (finish_block_call vm f levels p last_trace (unfinished b []) (some q) value s)
  unfolding finish_block_call read_trace write_trace
  finish-Completed p q b last_trace block_call value s other here object ready enough =
      let popped : State = record s {
        heap = update s.heap p (some (with_block (unfinished b []) last_trace));
      } in
      let read : read_trace q popped ≡ some (block_call, popped) =
        rw (read_trace, other, here) refl in
      let started : Ready classes f popped = record {
        known = record { named = ready.known.named; pending = ready.known.pending };
        fits = ready.fits;
      } in
      rw (finish_block_call, write_trace, read)
        (Ensures-bind _
          (value_to_instance-IsType vm classes IsObject f levels value 0 popped closed objects
            object started (omega arith) (omega (arith, enough)))
          λ i t (kept, typed). holds (record {
            block = record {
              trace =
                  with_block (record b { block_traces = q ∷ []; current_block_call_stack = [] })
                    last_trace;
              here = ground arith;
              block = refl;
            };
            trace = record block_call { return_type = i };
            here = rw other (ground arith);
            same = refl;
            return_type = typed;
            ready = record {
              known = record { named = kept.ready.known.named; pending = kept.ready.known.pending };
              fits = kept.ready.fits;
            };
            others = λ r p_other q_other.
                rw (p_other, q_other) (ap (λ u. u.heap r) kept.frame ∙ rw p_other refl);
          }))

  outer_return :
      (p q : Ptr) (b : BlockParameter) (block_call : ReturnTrace) (value : RubyValue) (s : State)
      → HasBlock p (unfinished b (some q ∷ [])) s
      → (q == p) ≡ false
      → s.heap q ≡ some block_call
      → IsObject value
      → Ready classes f s
      → s.max_generic_depth < levels
      → Ensures
          (λ _. Completed classes f p q b block_call s)
          (process_block_return_event vm f levels p value s)
  unfolding process_block_return_event read_trace return_from_block
  outer_return p q b block_call value s block other here object ready enough =
      rw (process_block_return_event, read_trace, return_from_block, block.here, block.block)
        (finish-Completed p q b
          (record block.trace { block_param = some (unfinished b (some q ∷ [])) }) block_call value
          s other here object ready enough)

  -- Let `classes` be closed under what explorations come to and hold the classes of some objects, of
  -- which the returned value is one; let the constants be in order, fewer than `f` of the classes be
  -- unexplored, and `levels` be more than the maximal depth. Let the block of the trace at `p` be in its
  -- first call, recorded at another address `q`, with no block trace. Whatever calls then begin and end
  -- inside of it, its return makes it the one block trace of the block and leaves no call on the
  -- block's stack. The block trace has a complete return type within the maximal depth and is else
  -- unchanged, and so are all traces but those two.
  pub process_block_return-Completed :
      (inner : Calls) (p q : Ptr) (b : BlockParameter) (block_call : ReturnTrace)
      (value : RubyValue) (s : State)
      → HasBlock p (unfinished b (some q ∷ [])) s
      → (q == p) ≡ false
      → s.heap q ≡ some block_call
      → IsObject value
      → Ready classes f s
      → s.max_generic_depth < levels
      → Ensures
          (λ _. Completed classes f p q b block_call s)
          ((run vm f levels p inner >> process_block_return_event vm f levels p value) s)
  process_block_return-Completed inner p q b block_call value s block other here object ready
        enough =
      Ensures-bind _ (run-Leaves vm f levels p inner b (some q) [] s block) λ _ t (block', only).
        let depth : t.max_generic_depth ≡ s.max_generic_depth =
          ap (λ r. r.max_generic_depth) only.frame in
        let ready' : Ready classes f t = subst (Ready classes f) (sym only.frame) (record {
          known = record { named = ready.known.named; pending = ready.known.pending };
          fits = ready.fits;
        }) in
        Ensures-mono
          (outer_return p q b block_call value t block' other (only.others q other ∙ here) object
            ready' (omega (arith, depth, enough)))
          λ _ u done. record {
            block = done.block;
            trace = done.trace;
            here = done.here;
            same = done.same;
            return_type = subst (λ n. IsType n 0 done.trace.return_type) depth done.return_type;
            ready = done.ready;
            others = λ r p_other q_other. done.others r p_other q_other ∙ only.others r p_other;
          }
