-- ===== src/Racer/Stops.antt =====
-- ext/racer/racer.cc, stop and flush_end: what becomes of the traces that are still on a stack.
use racer_rb.Base.{ℕ, ◌≡◌, refl, sym, ap, ◌∙◌, Bool, true, Option, none, some, List, [], ◌∷◌, ◌++◌}
use racer_rb.Traces.{Ptr, ReturnTrace}
use racer_rb.Racer.State.{
  connected, closed, stop_message, State, M, and_then, ◌>>=◌, ◌>>◌, read_trace,
}
use racer_rb.Racer.Free.{free_trace}
use racer_rb.Racer.Calls.{disable_block}
use racer_rb.Racer.Ensures.{Ensures, holds, Ensures-bind}
use racer_rb.Racer.Session.{disable, stop_stack, stop_stacks, stop, flush_end}
use racer_rb.Racer.Owned.{without_all, AreDistinct, Owns}
use racer_rb.Racer.Ownership.{and_then-cong, and_then_assoc}
use racer_rb.Racer.Releases.{all_stacks, HaveMade, HaveDisabled, stop_stack-Released}

module _ (f : ℕ) where
  -- What is done with one trace of a stack.
  abbrev stop_one : Ptr → M (Unit {0})
  stop_one p = do trace ← read_trace p; disable_block trace.block_param; free_trace f p

  stop_stack-one :
      (p : Ptr) (ps : List Ptr) (s : State)
      → stop_stack f (p ∷ ps) s ≡ and_then (stop_one p s) (λ _. stop_stack f ps)
  unfolding stop_stack
  stop_stack-one p ps s = with_trace (read_trace p s)
    where
      with_trace :
          (o : Option (ReturnTrace × State))
          → and_then o
              (λ trace. disable_block trace.block_param >> (free_trace f p >> stop_stack f ps))
            ≡ and_then
                (and_then o (λ trace. disable_block trace.block_param >> free_trace f p))
                (λ _. stop_stack f ps)
      with_trace none = refl
      with_trace (some (trace, t)) =
          and_then_assoc (disable_block trace.block_param t) (free_trace f p) (stop_stack f ps)

  stop_stack-append :
      (xs ys : List Ptr) (s : State)
      → stop_stack f (xs ++ ys) s ≡ (stop_stack f xs >> stop_stack f ys) s
  unfolding stop_stack
  stop_stack-append [] ys s = refl
  stop_stack-append (x ∷ xs) ys s =
      stop_stack-one x (xs ++ ys) s
      ∙ and_then-cong (stop_one x s) (stop_stack f (xs ++ ys)) (stop_stack f xs >> stop_stack f ys)
          (stop_stack-append xs ys)
      ∙ and_then_assoc (stop_one x s) (stop_stack f xs) (stop_stack f ys)
      ∙ ap (λ o. and_then o (λ _. stop_stack f ys)) (sym (stop_stack-one x xs s))

  stop_stacks-all_stacks :
      (stacks : List (ℕ × List Ptr)) (s : State)
      → stop_stacks f stacks s ≡ stop_stack f (all_stacks stacks) s
  unfolding stop_stack stop_stacks
  stop_stacks-all_stacks [] s = refl
  stop_stacks-all_stacks ((fiber, stack) ∷ stacks) s =
      and_then-cong (stop_stack f stack s) (stop_stacks f stacks) (stop_stack f (all_stacks stacks))
        (stop_stacks-all_stacks stacks)
      ∙ sym (stop_stack-append stack (all_stacks stacks) s)

-- What `stop` comes to where the stacks own the traces at `ps`.
pub record Stopped (ps : List Ptr) (s t : State) : Type 0 where
  pub heap : t.heap ≡ without_all ps s.heap
  pub stacks : t.call_stacks ≡ []
  pub off : (t.tp_call ≡ some true) → ⊥
  pub disabled : HaveDisabled s.heap t.block_tracepoints (all_stacks s.call_stacks)
  pub frame : t ≡ record s {
    tp_call = t.tp_call;
    call_stacks = t.call_stacks;
    heap = t.heap;
    block_tracepoints = t.block_tracepoints;
  }

-- The traces on the stacks own those at `ps`, none twice, and their tracepoints were made.
pub record AreOwned (f : ℕ) (ps : List Ptr) (s : State) : Type 0 where
  pub owns : Owns s.heap f (all_stacks s.call_stacks) ps
  pub distinct : AreDistinct ps
  pub made : HaveMade s.heap s.block_tracepoints (all_stacks s.call_stacks)

pub stop-Stopped :
    (f : ℕ) (ps : List Ptr) (s : State)
    → AreOwned f ps s
    → Ensures (λ _ t. Stopped ps s t) (stop f s)
unfolding stop
stop-Stopped f ps s owned = rw (stop_stacks-all_stacks) (
    Ensures-bind _
      (stop_stack-Released s.heap f (all_stacks s.call_stacks) ps
        (record s { tp_call = disable s.tp_call }) owned.owns owned.distinct (λ q e. refl)
        owned.made)
      λ _ t released. holds (record {
        heap = released.heap;
        stacks = refl;
        off = λ e. not_on s.tp_call (sym (ap (λ (r : State). r.tp_call) released.frame) ∙ e);
        disabled = released.disabled;
        frame =
            ap
              (λ (r : State). record r {
                tp_call = t.tp_call;
                call_stacks = [];
                heap = t.heap;
                block_tracepoints = t.block_tracepoints;
              })
              released.frame;
      }))
  where
    not_on : (o : Option Bool) → disable o ≡ some true → ⊥
    not_on none e = cc
    not_on (some b) e = cc

-- What `flush_end` comes to where the stacks own the traces at `ps`; a second one does nothing.
pub record Flushed (f : ℕ) (ps : List Ptr) (s t : State) : Type 0 where
  pub heap : t.heap ≡ without_all ps s.heap
  pub stacks : t.call_stacks ≡ []
  pub tp_call : t.tp_call ≡ none
  pub disabled : HaveDisabled s.heap t.block_tracepoints (all_stacks s.call_stacks)
  pub pushed : t.pushed ≡ s.pushed ++ stop_message ∷ []
  pub socket : t.socket ≡ closed
  pub again : flush_end f t ≡ some (tt, t)
  pub frame : t ≡ record s {
    tp_call = none;
    socket = closed;
    call_stacks = [];
    heap = t.heap;
    block_tracepoints = t.block_tracepoints;
    pushed = t.pushed;
  }

-- Let the connection to the agent be there. Let the traces on the stacks own, with the block traces and
-- the calls of blocks that they hold, and those in turn hold, the traces at `ps`, none of them twice,
-- and let the tracepoints of their blocks be made. Then the end of the session frees the traces at `ps`,
-- each once, and no other; the stacks are empty, the tracepoints of the blocks are not enabled, nor is
-- that of the session; the queue gains one message, the last, and the connection is closed. Nothing
-- else changes, and a second end of the session does nothing.
pub flush_end-Flushed :
    (f : ℕ) (ps : List Ptr) (s : State)
    → s.socket ≡ connected
    → AreOwned f ps s
    → Ensures (λ _ t. Flushed f ps s t) (flush_end f s)
unfolding flush_end
flush_end-Flushed f ps s there owned =
    rw (flush_end, there)
      (Ensures-bind _ (stop-Stopped f ps s owned) λ _ t stopped. holds (record {
        heap = stopped.heap;
        stacks = stopped.stacks;
        tp_call = refl;
        disabled = stopped.disabled;
        pushed = ap (λ (r : State). r.pushed ++ stop_message ∷ []) stopped.frame;
        socket = refl;
        again = refl;
        frame =
            ap
              (λ (r : State). record r {
                tp_call = none;
                socket = closed;
                pushed = t.pushed ++ stop_message ∷ [];
              })
              stopped.frame
            ∙ ap
                (λ stacks. record s {
                  tp_call = none;
                  socket = closed;
                  call_stacks = stacks;
                  heap = t.heap;
                  block_tracepoints = t.block_tracepoints;
                  pushed = t.pushed ++ stop_message ∷ [];
                })
                stopped.stacks;
      }))
