-- ===== src/Protocol/TidySteps.antt =====
-- ext/racer/racer.cc, process_call_event, process_return_event and process_rescued_event: each keeps the
-- traces on the stacks and in the queue apart.
use mathlib.Core.Path.{subst}
use racer_rb.Base.{
  ℕ, ◌≡◌, sym, ap, ◌∙◌, ◌⊎◌, Bool, true, false, none, some, ◌∷◌, ◌==◌, if◌then◌else◌, All, has,
  lookup, insert, some_same, arith, Bool-cases, inl, inr,
}
use racer_rb.Traces.{Ptr, ReturnTrace}
use racer_rb.Protocol.Queued.{addresses}
use racer_rb.Protocol.Tidy.{
  keys_of, insert-AreDistinct, IsUncalled, stack_at, IsSettled, Tidy, All-has, settled_there,
  IsSettled-apart, stack_at-insert,
}
use racer_rb.Racer.State.{State}
use racer_rb.Racer.Owned.{AreDistinct}
use racer_rb.Racer.Stacks.{Stands, Stands-old, stack_of}
use racer_rb.Racer.Models.{differ}

module _ (s t : State) (tidy : Tidy s) where
  -- The stacks and the queue are as they were, and so is each trace in the queue, and the block of each
  -- trace on a stack.
  pub same-Tidy :
      t.socket ≡ s.socket
      → t.call_stacks ≡ s.call_stacks
      → t.pushed ≡ s.pushed
      → All (IsSettled t.heap) tidy.queue
      → ((fiber : ℕ) (p : Ptr) (later : ReturnTrace)
          → has p (stack_at s fiber) ≡ true
          → t.heap p ≡ some later
          → (t' : ReturnTrace) × (s.heap p ≡ some t') × (later.block_param ≡ t'.block_param))
      → Tidy t
  same-Tidy socket stacks pushed settled blocks =
      let at = λ (k : ℕ). ap (λ m. stack_of (lookup k m)) stacks in
      let old = λ (k : ℕ) (p : Ptr) (e : has p (stack_at t k) ≡ true).
        subst (λ ps. has p ps ≡ true) (at k) e in
      record {
        queue = tidy.queue;
        socket = socket ∙ tidy.socket;
        keys = subst (λ m. AreDistinct (keys_of m)) (sym stacks) tidy.keys;
        pushed = pushed ∙ tidy.pushed;
        settled = settled;
        sent_once = tidy.sent_once;
        distinct = λ k. subst AreDistinct (sym (at k)) (tidy.distinct k);
        apart = λ k j p e e'. tidy.apart k j p (old k p e) (old j p e');
        unsent = λ k p e. tidy.unsent k p (old k p e);
        uncalled = λ k p later e there.
            let (before, here, same) = blocks k p later (old k p e) there in
            subst IsUncalled (sym same) (tidy.uncalled k p before (old k p e) here);
      }

  -- What is on a stack after a new trace is put on one.
  on_pushed :
      (fiber : ℕ) (new : Ptr)
      → t.call_stacks ≡ insert fiber (new ∷ stack_at s fiber) s.call_stacks
      → (k : ℕ) (p : Ptr) → has p (stack_at t k) ≡ true
      → ((k ≡ fiber) × (p ≡ new)) ⊎ (has p (stack_at s k) ≡ true)
  unfolding has
  on_pushed fiber new stacks k p e =
      let e' =
        subst (λ ps. has p ps ≡ true) (stack_at-insert s t fiber (new ∷ stack_at s fiber) stacks k)
          e in
      elim (Bool-cases (fiber == k)) [
        | inr other ↦ inr (rw other at e')
        | inl same ↦
            let is : fiber ≡ k = ground (arith, same) in
            elim (Bool-cases (new == p)) [
              | inl here ↦ inl (sym is, ground (arith, here))
              | inr other ↦
                  let e'' : has p (new ∷ stack_at s fiber) ≡ true = rw same at e' in
                  inr (subst (λ j. has p (stack_at s j) ≡ true) is (rw other at e''))
            ]
      ]

  -- A new trace is put on a stack.
  module _ (fiber : ℕ) (trace : ReturnTrace) (new : s.heap s.next_trace ≡ none)
      (stands : (k : ℕ) → All (Stands s) (stack_at s k))
      (stacks : t.call_stacks ≡ insert fiber (s.next_trace ∷ stack_at s fiber) s.call_stacks)
      (socket : t.socket ≡ s.socket) (pushed : t.pushed ≡ s.pushed)
      (here : t.heap s.next_trace ≡ some trace)
      (others : (q : Ptr) → (q == s.next_trace) ≡ false → t.heap q ≡ s.heap q)
      (fresh : IsUncalled trace.block_param) where
    -- The new trace is on no stack and not in the queue.
    old_differs : (k : ℕ) (p : Ptr) → has p (stack_at s k) ≡ true → (p == s.next_trace) ≡ false
    old_differs k p e = Stands-old s p new (All-has (Stands s) (stack_at s k) p (stands k) e)

    new_unqueued : has s.next_trace (addresses tidy.queue) ≡ false
    new_unqueued = elim (Bool-cases (has s.next_trace (addresses tidy.queue))) [
      | inl e ↦
          let (found, there) = settled_there s.heap tidy.queue s.next_trace tidy.settled e in
          absurd (differ (s.heap s.next_trace) found new there)
      | inr e ↦ e
    ]

    new_unstacked : (k : ℕ) → has s.next_trace (stack_at s k) ≡ false
    new_unstacked k = elim (Bool-cases (has s.next_trace (stack_at s k))) [
      | inl e ↦ absurd (ground (arith, old_differs k s.next_trace e))
      | inr e ↦ e
    ]

    pushed_distinct :
        (k : ℕ) (b : Bool)
        → AreDistinct (if b then s.next_trace ∷ stack_at s fiber else stack_at s k)
    pushed_distinct k true = (new_unstacked fiber, tidy.distinct fiber)
    pushed_distinct k false = tidy.distinct k

    pushed-apart :
        (k j : ℕ) (p : Ptr)
        → ((k ≡ fiber) × (p ≡ s.next_trace)) ⊎ (has p (stack_at s k) ≡ true)
        → ((j ≡ fiber) × (p ≡ s.next_trace)) ⊎ (has p (stack_at s j) ≡ true)
        → k ≡ j
    pushed-apart k j p (inl (at_k, is)) (inl (at_j, is')) = at_k ∙ sym at_j
    pushed-apart k j p (inl (at_k, is)) (inr e) = absurd (ground (arith, is, old_differs j p e))
    pushed-apart k j p (inr e) (inl (at_j, is)) = absurd (ground (arith, is, old_differs k p e))
    pushed-apart k j p (inr e) (inr e') = tidy.apart k j p e e'

    pushed-unsent :
        (k : ℕ) (p : Ptr)
        → ((k ≡ fiber) × (p ≡ s.next_trace)) ⊎ (has p (stack_at s k) ≡ true)
        → has p (addresses tidy.queue) ≡ false
    pushed-unsent k p (inl (at_k, is)) =
        subst (λ q. has q (addresses tidy.queue) ≡ false) (sym is) new_unqueued
    pushed-unsent k p (inr e) = tidy.unsent k p e

    pushed-IsUncalled :
        (k : ℕ) (p : Ptr) (found : ReturnTrace)
        → t.heap p ≡ some found
        → ((k ≡ fiber) × (p ≡ s.next_trace)) ⊎ (has p (stack_at s k) ≡ true)
        → IsUncalled found.block_param
    pushed-IsUncalled k p found there (inl (at_k, is)) =
        subst (λ (r : ReturnTrace). IsUncalled r.block_param)
          (some_same (t.heap s.next_trace) here (subst (λ q. t.heap q ≡ some found) is there)) fresh
    pushed-IsUncalled k p found there (inr e) =
        tidy.uncalled k p found e (sym (others p (old_differs k p e)) ∙ there)

    pub pushed-Tidy : Tidy t
    pushed-Tidy =
        let on = on_pushed fiber s.next_trace stacks in
        record {
          queue = tidy.queue;
          socket = socket ∙ tidy.socket;
          keys =
              subst (λ m. AreDistinct (keys_of m)) (sym stacks)
                (insert-AreDistinct fiber (s.next_trace ∷ stack_at s fiber) s.call_stacks
                  tidy.keys);
          pushed = pushed ∙ tidy.pushed;
          settled =
              IsSettled-apart s.heap t.heap s.next_trace tidy.queue others new_unqueued
                tidy.settled;
          sent_once = tidy.sent_once;
          distinct = λ k.
              subst AreDistinct
                (sym (stack_at-insert s t fiber (s.next_trace ∷ stack_at s fiber) stacks k))
                (pushed_distinct k (fiber == k));
          apart = λ k j p e e'. pushed-apart k j p (on k p e) (on j p e');
          unsent = λ k p e. pushed-unsent k p (on k p e);
          uncalled = λ k p found e there. pushed-IsUncalled k p found there (on k p e);
        }
