-- ===== src/Protocol/TidyReturns.antt =====
-- ext/racer/racer.cc, process_return_event: a trace goes from its stack to the queue.
use mathlib.Core.Path.{subst}
use racer_rb.Base.{
  ℕ, ◌≡◌, refl, sym, ap, ◌∙◌, Bool, true, false, some, List, [], ◌∷◌, ◌++◌, ◌==◌, if◌then◌else◌,
  All-append, has, lookup, insert, arith, Bool-cases, inl, inr,
}
use racer_rb.Traces.{Ptr}
use racer_rb.Protocol.Queued.{Queued, addresses, messages_of}
use racer_rb.Protocol.Tidy.{
  keys_of, insert-AreDistinct, stack_at, IsSettled, Tidy, IsSettled-apart, stack_at-insert,
}
use racer_rb.Racer.State.{trace_message, State}
use racer_rb.Racer.Owned.{AreDistinct, has-append}
use racer_rb.Racer.Stacks.{stack_of}

addresses-append_one :
    (xs : List Queued) (q : Queued)
    → addresses (xs ++ q ∷ []) ≡ addresses xs ++ Queued.address q ∷ []
addresses-append_one [] q = refl
addresses-append_one (x ∷ xs) q = ap (λ ps. Queued.address x ∷ ps) (addresses-append_one xs q)

messages_of-append_one :
    (xs : List Queued) (q : Queued)
    → messages_of xs ++ trace_message (Queued.address q) ∷ [] ≡ messages_of (xs ++ q ∷ [])
messages_of-append_one [] q = refl
messages_of-append_one (x ∷ xs) q =
    ap (λ ms. trace_message (Queued.address x) ∷ ms) (messages_of-append_one xs q)

AreDistinct-append_one :
    (ps : List Ptr) (p : Ptr) → AreDistinct ps → has p ps ≡ false → AreDistinct (ps ++ p ∷ [])
unfolding has
AreDistinct-append_one [] p distinct new = (refl, tt)
AreDistinct-append_one (q ∷ ps) p (here, distinct) new = (
  rw (has-append q ps (p ∷ [])) (ground (arith, here, new)),
  AreDistinct-append_one ps p distinct (ground (arith, new)),
)

module _ (s t : State) (tidy : Tidy s) (fiber : ℕ) (below : List Ptr) (sent : Queued)
    (stack : lookup fiber s.call_stacks ≡ some (Queued.address sent ∷ below))
    (settled : IsSettled t.heap sent) (stacks : t.call_stacks ≡ insert fiber below s.call_stacks)
    (socket : t.socket ≡ s.socket)
    (pushed : t.pushed ≡ s.pushed ++ trace_message (Queued.address sent) ∷ [])
    (others : (q : Ptr) → (q == Queued.address sent) ≡ false → t.heap q ≡ s.heap q) where
  whole : stack_at s fiber ≡ Queued.address sent ∷ below
  whole = ap stack_of stack

  top_there : has (Queued.address sent) (stack_at s fiber) ≡ true
  unfolding has
  top_there = rw whole (ground arith)

  top_unsent : has (Queued.address sent) (addresses tidy.queue) ≡ false
  top_unsent = tidy.unsent fiber sent.address top_there

  -- What is on a stack was on it, and is not the trace that is sent.
  left_on :
      (k : ℕ) (p : Ptr)
      → has p (stack_at t k) ≡ true
      → (has p (stack_at s k) ≡ true) × ((p == Queued.address sent) ≡ false)
  unfolding has
  left_on k p e =
      let e' = subst (λ ps. has p ps ≡ true) (stack_at-insert s t fiber below stacks k) e in
      elim (Bool-cases (fiber == k)) [
        | inl same ↦
            let is : fiber ≡ k = ground (arith, same) in
            let in_below : has p below ≡ true = rw same at e' in
            let (new, distinct) = subst AreDistinct whole (tidy.distinct fiber) in
            let on : has p (stack_at s fiber) ≡ true = rw whole (ground (arith, in_below)) in
            (
              subst (λ j. has p (stack_at s j) ≡ true) is on,
              elim (Bool-cases (p == sent.address)) [
                | inl at_top ↦
                    let here : p ≡ sent.address = ground (arith, at_top) in
                    absurd (ground (arith, new, rw here at in_below))
                | inr other ↦ other
              ],
            )
        | inr other ↦
            let on : has p (stack_at s k) ≡ true = rw other at e' in
            (
              on,
              elim (Bool-cases (p == sent.address)) [
                | inl at_top ↦
                    let here : p ≡ sent.address = ground (arith, at_top) in
                    let same : fiber ≡ k =
                      tidy.apart fiber k sent.address top_there
                        (subst (λ q. has q (stack_at s k) ≡ true) here on) in
                    absurd (ground (arith, other, same))
                | inr e'' ↦ e''
              ],
            )
      ]

  left_distinct : (k : ℕ) (b : Bool) → AreDistinct (if b then below else stack_at s k)
  left_distinct k true = (subst AreDistinct whole (tidy.distinct fiber)).1
  left_distinct k false = tidy.distinct k

  pub sent-Tidy : Tidy t
  unfolding has
  sent-Tidy = record {
    queue = tidy.queue ++ sent ∷ [];
    socket = socket ∙ tidy.socket;
    keys =
        subst (λ m. AreDistinct (keys_of m)) (sym stacks)
          (insert-AreDistinct fiber below s.call_stacks tidy.keys);
    pushed =
        pushed
        ∙ ap (λ ms. ms ++ trace_message sent.address ∷ []) tidy.pushed
        ∙ messages_of-append_one tidy.queue sent;
    settled =
        All-append (IsSettled t.heap) tidy.queue (sent ∷ [])
          (IsSettled-apart s.heap t.heap sent.address tidy.queue others top_unsent tidy.settled)
          (settled, tt);
    sent_once =
        rw (addresses-append_one tidy.queue sent)
          (AreDistinct-append_one (addresses tidy.queue) sent.address tidy.sent_once top_unsent);
    distinct = λ k.
        subst AreDistinct (sym (stack_at-insert s t fiber below stacks k))
          (left_distinct k (fiber == k));
    apart = λ k j p e e'. tidy.apart k j p (left_on k p e).0 (left_on j p e').0;
    unsent = λ k p e.
        let (on, other) = left_on k p e in
        rw
          (
            addresses-append_one tidy.queue sent,
            has-append p (addresses tidy.queue) (sent.address ∷ []),
          )
          (ground (arith, tidy.unsent k p on, other));
    uncalled = λ k p found e there.
        let (on, other) = left_on k p e in
        tidy.uncalled k p found on (sym (others p other) ∙ there);
  }
