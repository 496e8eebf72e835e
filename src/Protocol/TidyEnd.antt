-- ===== src/Protocol/TidyEnd.antt =====
-- ext/racer/racer.cc, flush_end: what is left on the stacks at the end, and the queue after it.
use mathlib.Core.Path.{subst}
use racer_rb.Base.{
  ℕ, ◌≡◌, refl, true, some, List, [], ◌∷◌, All, has, some_same, arith, Bool-cases, inl, inr,
}
use racer_rb.Traces.{Ptr, ReturnTrace, Heap}
use racer_rb.Racer.State.{State}
use racer_rb.Racer.Owned.{without_all, Owns, nothing, trace_and}
use racer_rb.Racer.Releases.{all_stacks}
use racer_rb.Racer.Stops.{AreOwned}
use racer_rb.Racer.Returns.{IsMade}
use racer_rb.Racer.Stacks.{Stands, IsGood}
use racer_rb.Racer.State.{RubyValue}
use racer_rb.Protocol.Queued.{Queued, addresses}
use racer_rb.Protocol.Tidy.{
  IsUncalled, children-IsUncalled, stack_at, IsSettled, IsSettled-same, Tidy, All-has,
}
use racer_rb.Protocol.AllStacks.{Found, all_stacks-Found, all_stacks-AreDistinct}

-- Traces without calls of blocks own themselves alone.
uncalled_own :
    (h : Heap) (ps : List Ptr)
    → ((p : Ptr) → has p ps ≡ true → (t : ReturnTrace) × (h p ≡ some t) × IsUncalled t.block_param)
    → Owns h 1 ps ps
unfolding has
uncalled_own h [] there = nothing
uncalled_own h (p ∷ ps) there =
    let (t, here, uncalled) = there p (ground arith) in
    trace_and {ps = []} here (rw (children-IsUncalled t.block_param uncalled) nothing)
      (uncalled_own h ps λ q e. there q (ground (arith, e)))

All-of_has : (P : Ptr → Type 0) (ps : List Ptr) → ((p : Ptr) → has p ps ≡ true → P p) → All P ps
unfolding has
All-of_has P [] each = tt
All-of_has P (p ∷ ps) each =
    (each p (ground arith), All-of_has P ps λ q e. each q (ground (arith, e)))

IsSettled-agrees :
    (h k : Heap) (queue : List Queued)
    → ((p : Ptr) → has p (addresses queue) ≡ true → k p ≡ h p)
    → All (IsSettled h) queue
    → All (IsSettled k) queue
unfolding has
IsSettled-agrees h k [] agrees settled = tt
IsSettled-agrees h k (q ∷ queue) agrees (is, settled) = (
  IsSettled-same h k q (agrees q.address (ground arith)) is,
  IsSettled-agrees h k queue (λ p e. agrees p (ground (arith, e))) settled,
)

module _ (classes : List RubyValue) (f levels : ℕ) (s : State) (good : IsGood classes f levels s)
    (tidy : Tidy s) where
  on_stack : (p : Ptr) → has p (all_stacks s.call_stacks) ≡ true → Found s.call_stacks p
  on_stack p e = all_stacks-Found s.call_stacks p tidy.keys e

  Stands-there : (p : Ptr) → has p (all_stacks s.call_stacks) ≡ true → Stands s p
  Stands-there p e =
      let found = on_stack p e in
      All-has (Stands s) (stack_at s found.fiber) p (good.stacks found.fiber) found.on

  pub Tidy-AreOwned : AreOwned 1 (all_stacks s.call_stacks) s
  Tidy-AreOwned = record {
    owns = uncalled_own s.heap (all_stacks s.call_stacks) λ p e.
        let found = on_stack p e in
        let stands = Stands-there p e in
        (stands.trace, stands.here, tidy.uncalled found.fiber p stands.trace found.on stands.here);
    distinct = all_stacks-AreDistinct s.call_stacks tidy.keys tidy.distinct tidy.apart;
    made =
        All-of_has
          (λ p. (t : ReturnTrace) → s.heap p ≡ some t → IsMade s.block_tracepoints t.block_param)
          (all_stacks s.call_stacks)
          λ p e t there.
            let stands = Stands-there p e in
            subst (λ (r : ReturnTrace). IsMade s.block_tracepoints r.block_param)
              (some_same (s.heap p) stands.here there) stands.awaiting.block_param;
  }

  -- The traces in the queue are still there when those on the stacks are freed.
  pub IsSettled-after : All (IsSettled (without_all (all_stacks s.call_stacks) s.heap)) tidy.queue
  IsSettled-after =
      IsSettled-agrees s.heap (without_all (all_stacks s.call_stacks) s.heap) tidy.queue
        (λ p e. elim (Bool-cases (has p (all_stacks s.call_stacks))) [
          | inl on ↦
              let found = on_stack p on in
              absurd (ground (arith, e, tidy.unsent found.fiber p found.on))
          | inr off ↦ rw off refl
        ])
        tidy.settled
