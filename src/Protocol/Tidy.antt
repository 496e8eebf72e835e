-- ===== src/Protocol/Tidy.antt =====
-- ext/racer/racer.cc, process_tracepoint: the traces on the stacks and in the queue are different traces,
-- as long as no block is called.
use mathlib.Core.Path.{subst}
use racer_rb.Base.{
  ◌||◌, ℕ, ◌≤◌, ◌≡◌, refl, ap, ◌∙◌, Bool, true, false, Option, none, some, List, [], ◌∷◌, ◌==◌,
  if◌then◌else◌, All, has, lookup, insert, lookup-insert, arith, Bool-cases, inl, inr,
}
use racer_rb.Traces.{Ptr, BlockParameter, ReturnTrace, Heap}
use racer_rb.Agent.Trace.{RubyBlockParam, no_block, block, no_traces}
use racer_rb.Protocol.Views.{IsBlock}
use racer_rb.Protocol.Tokens.{name_value, block_param_depth}
use racer_rb.Protocol.Queued.{Queued, addresses, messages_of, IsQueued, IsQueued-Owns}
use racer_rb.Racer.State.{connected, BlockTracepoint, State}
use racer_rb.Racer.Owned.{AreDistinct, somes, children, nothing}
use racer_rb.Racer.Advanced.{IsFresh}
use racer_rb.Racer.Stacks.{stack_of}

-- The block has no calls.
abbrev pub IsUncalled : Option BlockParameter → Type 0
IsUncalled none = Unit
IsUncalled (some b) = (b.block_traces ≡ []) × (somes b.current_block_call_stack ≡ [])

pub IsFresh-IsUncalled :
    (m : ℕ → Option BlockTracepoint) (o : Option BlockParameter) → IsFresh m o → IsUncalled o
IsFresh-IsUncalled m none fresh = tt
IsFresh-IsUncalled m (some b) (traces, calls, made) = (traces, ap somes calls)

pub children-IsUncalled : (o : Option BlockParameter) → IsUncalled o → children o ≡ []
children-IsUncalled none uncalled = refl
children-IsUncalled (some b) (traces, calls) = rw (traces, calls) refl

-- The block as the agent sees it.
abbrev pub uncalled_block : Option BlockParameter → RubyBlockParam
uncalled_block none = no_block
uncalled_block (some b) = block (name_value b.name) no_traces

pub uncalled_block-IsBlock :
    (h : Heap) (o : Option BlockParameter) → IsUncalled o → IsBlock h (uncalled_block o) o
unfolding IsBlock
uncalled_block-IsBlock h none uncalled = tt
uncalled_block-IsBlock h (some b) (traces, calls) = (refl, rw traces tt)

pub uncalled_block-depth : (o : Option BlockParameter) → block_param_depth (uncalled_block o) ≤ 1
unfolding block_param_depth
uncalled_block-depth none = omega arith
uncalled_block-depth (some b) = omega arith

abbrev pub stack_at : State → ℕ → List Ptr
stack_at s fiber = stack_of (lookup fiber s.call_stacks)

-- A trace in the queue can be sent, and its block has no calls.
pub record IsSettled (h : Heap) (q : Queued) : Type 0 where
  pub queued : IsQueued h 1 q
  pub uncalled : IsUncalled (ReturnTrace.block_param (Queued.trace q))

abbrev pub keys_of : List (ℕ × List Ptr) → List ℕ
keys_of [] = []
keys_of ((fiber, stack) ∷ stacks) = fiber ∷ keys_of stacks

keys_of-insert :
    (j fiber : ℕ) (stack : List Ptr) (m : List (ℕ × List Ptr))
    → has j (keys_of (insert fiber stack m)) ≡ ((fiber == j) || has j (keys_of m))
unfolding has insert
keys_of-insert j fiber stack [] = refl
keys_of-insert j fiber stack ((k, b) ∷ m) = elim (Bool-cases (k == fiber)) [
  | inl same ↦ rw same (ground (arith, same))
  | inr other ↦ rw other (ground (arith, keys_of-insert j fiber stack m))
]

-- A fiber has one stack.
pub insert-AreDistinct :
    (fiber : ℕ) (stack : List Ptr) (m : List (ℕ × List Ptr))
    → AreDistinct (keys_of m)
    → AreDistinct (keys_of (insert fiber stack m))
unfolding has insert
insert-AreDistinct fiber stack [] distinct = (refl, tt)
insert-AreDistinct fiber stack ((k, b) ∷ m) (new, distinct) = elim (Bool-cases (k == fiber)) [
  | inl same ↦
      let is : k ≡ fiber = ground (arith, same) in
      rw same (subst (λ j. has j (keys_of m) ≡ false) is new, distinct)
  | inr other ↦ rw other (
    rw (keys_of-insert k fiber stack m) (ground (arith, other, new)),
    insert-AreDistinct fiber stack m distinct,
  )
]

-- The session is connected. The traces on the stacks and in the queue are different traces; their blocks have no calls, and those in
-- the queue can be sent.
pub record Tidy (s : State) : Type 0 where
  pub queue : List Queued
  pub socket : s.socket ≡ connected
  pub keys : AreDistinct (keys_of s.call_stacks)
  pub pushed : s.pushed ≡ messages_of queue
  pub settled : All (IsSettled s.heap) queue
  pub sent_once : AreDistinct (addresses queue)
  pub distinct : (fiber : ℕ) → AreDistinct (stack_at s fiber)
  pub apart :
      (fiber k : ℕ) (p : Ptr)
      → has p (stack_at s fiber) ≡ true
      → has p (stack_at s k) ≡ true
      → fiber ≡ k
  pub unsent :
      (fiber : ℕ) (p : Ptr) → has p (stack_at s fiber) ≡ true → has p (addresses queue) ≡ false
  pub uncalled :
      (fiber : ℕ) (p : Ptr) (t : ReturnTrace)
      → has p (stack_at s fiber) ≡ true
      → s.heap p ≡ some t
      → IsUncalled t.block_param

-- A trace in the queue is still there on another heap where it is the same.
pub IsSettled-same :
    (h k : Heap) (q : Queued)
    → k (Queued.address q) ≡ h (Queued.address q)
    → IsSettled h q
    → IsSettled k q
IsSettled-same h k q same is = record {
  queued =
      IsQueued-Owns h k 0 1 q [] (rw (children-IsUncalled q.trace.block_param is.uncalled) nothing)
        (λ p e. absurd (unfold has in cc)) same is.queued;
  uncalled = is.uncalled;
}

pub All-has : (P : Ptr → Type 0) (ps : List Ptr) (p : Ptr) → All P ps → has p ps ≡ true → P p
unfolding has
All-has P [] p all e = absurd (cc)
All-has P (q ∷ ps) p (here, all) e = elim (Bool-cases (q == p)) [
  | inl same ↦ let is : q ≡ p = ground (arith, same) in subst P is here
  | inr other ↦ All-has P ps p all (rw other at e)
]

-- What is in the queue is there.
pub settled_there :
    (h : Heap) (queue : List Queued) (p : Ptr)
    → All (IsSettled h) queue
    → has p (addresses queue) ≡ true
    → (t : ReturnTrace) × (h p ≡ some t)
unfolding has
settled_there h [] p settled e = absurd (cc)
settled_there h (q ∷ queue) p (is, settled) e = elim (Bool-cases (Queued.address q == p)) [
  | inl same ↦
      let at_p : Queued.address q ≡ p = ground (arith, same) in
      (q.trace, subst (λ r. h r ≡ some q.trace) at_p is.queued.here)
  | inr other ↦ settled_there h queue p settled (rw other at e)
]

-- The traces of the queue are still there where another heap differs at an address outside.
pub IsSettled-apart :
    (h k : Heap) (p : Ptr) (queue : List Queued)
    → ((q : Ptr) → (q == p) ≡ false → k q ≡ h q)
    → has p (addresses queue) ≡ false
    → All (IsSettled h) queue
    → All (IsSettled k) queue
unfolding has
IsSettled-apart h k p [] others out settled = tt
IsSettled-apart h k p (q ∷ queue) others out (is, settled) =
    let other : (Queued.address q == p) ≡ false = ground (arith, out) in
    (
      IsSettled-same h k q (others q.address other) is,
      IsSettled-apart h k p queue others (ground (arith, out, other)) settled,
    )

-- What is on a fiber's stack is what is put there, and for other fibers what was there.
pub stack_at-insert :
    (s t : State) (fiber : ℕ) (stack : List Ptr)
    → t.call_stacks ≡ insert fiber stack s.call_stacks
    → (k : ℕ) → stack_at t k ≡ (if fiber == k then stack else stack_at s k)
stack_at-insert s t fiber stack same k =
    ap (λ stacks. stack_of (lookup k stacks)) same
    ∙ ap stack_of (lookup-insert fiber k stack s.call_stacks)
    ∙ pick (fiber == k)
  where
    pick :
        (b : Bool)
        → stack_of (if b then some stack else lookup k s.call_stacks)
          ≡ (if b then stack else stack_at s k)
    pick true = refl
    pick false = refl
