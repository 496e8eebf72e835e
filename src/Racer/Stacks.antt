-- ===== src/Racer/Stacks.antt =====
-- ext/racer/racer.cc, call_stacks: when the traces on the stacks of the fibers are in order.
use racer_rb.Base.{
  ℕ, ◌≤◌, ◌<◌, ◌≡◌, Bool, true, false, Option, none, some, List, [], ◌∷◌, ◌==◌, if◌then◌else◌, All,
  lookup, insert, lookup-insert, arith, Bool-cases, inl, inr,
}
use racer_rb.Traces.{Ptr, ReturnTrace}
use racer_rb.Protocol.Views.{
  HasName, IsComplete, IsNamedConstant, IsCompleteParam, IsCompleteCallee,
}
use racer_rb.Racer.State.{RubyValue, Vm, BlockTracepoint, State}
use racer_rb.Racer.Closed.{IsMember, IsClosed, AreObjects}
use racer_rb.Racer.Known.{Ready}
use racer_rb.Racer.Returns.{IsMade, AreMade}
use racer_rb.Racer.Advanced.{IsMade-AreMade}

-- The classes of a program, closed under what explorations come to, with those of its objects.
pub record World (vm : Vm) (classes : List RubyValue) (IsObject : RubyValue → Type 0) : Type 0 where
  pub closed : IsClosed vm classes
  pub objects : AreObjects vm classes IsObject
  pub arrays : IsMember classes (Vm.rb_c_array vm)
  pub hashes : IsMember classes (Vm.rb_c_hash vm)

-- A trace of a call that has not returned.
pub record IsAwaiting (made : ℕ → Option BlockTracepoint) (t : ReturnTrace) : Type 0 where
  pub method_name : HasName t.method_name
  pub method_owner : IsComplete t.method_owner
  pub method_callee : IsCompleteCallee t.method_callee
  pub params : All IsCompleteParam t.params
  pub constant_updates : All IsNamedConstant t.constant_updates
  pub block_param : IsMade made t.block_param

pub IsAwaiting-AreMade :
    (m n : ℕ → Option BlockTracepoint) (t : ReturnTrace)
    → AreMade m n
    → IsAwaiting m t
    → IsAwaiting n t
IsAwaiting-AreMade m n t more is = record {
  method_name = is.method_name;
  method_owner = is.method_owner;
  method_callee = is.method_callee;
  params = is.params;
  constant_updates = is.constant_updates;
  block_param = IsMade-AreMade m n t.block_param more is.block_param;
}

-- An address on a stack leads to such a trace.
pub record Stands (s : State) (p : Ptr) : Type 0 where
  pub trace : ReturnTrace
  pub here : s.heap p ≡ some trace
  pub awaiting : IsAwaiting s.block_tracepoints trace

abbrev pub stack_of : Option (List Ptr) → List Ptr
stack_of none = []
stack_of (some stack) = stack

-- The constants are in order, the fuel is enough, new addresses are free, and the stacks hold traces of
-- calls that have not returned.
pub record IsGood (classes : List RubyValue) (f levels : ℕ) (s : State) : Type 0 where
  pub ready : Ready classes f s
  pub depth : s.max_generic_depth < levels
  pub free : (q : Ptr) → s.next_trace ≤ q → s.heap q ≡ none
  pub stacks : (fiber : ℕ) → All (Stands s) (stack_of (lookup fiber s.call_stacks))

-- What is on a stack is allocated, and so is not at the next address.
pub Stands-old :
    (s : State) (p : Ptr) → s.heap s.next_trace ≡ none → Stands s p → (p == s.next_trace) ≡ false
Stands-old s p new stands = elim (Bool-cases (p == s.next_trace)) [
  | inl same ↦
      let e : p ≡ s.next_trace = ground (arith, same) in
      absurd (not_both (s.heap p) stands.trace (rw e new) stands.here)
  | inr other ↦ other
]
  where
    not_both : (o : Option ReturnTrace) (t : ReturnTrace) → o ≡ none → o ≡ some t → ⊥
    not_both none t e e' = cc
    not_both (some u) t e e' = cc

pub All-map :
    {A : Type 0} (P Q : A → Type 0) (xs : List A) → ((x : A) → P x → Q x) → All P xs → All Q xs
All-map P Q [] w h = tt
All-map P Q (x ∷ xs) w (p, h) = (w x p, All-map P Q xs w h)

-- A stack that is put in place of a fiber's leaves the others.
pub stacks-insert :
    (P : Ptr → Type 0) (fiber : ℕ) (stack : List Ptr) (stacks : List (ℕ × List Ptr))
    → All P stack
    → ((k : ℕ) → All P (stack_of (lookup k stacks)))
    → (k : ℕ) → All P (stack_of (lookup k (insert fiber stack stacks)))
stacks-insert P fiber stack stacks all others k =
    rw (lookup-insert fiber k stack stacks) (pick (fiber == k))
  where
    pick : (b : Bool) → All P (stack_of (if b then some stack else lookup k stacks))
    pick true = all
    pick false = others k
