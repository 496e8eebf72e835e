-- ===== src/Racer/Models.antt =====
-- ext/racer/racer.cc, call_stacks and the queue: which code keeps to the names of an abstract tracer.
use racer_rb.Base.{
  some_same, ℕ, String, ◌≡◌, refl, sym, ap, ◌∙◌, inl, inr, true, false, Option, none, some, List,
  [], ◌∷◌, ◌++◌, ◌==◌, lookup, insert, lookup-insert, arith, Bool-cases,
}
use racer_rb.Traces.{Ptr, ReturnTrace}
use racer_rb.Racer.State.{Message, trace_message, stop_message, State, update}
use racer_rb.Racer.Stacks.{stack_of}
use racer_rb.Racer.Tracer.{IsOf, AreOf, AreSent}

pub differ : (o : Option ReturnTrace) (t : ReturnTrace) → o ≡ none → o ≡ some t → ⊥
differ none t e e' = cc
differ (some u) t e e' = cc

-- Every trace is still there, and of the same method.
abbrev pub Keeps : State → State → Type 0
Keeps s t =
    (q : Ptr) (trace : ReturnTrace)
    → s.heap q ≡ some trace
    → (later : ReturnTrace) × (t.heap q ≡ some later) × (later.method_name ≡ trace.method_name)

module _ (s t : State) (keeps : Keeps s t) where
  pub IsOf-Keeps : (p : Ptr) (name : String) → IsOf s p name → IsOf t p name
  IsOf-Keeps p name (trace, here, is) =
      let (later, here', same) = keeps p trace here in (later, here', same ∙ is)

  pub AreOf-Keeps : (ps : List Ptr) (ns : List String) → AreOf s ps ns → AreOf t ps ns
  AreOf-Keeps [] [] are = tt
  AreOf-Keeps [] (n ∷ ns) are = are
  AreOf-Keeps (p ∷ ps) [] are = are
  AreOf-Keeps (p ∷ ps) (n ∷ ns) (is, are) = (IsOf-Keeps p n is, AreOf-Keeps ps ns are)

  pub AreSent-Keeps : (ms : List Message) (ns : List String) → AreSent s ms ns → AreSent t ms ns
  AreSent-Keeps [] [] are = tt
  AreSent-Keeps [] (n ∷ ns) are = are
  AreSent-Keeps (trace_message p ∷ ms) [] are = are
  AreSent-Keeps (trace_message p ∷ ms) (n ∷ ns) (is, are) =
      (IsOf-Keeps p n is, AreSent-Keeps ms ns are)
  AreSent-Keeps (stop_message ∷ ms) ns are = are

pub AreSent-append_one :
    (s : State) (ms : List Message) (ns : List String) (p : Ptr) (name : String)
    → AreSent s ms ns
    → IsOf s p name
    → AreSent s (ms ++ trace_message p ∷ []) (ns ++ name ∷ [])
AreSent-append_one s [] [] p name are is = (is, tt)
AreSent-append_one s [] (n ∷ ns) p name are is = absurd are
AreSent-append_one s (trace_message q ∷ ms) [] p name are is = absurd are
AreSent-append_one s (trace_message q ∷ ms) (n ∷ ns) p name (first, are) is =
    (first, AreSent-append_one s ms ns p name are is)
AreSent-append_one s (stop_message ∷ ms) ns p name are is = absurd are

-- The stack that is put in place of a fiber's, with its names.
pub AreOf-insert :
    (t : State) (fiber : ℕ) (stack : List Ptr) (names : List String) (stacks : List (ℕ × List Ptr))
    (old : ℕ → List String)
    → AreOf t stack names
    → ((k : ℕ) → AreOf t (stack_of (lookup k stacks)) (old k))
    → (k : ℕ) → AreOf t (stack_of (lookup k (insert fiber stack stacks))) (update old fiber names k)
AreOf-insert t fiber stack names stacks old new others k =
    rw (lookup-insert fiber k stack stacks) (elim (Bool-cases (fiber == k)) [
      | inl same ↦ let same' : (k == fiber) ≡ true = ground (arith, same) in rw (same, same') new
      | inr other ↦
          let other' : (k == fiber) ≡ false = ground (arith, other) in rw (other, other') (others k)
    ])

-- The name of the trace on top is the top of the names.
pub AreOf-top :
    (s : State) (top : Ptr) (below : List Ptr) (ns : List String) (trace : ReturnTrace)
    → AreOf s (top ∷ below) ns
    → s.heap top ≡ some trace
    → (name : String) × (rest : List String) × (ns ≡ name ∷ rest)
      × (trace.method_name ≡ some name)
      × AreOf s below rest
AreOf-top s top below [] trace are here = absurd are
AreOf-top s top below (n ∷ ns) trace ((found, there, is), are) here = (
  n,
  ns,
  refl,
  sym (ap (λ (r : ReturnTrace). r.method_name) (some_same (s.heap top) there here)) ∙ is,
  are,
)

pub AreOf-empty : (s : State) (ns : List String) → AreOf s [] ns → ns ≡ []
AreOf-empty s [] are = refl
AreOf-empty s (n ∷ ns) are = absurd are

-- Code that writes one trace, which was not there or keeps its method, keeps all.
pub writes-Keeps :
    (s t : State) (p : Ptr) (later : ReturnTrace)
    → ((q : Ptr) → (q == p) ≡ false → t.heap q ≡ s.heap q)
    → t.heap p ≡ some later
    → ((trace : ReturnTrace) → s.heap p ≡ some trace → later.method_name ≡ trace.method_name)
    → Keeps s t
writes-Keeps s t p later others here same q trace there = elim (Bool-cases (q == p)) [
  | inl is ↦ let e : q ≡ p = ground (arith, is) in (later, rw e here, same trace (rw e at there))
  | inr other ↦ (trace, others q other ∙ there, refl)
]
