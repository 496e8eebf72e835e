-- ===== src/Racer/Outcomes.antt =====
-- ext/racer/racer.cc, process_call_event: what a call event may come to, and when it is a retry.
use text.Mathlib.Text.{◌==◌ as str_eq}
use text.Mathlib.TextEquality.{eq_iff}
use racer_rb.Base.{
  ℕ, ◌≡◌, refl, ap, ◌⊎◌, inl, inr, Bool, some_same, true, false, none, some, List, ◌∷◌, lookup,
  Bool-cases,
}
use racer_rb.Traces.{CString, Ptr, ConstantInstance, constant_instance, no_unions, ReturnTrace}
use racer_rb.Protocol.Views.{HasName, IsComplete}
use racer_rb.Racer.State.{Vm, State}
use racer_rb.Racer.Calls.{CallEvent, instance_name, strcmp_eq, is_retry, attached_class}
use racer_rb.Racer.Known.{Frame}
use racer_rb.Racer.Generics.{class_to_constant_instance}
use racer_rb.Racer.Records.{begun, Recorded, CallFrame}

-- The fiber has a trace of this very method, of an owner of this name, on top of its stack, and a rescue
-- has been seen in it.
pub record Retries (e : CallEvent) (owner_name : CString) (s : State) : Type 0 where
  pub top : Ptr
  pub below : List Ptr
  pub previous : ReturnTrace
  pub stack : lookup e.fiber s.call_stacks ≡ some (top ∷ below)
  pub here : s.heap top ≡ some previous
  pub rescued : previous.rescued ≡ true
  pub name : previous.method_name ≡ some e.method_name
  pub owner : instance_name previous.method_owner ≡ owner_name

-- `i` is the instance that the class of the method has, made in a state that differs from `s` in its
-- constants and in the address taken alone.
abbrev pub IsOwner :
    (vm : Vm) (f levels : ℕ) (e : CallEvent) (s : State) → ConstantInstance → Type 0
IsOwner vm f levels e s i =
    (t : State) × (u : State) × Frame (begun s) t
    × (class_to_constant_instance vm f (attached_class vm f levels e.defined_class) 0 no_unions
          false t
        ≡ some (i, u))

-- The traces, the stacks and all but constants and the next address are as they were.
pub record Unrecorded (s t : State) : Type 0 where
  pub stacks : t.call_stacks ≡ s.call_stacks
  pub heap : (q : Ptr) → t.heap q ≡ s.heap q
  pub tracepoints : t.block_tracepoints ≡ s.block_tracepoints
  pub frame : CallFrame s t

pub IsComplete-name : (i : ConstantInstance) → IsComplete i → HasName (instance_name i)
unfolding IsComplete
IsComplete-name (constant_instance name count us singleton) complete = complete.0

pub strcmp_eq-some :
    (s t : CString)
    → HasName s
    → HasName t
    → ((strcmp_eq s t ≡ some false) × ¬ (s ≡ t)) ⊎ ((strcmp_eq s t ≡ some true) × (s ≡ t))
strcmp_eq-some none t h k = absurd h
strcmp_eq-some (some s) none h k = absurd k
strcmp_eq-some (some s) (some t) h k = elim (Bool-cases (str_eq s t)) [
  | inl same ↦ inr (ap some same, ap some ((eq_iff s t).0 same))
  | inr other ↦ inl (ap some other, λ e. differ other ((eq_iff s t).1 (some_same (some s) refl e)))
]
  where
    differ : {b : Bool} → b ≡ false → b ≡ true → ⊥
    differ e e' = cc

-- The comparisons of a retry, made or missed.
abbrev pub AreAlike : ReturnTrace → ReturnTrace → Type 0
AreAlike trace previous =
    (previous.rescued ≡ true)
    × (trace.method_name ≡ previous.method_name)
    × (instance_name trace.method_owner ≡ instance_name previous.method_owner)

pub is_retry-cases :
    (trace previous : ReturnTrace)
    → HasName trace.method_name
    → HasName previous.method_name
    → HasName (instance_name trace.method_owner)
    → HasName (instance_name previous.method_owner)
    → ((is_retry trace previous ≡ some false) × ¬ (AreAlike trace previous))
      ⊎ ((is_retry trace previous ≡ some true) × AreAlike trace previous)
is_retry-cases trace previous named named' owned owned' = elim (Bool-cases previous.rescued) [
  | inr fresh ↦ inl (rw fresh refl, λ (rescued, _, _). cc)
  | inl rescued ↦ elim (strcmp_eq-some trace.method_name previous.method_name named named') [
    | inl (other, unlike) ↦ inl (rw (rescued, other) refl, λ (_, name, _). unlike name)
    | inr (same, e) ↦
        elim (strcmp_eq-some (instance_name trace.method_owner)
          (instance_name previous.method_owner) owned owned') [
            | inl (other, unlike) ↦
                inl (rw (rescued, same, other) refl, λ (_, _, owner). unlike owner)
            | inr (same', e') ↦ inr (rw (rescued, same, same') refl, (rescued, e, e'))
          ]
  ]
]

-- A call that is no retry has its trace, with the instance of its class for owner; one that is leaves
-- all as it was.
pub data Outcome (vm : Vm) (f levels : ℕ) (e : CallEvent) (s t : State) : Type 0 where
  is_recorded :
      (recorded : Recorded vm f levels e s t)
      → IsOwner vm f levels e s recorded.trace.method_owner
      → ¬ (Retries e (instance_name recorded.trace.method_owner) s)
      → Outcome vm f levels e s t
  is_dropped :
      (i : ConstantInstance)
      → IsOwner vm f levels e s i
      → Retries e (instance_name i) s
      → Unrecorded s t
      → Outcome vm f levels e s t
