-- ===== src/Racer/Sends.antt =====
-- ext/racer/racer.cc, process_tracepoint: what is sent of calls and returns that match.
use mathlib.Core.Path.{subst}
use mathlib.Core.List.{append_assoc, append-nil}
use text.Mathlib.TextEquality.{eq_iff}
use racer_rb.Base.{
  ℕ, String, ◌≡◌, refl, sym, ◌∙◌, inl, inr, Bool, true, false, List, [], ◌∷◌, ◌++◌, All, lookup,
}
use racer_rb.Racer.State.{RubyValue, Vm, State, update}
use racer_rb.Racer.Ensures.{Ensures, Ensures-mono}
use racer_rb.Racer.Events.{Event, call_event, return_event, rescue_event}
use racer_rb.Racer.Stacks.{World, stack_of}
use racer_rb.Racer.Tracer.{
  Tracer, IsOffTop, Run, done, step, AreOf, AreSent, Models, IsProper, process_events,
}
use racer_rb.Racer.Refines.{process_events-Run}

-- The methods that are being called, by fiber.
abbrev pub Pending : Type 0
Pending = ℕ → List String

abbrev rest_of : List String → List String
rest_of [] = []
rest_of (n ∷ ns) = ns

abbrev pub stacks_after : Pending → List Event → Pending
stacks_after st [] = st
stacks_after st (call_event e ∷ es) =
    stacks_after (update st e.fiber (e.method_name ∷ st e.fiber)) es
stacks_after st (return_event e ∷ es) = stacks_after (update st e.fiber (rest_of (st e.fiber))) es
stacks_after st (rescue_event e ∷ es) = stacks_after st es

-- Each return is of the method that its fiber called last, and nothing is rescued.
abbrev pub AreMatched : Pending → List Event → Type 0
AreMatched st [] = Unit
AreMatched st (call_event e ∷ es) = AreMatched (update st e.fiber (e.method_name ∷ st e.fiber)) es
AreMatched st (return_event e ∷ es) =
    ((below : List String) × (st e.fiber ≡ e.method_name ∷ below))
    × AreMatched (update st e.fiber (rest_of (st e.fiber))) es
AreMatched st (rescue_event e ∷ es) = ⊥

abbrev pub returned : List Event → List String
returned [] = []
returned (call_event e ∷ es) = returned es
returned (return_event e ∷ es) = e.method_name ∷ returned es
returned (rescue_event e ∷ es) = returned es

-- What matched events come to, from the stacks and the log before them.
abbrev pub Reaches : Pending → List String → List Event → Tracer → Type 0
Reaches st log es b = (b.log ≡ log ++ returned es) × ((k : ℕ) → b.stacks k ≡ stacks_after st es k)

not_off : (name : String) (ns below : List String) → ns ≡ name ∷ below → IsOffTop name ns → ⊥
not_off name ns below is off = absurd_bool (rw is at off) ((eq_iff name name).1 refl)
  where
    absurd_bool : {b : Bool} → b ≡ false → b ≡ true → ⊥
    absurd_bool e e' = cc

pub Run-Reaches :
    (es : List Event) (a b : Tracer)
    → Run es a b
    → a.rescued ≡ false
    → AreMatched a.stacks es
    → Reaches a.stacks a.log es b
Run-Reaches [] a b (done same) quiet matched =
    subst (Reaches a.stacks a.log []) same (sym (append-nil a.log), λ k. refl)
Run-Reaches (call_event e ∷ es) a b (step {b = m} (inl is) run) quiet matched =
    let pushed = record a { stacks = update a.stacks e.fiber (e.method_name ∷ a.stacks e.fiber) } in
    Run-Reaches es pushed b (subst (λ t. Run es t b) is run) quiet matched
Run-Reaches (call_event e ∷ es) a b (step (inr (rescued, below, top, is)) run) quiet matched =
    absurd (cc)
Run-Reaches (return_event e ∷ es) a b (step {b = m} (inl (below, top, is)) run) quiet
      ((below', top'), matched) =
    let popped = record a {
      stacks = update a.stacks e.fiber (rest_of (a.stacks e.fiber));
      log = a.log ++ e.method_name ∷ [];
    } in
    let is' : m ≡ popped = rw top is in
    let (log, stacks) = Run-Reaches es popped b (subst (λ t. Run es t b) is' run) quiet matched in
    (log ∙ append_assoc a.log (e.method_name ∷ []) (returned es), stacks)
Run-Reaches (return_event e ∷ es) a b (step (inr (off, is)) run) quiet ((below, top), matched) =
    absurd (not_off e.method_name (a.stacks e.fiber) below top off)
Run-Reaches (rescue_event e ∷ es) a b run quiet matched = absurd matched

-- Let the classes and values of some events be among those of a program whose classes are closed under
-- what explorations come to; let the state be in order, with the methods `a` says on the stacks and in
-- the queue, and no trace rescued. Let no event be a rescue, and each return be of the method that its
-- fiber called last, however the fibers take turns. Then the events are handled without undefined
-- behaviour, and the queue gains a trace for each return, of the method that returns, in the order of
-- the returns, and no other message; on each fiber's stack are traces of the methods that have been
-- called on it and have not returned, in order.
pub process_events-Sends :
    (vm : Vm) (classes : List RubyValue) (IsObject : RubyValue → Type 0) (f levels : ℕ)
    (es : List Event) (s : State) (a : Tracer)
    → World vm classes IsObject
    → All (IsProper vm classes IsObject f levels) es
    → Models classes f levels s a
    → a.rescued ≡ false
    → AreMatched a.stacks es
    → Ensures
        (λ _ t.
          AreSent t t.pushed (a.log ++ returned es)
          × ((k : ℕ) → AreOf t (stack_of (lookup k t.call_stacks)) (stacks_after a.stacks es k)))
        (process_events vm f levels es s)
process_events-Sends vm classes IsObject f levels es s a world proper models quiet matched =
    Ensures-mono (process_events-Run vm classes IsObject f levels es s a world proper models)
      λ _ t (b, run, models').
        let (log, stacks) = Run-Reaches es a b run quiet matched in
        (
          subst (AreSent t t.pushed) log models'.log,
          λ k. subst (AreOf t (stack_of (lookup k t.call_stacks))) (stacks k) (models'.stacks k),
        )
