-- ===== src/Racer/Refines/Call.antt =====
-- ext/racer/racer.cc, process_call_event, beside the abstract tracer's call.
use racer_rb.Base.{
  ℕ, String, ◌≡◌, refl, sym, ap, ◌∙◌, inl, inr, Bool, true, false, Option, none, some, List, ◌∷◌,
  ◌==◌, lookup, arith, Bool-cases,
}
use racer_rb.Traces.{CString, ReturnTrace}
use racer_rb.Racer.State.{RubyValue, Vm, State, update}
use racer_rb.Racer.Ensures.{Ensures, Ensures-mono}
use racer_rb.Racer.Calls.{CallEvent, instance_name, process_call_event}
use racer_rb.Racer.Stacks.{World, stack_of, IsGood}
use racer_rb.Racer.Pushes.{IsCallable}
use racer_rb.Racer.Records.{Recorded}
use racer_rb.Racer.Retries.{process_call_event-Outcome}
use racer_rb.Racer.Outcomes.{Retries, Unrecorded, is_recorded, is_dropped}
use racer_rb.Racer.Tracer.{Tracer, CallStep, Models}
use racer_rb.Racer.Models.{
  differ, Keeps, AreOf-Keeps, AreSent-Keeps, AreOf-insert, AreOf-top, writes-Keeps,
}

abbrev pushed_call : CallEvent → Tracer → Tracer
pushed_call e a = record a { stacks = update a.stacks e.fiber (e.method_name ∷ a.stacks e.fiber) }

module _ (vm : Vm) (classes : List RubyValue) (IsObject : RubyValue → Type 0) (f levels : ℕ)
    (world : World vm classes IsObject) where
  Recorded-Models :
      (e : CallEvent) (s t : State) (a : Tracer)
      → Models classes f levels s a
      → IsGood classes f levels t
      → Recorded vm f levels e s t
      → Models classes f levels t (pushed_call e a)
  Recorded-Models e s t a models good recorded =
      let new : s.heap s.next_trace ≡ none = models.good.free s.next_trace (omega arith) in
      let keeps : Keeps s t =
        writes-Keeps s t s.next_trace recorded.trace recorded.others recorded.here
          λ trace there. absurd (differ _ trace new there) in
      let same : t.pushed ≡ s.pushed = ap (λ (v : State). v.pushed) recorded.frame in
      record {
        good = good;
        stacks = rw (recorded.stacks) (
            AreOf-insert t e.fiber (s.next_trace ∷ stack_of (lookup e.fiber s.call_stacks))
              (e.method_name ∷ a.stacks e.fiber) s.call_stacks a.stacks
              (
                (recorded.trace, recorded.here, recorded.name),
                AreOf-Keeps s t keeps _ _ (models.stacks e.fiber),
              )
              λ k. AreOf-Keeps s t keeps _ _ (models.stacks k));
        log = rw same (AreSent-Keeps s t keeps _ _ models.log);
        calm = λ quiet q trace there. elim (Bool-cases (q == s.next_trace)) [
          | inl is ↦
              let here' : q ≡ s.next_trace = ground (arith, is) in
              same_rescued (recorded.here) (rw here' at there) recorded.rescued
          | inr other ↦ models.calm quiet q trace (sym (recorded.others q other) ∙ there)
        ];
      }
    where
      same_rescued :
          {o : Option ReturnTrace} {t u : ReturnTrace}
          → o ≡ some t
          → o ≡ some u
          → t.rescued ≡ false
          → u.rescued ≡ false
      same_rescued e e' fresh = cc

  Unrecorded-Models :
      (s t : State) (a : Tracer)
      → Models classes f levels s a
      → IsGood classes f levels t
      → Unrecorded s t
      → Models classes f levels t a
  Unrecorded-Models s t a models good un =
      let keeps : Keeps s t = λ q trace there. (trace, un.heap q ∙ there, refl) in
      let same : t.pushed ≡ s.pushed = ap (λ (v : State). v.pushed) un.frame in
      record {
        good = good;
        stacks = rw un.stacks (λ k. AreOf-Keeps s t keeps _ _ (models.stacks k));
        log = rw same (AreSent-Keeps s t keeps _ _ models.log);
        calm = λ quiet q trace there. models.calm quiet q trace (sym (un.heap q) ∙ there);
      }

  Retries-CallStep :
      (e : CallEvent) (owner : CString) (s : State) (a : Tracer)
      → Models classes f levels s a
      → Retries e owner s
      → CallStep e a a
  Retries-CallStep e owner s a models retries = elim (Bool-cases a.rescued) [
    | inr quiet ↦
        let calm = models.calm quiet retries.top retries.previous retries.here in
        absurd (no (calm) retries.rescued)
    | inl rescued ↦
        let (name, rest, is, named, are) =
          AreOf-top s retries.top retries.below (a.stacks e.fiber) retries.previous
            (rw retries.stack at (models.stacks e.fiber)) retries.here in
        inr (rescued, rest, is ∙ ap (λ n. n ∷ rest) (some_same named retries.name), refl)
  ]
    where
      no : {b : Bool} → b ≡ false → b ≡ true → ⊥
      no e e' = cc

      some_same : {o : Option String} {m n : String} → o ≡ some m → o ≡ some n → m ≡ n
      some_same e e' = cc

  pub call-Step :
      (e : CallEvent) (s : State) (a : Tracer)
      → IsCallable vm classes IsObject f levels e
      → Models classes f levels s a
      → Ensures
          (λ _ t. (b : Tracer) × CallStep e a b × Models classes f levels t b)
          (process_call_event vm f levels e s)
  call-Step e s a callable models =
      Ensures-mono
        (process_call_event-Outcome vm classes IsObject f levels e s world callable models.good)
        λ _ t (good, outcome). elim outcome [
          | is_recorded recorded owner fresh ↦
              (pushed_call e a, inl refl, Recorded-Models e s t a models good recorded)
          | is_dropped i owner retries un ↦ (
            a,
            Retries-CallStep e (instance_name i) s a models retries,
            Unrecorded-Models s t a models good un,
          )
        ]
