-- ===== src/Racer/Filters.antt =====
-- ext/racer/racer.cc, path_matcher and matched_paths: the handlers of events leave them alone, and the
-- abstract tracer does not read them.
use racer_rb.Base.{
  ℕ, ◌≡◌, refl, ap, inl, inr, Bool, true, Option, none, some, List, [], ◌∷◌, All, lookup,
}
use racer_rb.Traces.{Ptr}
use racer_rb.Racer.State.{RubyValue, Vm, State, pure, read_trace, write_trace}
use racer_rb.Racer.Ensures.{Ensures, holds, Ensures-mono, Ensures-if}
use racer_rb.Racer.Calls.{
  CallEvent, ReturnEvent, RescueEvent, name_matches, process_call_event, process_return_event,
  process_rescued_event, rescue_on,
}
use racer_rb.Racer.Events.{Event, call_event, return_event, rescue_event, process_event}
use racer_rb.Racer.Returns.{process_return_event_unmatched, process_return_event-Sent}
use racer_rb.Racer.Stacks.{World, Stands, stack_of, IsGood, All-map}
use racer_rb.Racer.Pushes.{IsCallable}
use racer_rb.Racer.Retries.{process_call_event-Outcome}
use racer_rb.Racer.Outcomes.{is_recorded, is_dropped}
use racer_rb.Racer.Tracer.{Tracer, Models, IsProper}
use racer_rb.Racer.Models.{AreOf-Keeps, AreSent-Keeps}
use racer_rb.Protocol.TidyEvents.{Returns-or_IsUnmatched}

-- The regular expression and the kept answers are as before.
pub record SameFilter (s t : State) : Type 0 where
  pub matcher : t.path_matcher ≡ s.path_matcher
  pub answers : t.matched_paths ≡ s.matched_paths

module _ (vm : Vm) (classes : List RubyValue) (IsObject : RubyValue → Type 0) (f levels : ℕ)
    (world : World vm classes IsObject) where
  call-SameFilter :
      (e : CallEvent) (s : State)
      → IsCallable vm classes IsObject f levels e
      → IsGood classes f levels s
      → Ensures (λ _ t. SameFilter s t) (process_call_event vm f levels e s)
  call-SameFilter e s callable good =
      Ensures-mono (process_call_event-Outcome vm classes IsObject f levels e s world callable good)
        λ _ t (good', outcome). elim outcome [
          | is_recorded recorded owner fresh ↦ record {
            matcher = ap (λ (v : State). v.path_matcher) recorded.frame;
            answers = ap (λ (v : State). v.matched_paths) recorded.frame;
          }
          | is_dropped i owner retries un ↦ record {
            matcher = ap (λ (v : State). v.path_matcher) un.frame;
            answers = ap (λ (v : State). v.matched_paths) un.frame;
          }
        ]

  return-SameFilter :
      (e : ReturnEvent) (s : State)
      → IsObject e.return_value
      → IsGood classes f levels s
      → Ensures (λ _ t. SameFilter s t) (process_return_event vm f levels e s)
  return-SameFilter e s object good =
      elim (Returns-or_IsUnmatched vm classes IsObject f levels world e s
        (lookup e.fiber s.call_stacks) (good.stacks e.fiber)) [
          | inl un ↦
              rw (process_return_event_unmatched vm f levels e s un)
                (holds (record { matcher = refl; answers = refl }))
          | inr returns ↦
              Ensures-mono
                (process_return_event-Sent vm classes IsObject f levels world.closed world.objects e
                  s returns.top returns.below returns.stands.trace object good.ready good.depth
                  returns.stack returns.stands.here returns.name returns.stands.awaiting.block_param
                  returns.stands.awaiting.constant_updates)
                λ _ t sent. record {
                  matcher = ap (λ (v : State). v.path_matcher) sent.frame;
                  answers = ap (λ (v : State). v.matched_paths) sent.frame;
                }
        ]

  rescue-SameFilter :
      (e : RescueEvent) (s : State) (o : Option (List Ptr))
      → All (Stands s) (stack_of o)
      → Ensures (λ _ t. SameFilter s t) (rescue_on vm f levels e o s)
  unfolding rescue_on read_trace write_trace
  rescue-SameFilter e s none all = holds (record { matcher = refl; answers = refl })
  rescue-SameFilter e s (some []) all = holds (record { matcher = refl; answers = refl })
  rescue-SameFilter e s (some (top ∷ below)) (stands, all) =
      rw (rescue_on, read_trace, stands.here)
        (Ensures-if (name_matches vm f levels stands.trace.method_name e.method_name)
          (write_trace top (record stands.trace { rescued = true })) (pure tt) s
          (λ _. holds (record { matcher = refl; answers = refl }))
          λ _. holds (record { matcher = refl; answers = refl }))

  pub process_event-SameFilter :
      (e : Event) (s : State)
      → IsProper vm classes IsObject f levels e
      → IsGood classes f levels s
      → Ensures (λ _ t. SameFilter s t) (process_event vm f levels e s)
  unfolding process_event process_rescued_event
  process_event-SameFilter (call_event e) s proper good = call-SameFilter e s proper good
  process_event-SameFilter (return_event e) s proper good = return-SameFilter e s proper good
  process_event-SameFilter (rescue_event e) s proper good =
      rescue-SameFilter e s (lookup e.fiber s.call_stacks) (good.stacks e.fiber)

  -- Kept answers are nothing to the abstract tracer.
  pub answers-Models :
      (s : State) (a : Tracer) (answers : List (ℕ × Bool))
      → Models classes f levels s a
      → Models classes f levels (record s { matched_paths = answers }) a
  answers-Models s a answers models = record {
    good = record {
      ready = record {
        known = record {
          named = models.good.ready.known.named;
          pending = models.good.ready.known.pending;
        };
        fits = models.good.ready.fits;
      };
      depth = models.good.depth;
      free = models.good.free;
      stacks = λ k.
          All-map (Stands s) (Stands (record s { matched_paths = answers })) _
            (λ q stands. record {
              trace = stands.trace;
              here = stands.here;
              awaiting = stands.awaiting;
            })
            (models.good.stacks k);
    };
    stacks = λ k.
        AreOf-Keeps s (record s { matched_paths = answers }) (λ q trace there. (trace, there, refl))
          _ _ (models.stacks k);
    log =
        AreSent-Keeps s (record s { matched_paths = answers })
          (λ q trace there. (trace, there, refl)) _ _ models.log;
    calm = models.calm;
  }
