-- ===== src/Racer/Refines/Rescue.antt =====
-- ext/racer/racer.cc, process_rescued_event, beside the abstract tracer's rescue.
use racer_rb.Base.{
  some_same, ℕ, ◌≡◌, refl, ap, inl, inr, true, Option, none, some, List, [], ◌∷◌, ◌==◌, All, arith,
  Bool-cases,
}
use racer_rb.Traces.{Ptr, ReturnTrace}
use racer_rb.Racer.State.{RubyValue, Vm, State, pure, update, read_trace, write_trace}
use racer_rb.Racer.Ensures.{Ensures, holds, Ensures-if}
use racer_rb.Racer.Calls.{RescueEvent, name_matches, rescue_on}
use racer_rb.Racer.Stacks.{World, IsAwaiting, Stands, stack_of, All-map}
use racer_rb.Racer.Tracer.{Tracer, Models}
use racer_rb.Racer.Models.{differ, Keeps, AreOf-Keeps, AreSent-Keeps, writes-Keeps}

module _ (vm : Vm) (classes : List RubyValue) (IsObject : RubyValue → Type 0) (f levels : ℕ)
    (world : World vm classes IsObject) where
  -- The state once the trace on top has been rescued.
  abbrev marked : State → Ptr → ReturnTrace → State
  marked s top trace = record s {
    heap = update s.heap top (some (record trace { rescued = true }));
  }

  module _ (s : State) (top : Ptr) (trace : ReturnTrace) (there : s.heap top ≡ some trace)
      (awaiting : IsAwaiting s.block_tracepoints trace) where
    marked-Keeps : Keeps s (marked s top trace)
    marked-Keeps =
        writes-Keeps s (marked s top trace) top (record trace { rescued = true })
          (λ q other. rw other refl) (ground arith)
          λ trace' there'.
            ap (λ (r : ReturnTrace). r.method_name) (some_same (s.heap top) there there')

    marked-Stands : (q : Ptr) → Stands s q → Stands (marked s top trace) q
    marked-Stands q stands = elim (Bool-cases (q == top)) [
      | inl is ↦ record {
        trace = record trace { rescued = true };
        here = rw is refl;
        awaiting = record {
          method_name = awaiting.method_name;
          method_owner = awaiting.method_owner;
          method_callee = awaiting.method_callee;
          params = awaiting.params;
          constant_updates = awaiting.constant_updates;
          block_param = awaiting.block_param;
        };
      }
      | inr other ↦ record {
        trace = stands.trace;
        here = rw other stands.here;
        awaiting = stands.awaiting;
      }
    ]

    marked-Models :
        (a : Tracer)
        → Models classes f levels s a
        → Models classes f levels (marked s top trace) (record a { rescued = true })
    marked-Models a models = record {
      good = record {
        ready = record {
          known = record {
            named = models.good.ready.known.named;
            pending = models.good.ready.known.pending;
          };
          fits = models.good.ready.fits;
        };
        depth = models.good.depth;
        free = λ q le.
            let new : s.heap q ≡ none = models.good.free q le in
            elim (Bool-cases (q == top)) [
              | inl is ↦
                  let e : q ≡ top = ground (arith, is) in
                  absurd (differ (s.heap top) trace (rw e at new) there)
              | inr other ↦ rw other new
            ];
        stacks = λ k.
            All-map (Stands s) (Stands (marked s top trace)) _ marked-Stands (models.good.stacks k);
      };
      stacks = λ k. AreOf-Keeps s (marked s top trace) marked-Keeps _ _ (models.stacks k);
      log = AreSent-Keeps s (marked s top trace) marked-Keeps _ _ models.log;
      calm = λ quiet. absurd (cc);
    }

  rescued-Models :
      (s : State) (a : Tracer)
      → Models classes f levels s a
      → Models classes f levels s (record a { rescued = true })
  rescued-Models s a models = record {
    good = models.good;
    stacks = models.stacks;
    log = models.log;
    calm = λ quiet. absurd (cc);
  }

  pub rescue-Step :
      (e : RescueEvent) (s : State) (a : Tracer) (o : Option (List Ptr))
      → Models classes f levels s a
      → All (Stands s) (stack_of o)
      → Ensures
          (λ _ t. (b : Tracer) × (b ≡ record a { rescued = true }) × Models classes f levels t b)
          (rescue_on vm f levels e o s)
  unfolding rescue_on read_trace write_trace
  rescue-Step e s a none models all =
      holds (record a { rescued = true }, refl, rescued-Models s a models)
  rescue-Step e s a (some []) models all =
      holds (record a { rescued = true }, refl, rescued-Models s a models)
  rescue-Step e s a (some (top ∷ below)) models (stands, all) =
      rw (rescue_on, read_trace, stands.here)
        (Ensures-if (name_matches vm f levels stands.trace.method_name e.method_name)
          (write_trace top (record stands.trace { rescued = true })) (pure tt) s
          (λ _. holds (
            record a { rescued = true },
            refl,
            marked-Models s top stands.trace stands.here stands.awaiting a models,
          ))
          λ _. holds (record a { rescued = true }, refl, rescued-Models s a models))
