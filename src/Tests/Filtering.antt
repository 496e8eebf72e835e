-- ===== src/Tests/Filtering.antt =====
-- The tracepoint at calls of which the regular expression leaves one out.
use racer_rb.Base.{String, ◌≡◌, refl, sym, ◌∙◌, none, some, List, [], ◌∷◌, arith, lookup, has}
use racer_rb.Racer.State.{State, initial}
use racer_rb.Racer.Ensures.{Ensures}
use racer_rb.Racer.Events.{call_event, return_event}
use racer_rb.Racer.PathCache.{IsCached}
use racer_rb.Racer.Tracer.{Models}
use racer_rb.Racer.Dispatch.{Firing, Filtered, process_tracepoints, process_tracepoints-Run}
use racer_rb.Tests.Machine.{vm, classes, initial-Ready}
use racer_rb.Tests.Tracing.{IsObject, world, call_on, return_on, call_on-IsCallable, idle}

-- The one path in use, which the regular expression 31 does not match.
abbrev IsApp : String → Type 0
IsApp path = path ≡ "app.rb"

abbrev filtering : State
filtering = record initial { path_matcher = some 31 }

filtering-IsCached : IsCached vm IsApp 31 filtering
unfolding lookup
filtering-IsCached path b used e = cc

filtering-Models : Models classes 8 2 filtering idle
unfolding lookup
filtering-Models = record {
  good = record {
    ready = record {
      known = record { named = initial-Ready.known.named; pending = tt };
      fits = initial-Ready.fits;
    };
    depth = omega arith;
    free = λ q le. refl;
    stacks = λ fiber. tt;
  };
  stacks = λ fiber. tt;
  log = tt;
  calm = λ quiet q t there. absurd (cc);
}

-- `each` calls `map`, whose path is left out; the paths of the others are no strings.
abbrev firings : List Firing
firings =
    record { path = none; caller = none; event = call_event (call_on 1 "each") }
    ∷ record { path = some "app.rb"; caller = none; event = call_event (call_on 1 "map") }
    ∷ record { path = some "app.rb"; caller = none; event = return_event (return_on 1 "map") }
    ∷ record { path = none; caller = none; event = return_event (return_on 1 "each") }
    ∷ []

process_tracepoints-Run_example :
    Ensures
      (λ _ t.
        Filtered vm classes 8 2 IsApp 31
          (call_event (call_on 1 "each") ∷ return_event (return_on 1 "each") ∷ [])
          idle
          t)
      (process_tracepoints vm 8 2 firings filtering)
unfolding has
process_tracepoints-Run_example =
    process_tracepoints-Run vm classes IsObject 8 2 world IsApp 31 firings filtering idle
      (λ p q e e' same. e ∙ sym e') (tt, tt, (refl, tt, (refl, tt, (tt, tt, tt))))
      (call_on-IsCallable 1 "each", (refl, tt)) refl filtering-IsCached filtering-Models
