-- ===== src/Racer/Dispatch.antt =====
-- ext/racer/racer.cc, process_tracepoint: the events of a program that are traced, one after the other.
use mathlib.Core.Path.{subst}
use racer_rb.Base.{
  ℕ, String, ◌≡◌, refl, sym, ap, ◌∙◌, Bool, true, false, Option, some, List, [], ◌∷◌, if◌then◌else◌,
  All,
}
use racer_rb.Racer.State.{RubyValue, Vm, State, M, pure, ◌>>◌}
use racer_rb.Racer.Ensures.{Ensures, holds, Ensures-bind, Ensures-mono, Ensures-both}
use racer_rb.Racer.Events.{Event, process_event, process_tracepoint}
use racer_rb.Racer.PathCache.{
  HashIsInjective, IsInUse, IsCached, is_traced, should_process-is_traced,
}
use racer_rb.Racer.Stacks.{World}
use racer_rb.Racer.Tracer.{Tracer, Run, done, step, Models, IsProper}
use racer_rb.Racer.Filters.{process_event-SameFilter, answers-Models}
use racer_rb.Racer.Refines.{process_event-Step}

-- An event as it comes to the tracepoint, with its path and that of its caller.
pub record Firing : Type 0 where
  pub path : Option String
  pub caller : Option String
  pub event : Event

-- The tracepoint at one event after the other.
unfoldable pub process_tracepoints : Vm → ℕ → ℕ → List Firing → M (Unit {0})
unfolding process_tracepoint
process_tracepoints vm f levels [] = pure tt
process_tracepoints vm f levels (x ∷ later) =
    process_tracepoint vm f levels x.path x.caller x.event >> process_tracepoints vm f levels later

-- The events that the regular expression, with no cache, says are to be traced.
abbrev pub selected_if : Bool → Event → List Event → List Event
selected_if true e es = e ∷ es
selected_if false e es = es

abbrev pub selected : Vm → RubyValue → List Firing → List Event
selected vm matcher [] = []
selected vm matcher (x ∷ later) =
    selected_if (is_traced vm (some matcher) x.path x.caller) x.event (selected vm matcher later)

abbrev pub AreInUse : (String → Type 0) → List Firing → Type 0
AreInUse InUse [] = Unit
AreInUse InUse (x ∷ later) = IsInUse InUse x.path × IsInUse InUse x.caller × AreInUse InUse later

-- What the tracepoint comes to: the abstract tracer has gone by the events, and the filter is as it is
-- to be.
pub record Filtered (vm : Vm) (classes : List RubyValue) (f levels : ℕ) (InUse : String → Type 0)
    (matcher : RubyValue) (es : List Event) (a : Tracer) (t : State) : Type 0 where
  pub tracer : Tracer
  pub run : Run es a tracer
  pub models : Models classes f levels t tracer
  pub matcher_stays : t.path_matcher ≡ some matcher
  pub cached : IsCached vm InUse matcher t

module _ (vm : Vm) (classes : List RubyValue) (IsObject : RubyValue → Type 0) (f levels : ℕ)
    (world : World vm classes IsObject) where
  -- One event that has been decided, and those that come after it.
  handled :
      (InUse : String → Type 0) (matcher : RubyValue) (e : Event) (later : List Firing) (t : State)
      (a : Tracer) (traced : Bool)
      → Models classes f levels t a
      → t.path_matcher ≡ some matcher
      → IsCached vm InUse matcher t
      → All
          (IsProper vm classes IsObject f levels)
          (selected_if traced e (selected vm matcher later))
      → ((u : State) (b : Tracer)
          → All (IsProper vm classes IsObject f levels) (selected vm matcher later)
          → u.path_matcher ≡ some matcher
          → IsCached vm InUse matcher u
          → Models classes f levels u b
          → Ensures
              (λ _ v. Filtered vm classes f levels InUse matcher (selected vm matcher later) b v)
              (process_tracepoints vm f levels later u))
      → Ensures
          (λ _ u.
            Filtered vm classes f levels InUse matcher
              (selected_if traced e (selected vm matcher later))
              a
              u)
          (((if traced then process_event vm f levels e else pure tt)
              >> process_tracepoints vm f levels later)
            t)
  handled InUse matcher e later t a false models is cached proper rest =
      rest t a proper is cached models
  handled InUse matcher e later t a true models is cached (first, proper) rest =
      Ensures-bind _
        (Ensures-both (process_event-Step vm classes IsObject f levels world e t a first models)
          (process_event-SameFilter vm classes IsObject f levels world e t first models.good))
        λ _ u ((b, stepped, models'), same).
          Ensures-mono
            (rest u b proper (same.matcher ∙ is)
              (λ path c used found. cached path c used (rw same.answers at found)) models')
            λ _ v done. record {
              tracer = done.tracer;
              run = step stepped done.run;
              models = done.models;
              matcher_stays = done.matcher_stays;
              cached = done.cached;
            }

  -- Let the classes of a program be closed under what explorations come to, and the classes and values
  -- of those of its events that are to be traced be among them; let no two paths in use have the same
  -- hash, the paths of the events and of their callers be in use, and the kept answers be right. Let the
  -- state be in order, and be what a state of the abstract tracer says. Then the tracepoint goes through
  -- all the events without undefined behaviour, and the abstract tracer may get, by exactly those events
  -- whose path is no string or matches the regular expression, or whose caller has a path that matches,
  -- in order, to a state that the resulting state is again what it says. The regular expression stays,
  -- and the kept answers are right at the end.
  pub process_tracepoints-Run :
      (InUse : String → Type 0) (matcher : RubyValue) (xs : List Firing) (s : State) (a : Tracer)
      → HashIsInjective vm InUse
      → AreInUse InUse xs
      → All (IsProper vm classes IsObject f levels) (selected vm matcher xs)
      → s.path_matcher ≡ some matcher
      → IsCached vm InUse matcher s
      → Models classes f levels s a
      → Ensures
          (λ _ t. Filtered vm classes f levels InUse matcher (selected vm matcher xs) a t)
          (process_tracepoints vm f levels xs s)
  unfolding process_tracepoints process_tracepoint
  process_tracepoints-Run InUse matcher [] s a injective used proper e cached models =
      holds (record {
        tracer = a;
        run = done refl;
        models = models;
        matcher_stays = e;
        cached = cached;
      })
  process_tracepoints-Run InUse matcher (x ∷ later) s a injective (used, used', all) proper e cached
        models =
      let (t, decided, right, frame) =
        should_process-is_traced vm InUse injective matcher x.path x.caller s used used' e cached in
      let models' : Models classes f levels t a =
        subst (λ u. Models classes f levels u a) (sym frame)
          (answers-Models vm classes IsObject f levels world s a t.matched_paths models) in
      let e' : t.path_matcher ≡ some matcher = ap (λ (v : State). v.path_matcher) frame ∙ e in
      rw (process_tracepoints, process_tracepoint, decided)
        (handled InUse matcher x.event later t a (is_traced vm (some matcher) x.path x.caller)
          models' e' right proper
          (λ u b. process_tracepoints-Run InUse matcher later u b injective all))
