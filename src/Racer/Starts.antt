-- ===== src/Racer/Starts.antt =====
-- ext/racer/racer.cc, start: the answers that are kept in matched_paths when the regular expression
-- changes.
use mathlib.Core.Path.{subst}
use racer_rb.Base.{
  ℕ, String, ◌≡◌, refl, sym, ap, ◌∙◌, Bool, true, false, Option, none, some, List, [],
  if◌then◌else◌, lookup, Bool-cases, inl, inr, some_same,
}
use racer_rb.Racer.State.{RubyValue, Vm, State, pure, ◌>>=◌}
use racer_rb.Racer.Ensures.{Ensures, holds, Ensures-bind}
use racer_rb.Racer.Session.{
  Connection, enable_or_connect, StartResult, raised_type_error, set_path_matcher, set_depth, start,
}
use racer_rb.Racer.Paths.{check_event, should_process_event}
use racer_rb.Racer.PathCache.{HashIsInjective, IsInUse, is_traced, should_process-is_traced}
use racer_rb.Racer.StartStates.{
  option_matches, EqualMatchAlike, CacheIsRight, start_result, matcher_after, Started, with_start,
  raised_not_returned, Connects, enable_or_connect-Connects,
}

module _ (vm : Vm) (InUse : String → Type 0) (alike : EqualMatchAlike vm InUse) where
  cleared_if :
      (given : Option RubyValue) (s : State) (same : Bool) (path : String) (b : Bool)
      → (same ≡ true → option_matches vm s.path_matcher path ≡ option_matches vm given path)
      → InUse path
      → CacheIsRight vm InUse s
      → lookup (Vm.rb_str_hash vm path) (if same then s.matched_paths else []) ≡ some b
      → option_matches vm given path ≡ some b
  unfolding lookup
  cleared_if given s true path b alike used right e = sym (alike refl) ∙ right path b used e
  cleared_if given s false path b alike used right e = cc

  set_path_matcher-CacheIsRight :
      (given : Option RubyValue) (s : State)
      → CacheIsRight vm InUse s
      → CacheIsRight vm InUse (set_path_matcher vm given s)
  set_path_matcher-CacheIsRight given s right path b used e =
      cleared_if given s (Vm.rb_equal vm s.path_matcher given) path b
        (alike s.path_matcher given path used) used right e

  set_depth-Started :
      (connection : Connection) (given : Option RubyValue) (fixnum : Option ℕ) (s : State)
      → start_result vm given fixnum ≡ start_result vm none fixnum
      → matcher_after vm s.path_matcher given ≡ given
      → CacheIsRight vm InUse s
      → Ensures
          (Started vm InUse connection given fixnum s)
          (set_depth connection fixnum (set_path_matcher vm given s))
  set_depth-Started connection given none s result after right = holds (record {
    result = sym result;
    matcher = sym after;
    right = set_path_matcher-CacheIsRight given s right;
    raised = λ _. refl;
    depth = λ no. absurd (raised_not_returned no);
    socket = λ no. absurd (raised_not_returned no);
    tracing = λ no. absurd (raised_not_returned no);
    frame = refl;
  })
  set_depth-Started connection given (some depth) s result after right =
      let t =
        enable_or_connect connection s.tp_call
          (record (set_path_matcher vm given s) { max_generic_depth = depth }) in
      let c : Connects connection s.tp_call
          (record (set_path_matcher vm given s) { max_generic_depth = depth }) t =
        enable_or_connect-Connects connection s.tp_call _ refl in
      let matcher : t.path_matcher ≡ given = ap (λ (v : State). v.path_matcher) c.frame in
      let answers : t.matched_paths ≡ (set_path_matcher vm given s).matched_paths =
        ap (λ (v : State). v.matched_paths) c.frame in
      holds (record {
        result = sym result;
        matcher = matcher ∙ sym after;
        right = λ path b used e.
            ap (λ o. option_matches vm o path) matcher
            ∙ set_path_matcher-CacheIsRight given s right path b used (rw answers at e);
        raised = λ no. absurd (raised_not_returned (sym no));
        depth = λ _. ap (λ (v : State). some v.max_generic_depth) (sym c.frame);
        socket = λ _. c.socket;
        tracing = λ _. c.tracing;
        frame = ap (with_start t) c.frame;
      })

  start-Started :
      (connection : Connection) (given : Option RubyValue) (fixnum : Option ℕ) (s : State)
      → CacheIsRight vm InUse s
      → Ensures (Started vm InUse connection given fixnum s) (start vm connection given fixnum s)
  unfolding start
  start-Started connection none fixnum s right =
      set_depth-Started connection none fixnum s refl refl right
  start-Started connection (some matcher) fixnum s right =
      elim (Bool-cases (Vm.is_regexp vm matcher)) [
        | inl is ↦
            rw (start, is)
              (set_depth-Started connection (some matcher) fixnum s (accepted matcher fixnum is)
                (rw is refl) right)
        | inr other ↦
            rw (start, other)
              (holds (record {
                result = sym (refused matcher fixnum other);
                matcher = rw other refl;
                right = right;
                raised = λ _. refl;
                depth = λ r. absurd (raised_not_returned r);
                socket = λ r. absurd (raised_not_returned r);
                tracing = λ r. absurd (raised_not_returned r);
                frame = refl;
              }))
      ]
    where
      accepted :
          (matcher : RubyValue) (fixnum : Option ℕ)
          → Vm.is_regexp vm matcher ≡ true
          → start_result vm (some matcher) fixnum ≡ start_result vm none fixnum
      accepted matcher none is = refl
      accepted matcher (some depth) is = rw is refl

      refused :
          (matcher : RubyValue) (fixnum : Option ℕ)
          → Vm.is_regexp vm matcher ≡ false
          → start_result vm (some matcher) fixnum ≡ raised_type_error
      refused matcher none other = refl
      refused matcher (some depth) other = rw other refl

  -- An event in a state with right answers.
  decided :
      (path caller : Option String) (o : Option RubyValue) (s : State)
      → HashIsInjective vm InUse
      → IsInUse InUse path
      → IsInUse InUse caller
      → s.path_matcher ≡ o
      → CacheIsRight vm InUse s
      → Ensures
          (λ b t.
            (b ≡ is_traced vm o path caller)
            × CacheIsRight vm InUse t
            × (t ≡ record s { matched_paths = t.matched_paths }))
          (should_process_event vm path caller s)
  unfolding should_process_event check_event
  decided path caller none s injective used used' e right =
      subst
        (λ o.
          Ensures
            (λ b t.
              (b ≡ true)
              × CacheIsRight vm InUse t
              × (t ≡ record s { matched_paths = t.matched_paths }))
            (check_event vm o path caller s))
        (sym e) (holds (refl, right, refl))
  decided path caller (some matcher) s injective used used' e right =
      let (t, is, cached, frame) =
        should_process-is_traced vm InUse injective matcher path caller s used used' e
          (λ q b in_use found. sym (
            some_same (some (Vm.regexp_matches vm matcher q)) refl
              (rw e at (right q b in_use found)))) in
      subst
        (λ r.
          Ensures
            (λ b t.
              (b ≡ is_traced vm (some matcher) path caller)
              × CacheIsRight vm InUse t
              × (t ≡ record s { matched_paths = t.matched_paths }))
            r)
        (sym is)
        (holds (
          refl,
          λ q b in_use found.
              rw (ap (λ (v : State). v.path_matcher) frame ∙ e)
                (ap some (sym (cached q b in_use found))),
          frame,
        ))

-- Answers that are kept later are no harm.
Started-answers :
    (vm : Vm) (InUse : String → Type 0) (connection : Connection) (given : Option RubyValue)
    (fixnum : Option ℕ) (s : State) (r : StartResult) (t : State) (answers : List (ℕ × Bool))
    → Started vm InUse connection given fixnum s r t
    → CacheIsRight vm InUse (record t { matched_paths = answers })
    → Started vm InUse connection given fixnum s r (record t { matched_paths = answers })
Started-answers vm InUse connection given fixnum s r t answers started right = record {
  result = started.result;
  matcher = started.matcher;
  right = right;
  raised = λ e. ap (λ (v : State). record v { matched_paths = answers }) (started.raised e);
  depth = started.depth;
  socket = started.socket;
  tracing = started.tracing;
  frame = ap (λ (v : State). record v { matched_paths = answers }) started.frame;
}

-- Let no two paths in use have the same hash, the path of an event and that of its caller be in use,
-- equal regular expressions match the same paths in use, nil equal nil alone, and the answers that are
-- kept for paths in use be those of the regular expression in force. Then a start and the question
-- whether to trace an event after it end without undefined behaviour. The start returns where the
-- matcher is nil or a regular expression and the depth a Fixnum, and else raises a TypeError. The
-- matcher is in force after it, even where the depth is refused; where it is refused itself, the one
-- before stays. The event is traced exactly as the matcher in force says with no cache, and the answers
-- kept for paths in use are its answers. A start that raises changes nothing but the matcher and the
-- kept answers. One that returns has set the depth, and has enabled the tracepoint if there is one, or
-- else the socket and the tracepoint are as the attempt to connect leaves them; nothing else but the
-- queue changes.
pub start-is_traced :
    (vm : Vm) (InUse : String → Type 0) (connection : Connection) (given : Option RubyValue)
    (fixnum : Option ℕ) (path caller : Option String) (s : State)
    → HashIsInjective vm InUse
    → EqualMatchAlike vm InUse
    → IsInUse InUse path
    → IsInUse InUse caller
    → CacheIsRight vm InUse s
    → Ensures
        (λ (r, b) t.
          Started vm InUse connection given fixnum s r t
          × (b ≡ is_traced vm (matcher_after vm s.path_matcher given) path caller))
        ((start vm connection given fixnum >>= λ r.
            should_process_event vm path caller >>= λ b. pure (r, b))
          s)
start-is_traced vm InUse connection given fixnum path caller s injective alike used used' right =
    Ensures-bind _ (start-Started vm InUse alike connection given fixnum s right) λ r t started.
      Ensures-bind _
        (decided vm InUse alike path caller t.path_matcher t injective used used' refl
          started.right)
        λ b u (traced, right', frame). holds (
          subst (Started vm InUse connection given fixnum s r) (sym frame) (
              Started-answers vm InUse connection given fixnum s r t u.matched_paths started
                (subst (CacheIsRight vm InUse) frame right')),
          traced ∙ ap (λ o. is_traced vm o path caller) started.matcher,
        )
