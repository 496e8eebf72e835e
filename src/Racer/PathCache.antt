-- ===== src/Racer/PathCache.antt =====
-- ext/racer/racer.cc, should_process_event: the answers that are kept in matched_paths.
use mathlib.Core.Path.{subst}
use racer_rb.Base.{
  String, ◌≡◌, refl, sym, ap, ◌∙◌, Bool, true, false, ◌||◌, Option, none, some, ◌==◌, if◌then◌else◌,
  lookup, insert, lookup-insert,
}
use racer_rb.Racer.State.{RubyValue, Vm, State, M, pure}
use racer_rb.Racer.Paths.{
  match_path, process_event_check_path, check_caller, check_event, should_process_event,
}

-- The hash tells the paths of a program apart; `InUse` says which paths those are.
abbrev pub HashIsInjective : Vm → (String → Type 0) → Type 0
HashIsInjective vm InUse =
    (p q : String) → InUse p → InUse q → (Vm.rb_str_hash vm p == Vm.rb_str_hash vm q) ≡ true → p ≡ q

abbrev pub IsInUse : (String → Type 0) → Option String → Type 0
IsInUse InUse none = Unit
IsInUse InUse (some path) = InUse path

-- What is kept for a path in use is what the matcher says of it.
abbrev pub IsCached : Vm → (String → Type 0) → RubyValue → State → Type 0
IsCached vm InUse matcher s =
    (path : String) (b : Bool)
    → InUse path
    → lookup (Vm.rb_str_hash vm path) s.matched_paths ≡ some b
    → b ≡ Vm.regexp_matches vm matcher path

-- Whether an event is traced, with no cache: by the path of the event, where it is a string, or else
-- by the path of the caller.
abbrev pub path_matches : Vm → RubyValue → Option String → Bool
path_matches vm matcher none = true
path_matches vm matcher (some path) = Vm.regexp_matches vm matcher path

abbrev pub caller_matches : Vm → RubyValue → Option String → Bool
caller_matches vm matcher none = false
caller_matches vm matcher (some path) = Vm.regexp_matches vm matcher path

abbrev pub is_traced : Vm → Option RubyValue → Option String → Option String → Bool
is_traced vm none path caller = true
is_traced vm (some matcher) path caller =
    path_matches vm matcher path || caller_matches vm matcher caller

abbrev with_paths_of : State → State → State
with_paths_of u r = record r { matched_paths = u.matched_paths }

-- Code that answers `b`, keeps the cache right, and changes at most the cache.
record Answers (vm : Vm) (InUse : String → Type 0) (matcher : RubyValue) (m : M Bool) (b : Bool)
    : Type 0 where
  answers :
      (s : State)
      → IsCached vm InUse matcher s
      → (t : State) × (m s ≡ some (b, t))
        × IsCached vm InUse matcher t
        × (t ≡ record s { matched_paths = t.matched_paths })

cached_if :
    (vm : Vm) (matcher : RubyValue) (path q : String) (b test : Bool) {o : Option Bool}
    → (test ≡ true → path ≡ q)
    → (if test then some (Vm.regexp_matches vm matcher path) else o) ≡ some b
    → (o ≡ some b → b ≡ Vm.regexp_matches vm matcher q)
    → b ≡ Vm.regexp_matches vm matcher q
cached_if vm matcher path q b true same e old = cc (same refl)
cached_if vm matcher path q b false same e old = old e

module _ (vm : Vm) (InUse : String → Type 0) (injective : HashIsInjective vm InUse)
    (matcher : RubyValue) where
  match_path-Answers :
      (path : String) (o : Option Bool) (s : State)
      → InUse path
      → lookup (Vm.rb_str_hash vm path) s.matched_paths ≡ o
      → IsCached vm InUse matcher s
      → (t : State) × (match_path vm matcher path o s ≡ some (Vm.regexp_matches vm matcher path, t))
        × IsCached vm InUse matcher t
        × (t ≡ record s { matched_paths = t.matched_paths })
  unfolding match_path
  match_path-Answers path (some b) s used e cached =
      (s, ap (λ r. some (r, s)) (cached path b used e), cached, refl)
  match_path-Answers path none s used e cached = (
    record s {
      matched_paths =
          insert (Vm.rb_str_hash vm path) (Vm.regexp_matches vm matcher path) s.matched_paths;
    },
    refl,
    λ q b used' found.
        cached_if vm matcher path q b (Vm.rb_str_hash vm path == Vm.rb_str_hash vm q)
          (injective path q used used')
          (rw
            (lookup-insert (Vm.rb_str_hash vm path) (Vm.rb_str_hash vm q)
              (Vm.regexp_matches vm matcher path) s.matched_paths)
            at found)
          (cached q b used'),
    refl,
  )

  check_path-Answers :
      (path : Option String)
      → IsInUse InUse path
      → Answers vm InUse matcher
          (process_event_check_path vm matcher path)
          (path_matches vm matcher path)
  unfolding process_event_check_path
  check_path-Answers none used = record { answers = λ s cached. (s, refl, cached, refl) }
  check_path-Answers (some path) used = record {
    answers = λ s cached. match_path-Answers path _ s used refl cached;
  }

  check_caller-Answers :
      (path : Option String)
      → IsInUse InUse path
      → Answers vm InUse matcher (check_caller vm matcher path) (caller_matches vm matcher path)
  unfolding check_caller
  check_caller-Answers none used = record { answers = λ s cached. (s, refl, cached, refl) }
  check_caller-Answers (some path) used = check_path-Answers (some path) used

  else_caller :
      (b : Bool) (caller : Option String)
      → IsInUse InUse caller
      → Answers vm InUse matcher
          (if b then pure true else check_caller vm matcher caller)
          (b || caller_matches vm matcher caller)
  else_caller true caller used = record { answers = λ s cached. (s, refl, cached, refl) }
  else_caller false caller used = check_caller-Answers caller used

  -- If no two paths in use have the same hash, the path of the event and that of its caller are in
  -- use, and the kept answers are right, then an event is traced exactly when its path is no string or
  -- matches, or the caller has a path that matches; the kept answers stay right, and nothing but them
  -- changes.
  pub should_process-is_traced :
      (path caller : Option String) (s : State)
      → IsInUse InUse path
      → IsInUse InUse caller
      → s.path_matcher ≡ some matcher
      → IsCached vm InUse matcher s
      → (t : State) × (should_process_event vm path caller s
          ≡ some (is_traced vm (some matcher) path caller, t))
        × IsCached vm InUse matcher t
        × (t ≡ record s { matched_paths = t.matched_paths })
  unfolding should_process_event check_event
  should_process-is_traced path caller s used used' e cached =
      let (t, et, ct, ft) = (check_path-Answers path used).answers s cached in
      let (u, eu, cu, fu) =
        (else_caller (path_matches vm matcher path) caller used').answers t ct in
      (
        u,
        subst
            (λ o.
              check_event vm o path caller s
              ≡ some (path_matches vm matcher path || caller_matches vm matcher caller, u))
            (sym e) (rw et eu),
        cu,
        fu ∙ ap (with_paths_of u) ft,
      )
