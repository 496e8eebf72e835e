-- ===== src/Racer/Paths.antt =====
-- ext/racer/racer.cc, process_event_check_path and should_process_event: which files are traced, with
-- the answers of the regular expression kept by the hash of the path.
use racer_rb.Base.{String, Bool, true, false, Option, none, some, lookup, insert, if◌then◌else◌}
use racer_rb.Racer.State.{RubyValue, Vm, M, pure, ◌>>=◌}

module _ (vm : Vm) where
  open vm use {regexp_matches, rb_str_hash}

  unfoldable pub match_path : RubyValue → String → Option Bool → M Bool
  match_path matcher path (some known) s = some (known, s)
  match_path matcher path none s =
      let result = regexp_matches matcher path in
      some (result, record s { matched_paths = insert (rb_str_hash path) result s.matched_paths })

  -- `none` is a path that is no string.
  unfoldable pub process_event_check_path : RubyValue → Option String → M Bool
  unfolding match_path
  process_event_check_path matcher none s = some (true, s)
  process_event_check_path matcher (some path) s =
      match_path matcher path (lookup (rb_str_hash path) s.matched_paths) s

  -- The caller's path is none where rb_profile_frame_path gives nil.
  unfoldable pub check_caller : RubyValue → Option String → M Bool
  unfolding process_event_check_path
  check_caller matcher none = pure false
  check_caller matcher (some path) = process_event_check_path matcher (some path)

  unfoldable pub check_event : Option RubyValue → Option String → Option String → M Bool
  unfolding process_event_check_path check_caller
  check_event none path caller = pure true
  check_event (some matcher) path caller = do
    traced ← process_event_check_path matcher path
    if traced then pure true else check_caller matcher caller

  unfoldable pub should_process_event : Option String → Option String → M Bool
  unfolding check_event
  should_process_event path caller s = check_event s.path_matcher path caller s
