-- ===== src/Racer/StartStates.antt =====
-- ext/racer/racer.cc, start: the states that it may leave.
use racer_rb.Base.{ℕ, String, ◌≡◌, refl, Bool, true, Option, none, some, if◌then◌else◌, lookup}
use racer_rb.Racer.State.{RubyValue, Vm, no_socket, connected, closed, Socket, State}
use racer_rb.Racer.Session.{
  Connection, no_socket_left, no_agent, agent, enable_or_connect, StartResult, returned,
  raised_type_error,
}

-- What the regular expression says of a path, if there is one.
abbrev pub option_matches : Vm → Option RubyValue → String → Option Bool
option_matches vm none path = none
option_matches vm (some matcher) path = some (Vm.regexp_matches vm matcher path)

-- Equal regular expressions match the same paths in use, and nil equals nil alone.
abbrev pub EqualMatchAlike : Vm → (String → Type 0) → Type 0
EqualMatchAlike vm InUse =
    (a b : Option RubyValue) (path : String)
    → InUse path
    → Vm.rb_equal vm a b ≡ true
    → option_matches vm a path ≡ option_matches vm b path

-- What is kept for a path in use is what the present regular expression says of it.
abbrev pub CacheIsRight : Vm → (String → Type 0) → State → Type 0
CacheIsRight vm InUse s =
    (path : String) (b : Bool)
    → InUse path
    → lookup (Vm.rb_str_hash vm path) s.matched_paths ≡ some b
    → option_matches vm s.path_matcher path ≡ some b

-- Whether a start with these arguments returns: the matcher is nil or a regular expression, and the
-- depth a Fixnum.
abbrev pub start_result : Vm → Option RubyValue → Option ℕ → StartResult
start_result vm none none = raised_type_error
start_result vm none (some depth) = returned
start_result vm (some matcher) none = raised_type_error
start_result vm (some matcher) (some depth) =
    if Vm.is_regexp vm matcher then returned else raised_type_error

-- The regular expression in force after a start: the one that is given, if it is one or nil, be the
-- depth a Fixnum or not, and else the one before.
abbrev pub matcher_after : Vm → (before given : Option RubyValue) → Option RubyValue
matcher_after vm before none = none
matcher_after vm before (some matcher) = if Vm.is_regexp vm matcher then some matcher else before

-- Where the connection is after a start that returns.
abbrev pub socket_after : Connection → Option Bool → Socket → Socket
socket_after connection (some enabled) before = before
socket_after agent none before = connected
socket_after no_agent none before = no_socket
socket_after no_socket_left none before = closed

abbrev pub tracing_after : Connection → Option Bool → Option Bool
tracing_after connection (some enabled) = some true
tracing_after agent none = some true
tracing_after no_agent none = none
tracing_after no_socket_left none = none

-- The state `t` after a start in `s` that ends with `r`, where at most answers have been kept since.
pub record Started (vm : Vm) (InUse : String → Type 0) (connection : Connection)
    (given : Option RubyValue) (fixnum : Option ℕ) (s : State) (r : StartResult) (t : State)
    : Type 0 where
  pub result : r ≡ start_result vm given fixnum
  pub matcher : t.path_matcher ≡ matcher_after vm s.path_matcher given
  pub right : CacheIsRight vm InUse t
  pub raised :
      r ≡ raised_type_error
      → t ≡ record s { path_matcher = t.path_matcher; matched_paths = t.matched_paths }
  pub depth : r ≡ returned → fixnum ≡ some t.max_generic_depth
  pub socket : r ≡ returned → t.socket ≡ socket_after connection s.tp_call s.socket
  pub tracing : r ≡ returned → t.tp_call ≡ tracing_after connection s.tp_call
  pub frame : t ≡ record s {
    tp_call = t.tp_call;
    socket = t.socket;
    path_matcher = t.path_matcher;
    max_generic_depth = t.max_generic_depth;
    matched_paths = t.matched_paths;
    pushed = t.pushed;
  }

abbrev pub with_start : State → State → State
with_start t r = record r {
  tp_call = t.tp_call;
  socket = t.socket;
  path_matcher = t.path_matcher;
  max_generic_depth = t.max_generic_depth;
  matched_paths = t.matched_paths;
  pushed = t.pushed;
}

pub raised_not_returned : ¬ (raised_type_error ≡ returned)
raised_not_returned e = cc

-- What the connection and the tracepoint become, and that nothing else but the queue changes.
pub record Connects (connection : Connection) (enabled : Option Bool) (s t : State) : Type 0 where
  pub socket : t.socket ≡ socket_after connection enabled s.socket
  pub tracing : t.tp_call ≡ tracing_after connection enabled
  pub frame : t ≡ record s { tp_call = t.tp_call; socket = t.socket; pushed = t.pushed }

pub enable_or_connect-Connects :
    (connection : Connection) (enabled : Option Bool) (s : State)
    → s.tp_call ≡ enabled
    → Connects connection enabled s (enable_or_connect connection enabled s)
enable_or_connect-Connects connection (some e) s off = record {
  socket = refl;
  tracing = refl;
  frame = refl;
}
enable_or_connect-Connects no_socket_left none s off = record {
  socket = refl;
  tracing = off;
  frame = refl;
}
enable_or_connect-Connects no_agent none s off = record {
  socket = refl;
  tracing = off;
  frame = refl;
}
enable_or_connect-Connects agent none s off = record { socket = refl; tracing = refl; frame = refl }
