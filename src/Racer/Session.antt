-- ===== src/Racer/Session.antt =====
-- ext/racer/racer.cc, start, stop and flush_end.
use racer_rb.Base.{
  ℕ, Bool, true, false, not, Option, none, some, List, [], ◌∷◌, ◌++◌, if◌then◌else◌,
}
use racer_rb.Traces.{Ptr}
use racer_rb.Racer.State.{
  RubyValue, Vm, no_socket, connected, closed, stop_message, State, M, pure, ◌>>=◌, ◌>>◌, modify,
  read_trace,
}
use racer_rb.Racer.Free.{free_trace}
use racer_rb.Racer.Calls.{disable_block}

-- What `socket` and `connect` of the operating system answer.
pub data Connection : Type 0 where
  no_socket_left no_agent agent : Connection

abbrev pub connect : Connection → State → State
connect no_socket_left s = record s { socket = closed }
connect no_agent s = record s { socket = no_socket }
connect agent s = record s { socket = connected; tp_call = some true; pushed = [] }

abbrev pub enable_or_connect : Connection → Option Bool → State → State
enable_or_connect connection (some enabled) s = record s { tp_call = some true }
enable_or_connect connection none s = connect connection s

-- How `start` ends: a TypeError of `Check_Type` leaves the extension with the statics as they then are.
pub data StartResult : Type 0 where
  returned raised_type_error : StartResult

-- The first `Check_Type`, of a matcher that is not nil.
abbrev pub is_refused : Vm → Option RubyValue → Bool
is_refused vm none = false
is_refused vm (some matcher) = not (Vm.is_regexp vm matcher)

abbrev pub set_path_matcher : Vm → Option RubyValue → State → State
set_path_matcher vm matcher s = record s {
  matched_paths = if Vm.rb_equal vm s.path_matcher matcher then s.matched_paths else [];
  path_matcher = matcher;
}

-- The second `Check_Type` and what follows: `none` is a depth that is no Fixnum. A queue that is created
-- is empty.
abbrev pub set_depth : Connection → Option ℕ → M StartResult
set_depth connection none s = some (raised_type_error, s)
set_depth connection (some depth) s =
    some (returned, enable_or_connect connection s.tp_call (record s { max_generic_depth = depth }))

-- A Fixnum depth is one that is not negative.
unfoldable pub start : Vm → Connection → Option RubyValue → Option ℕ → M StartResult
start vm connection matcher depth =
    if is_refused vm matcher
    then pure raised_type_error
    else (do modify (set_path_matcher vm matcher); set_depth connection depth)

abbrev pub disable : Option Bool → Option Bool
disable none = none
disable (some enabled) = some false

module _ (f : ℕ) where
  unfoldable pub stop_stack : List Ptr → M (Unit {0})
  unfolding read_trace disable_block free_trace
  stop_stack [] = pure tt
  stop_stack (p ∷ ps) = do
    trace ← read_trace p
    disable_block trace.block_param
    free_trace f p
    stop_stack ps

  unfoldable pub stop_stacks : List (ℕ × List Ptr) → M (Unit {0})
  unfolding stop_stack
  stop_stacks [] = pure tt
  stop_stacks ((fiber, stack) ∷ stacks) = stop_stack stack >> stop_stacks stacks

  unfoldable pub stop : M (Unit {0})
  unfolding stop_stacks
  stop s =
      (do stop_stacks s.call_stacks; modify λ t. record t { call_stacks = [] })
        (record s { tp_call = disable s.tp_call })

  unfoldable pub flush_end : M (Unit {0})
  unfolding stop
  flush_end s = elim s.socket [
    | connected ↦
        (do
          stop
          modify λ t. record t {
            tp_call = none;
            pushed = t.pushed ++ stop_message ∷ [];
            socket = closed;
          })
          s
    | _ ↦ some (tt, s)
  ]
