-- ===== src/Agent/Stream.antt =====
-- lib/racer/agent.rb, worker_loop: messages cut from what a connection gives. A string is the list of
-- its bytes.
use racer_rb.Base.{
  ℕ, zero, suc, Bool, true, false, Option, none, some, List, [], ◌∷◌, ◌++◌, map, ◌==◌,
  if◌then◌else◌,
}
use racer_rb.Json.{Value}
use racer_rb.Agent.Trace.{RubyTrace}
use racer_rb.Agent.Shift.{Result, ok, raised, out_of_fuel, shift_message}

abbrev pub Bytes : Type 0
Bytes = List ℕ

abbrev pub is_empty : Bytes → Bool
is_empty [] = true
is_empty (b ∷ bs) = false

-- What stands between the zeros, the first part after what `acc` has of it.
unfoldable pub pieces : Bytes → Bytes → List Bytes
pieces acc [] = acc ∷ []
pieces acc (zero ∷ bs) = acc ∷ pieces [] bs
pieces acc (suc b ∷ bs) = pieces (acc ++ suc b ∷ []) bs

-- `String#split` drops the empty strings at the end.
abbrev pub kept_piece : Bytes → List Bytes → List Bytes
kept_piece [] [] = []
kept_piece piece rest = piece ∷ rest

unfoldable pub drop_empty : List Bytes → List Bytes
drop_empty [] = []
drop_empty (piece ∷ rest) = kept_piece piece (drop_empty rest)

-- `received.split("\0")`
unfoldable pub split : Bytes → List Bytes
unfolding pieces drop_empty
split received = drop_empty (pieces [] received)

-- `*messages, last_message = parts`
unfoldable pub all_and_last : List Bytes → List Bytes × Option Bytes
all_and_last [] = ([], none)
all_and_last (part ∷ []) = ([], some part)
all_and_last (part ∷ next ∷ parts) =
    let (messages, last) = all_and_last (next ∷ parts) in (part ∷ messages, last)

-- `"#{message}"`
abbrev pub interpolate : Option Bytes → Bytes
interpolate none = []
interpolate (some message) = message

-- What was pending goes before the first message.
unfoldable pub join_pending : Option Bytes → List Bytes × Option Bytes → List Bytes × Option Bytes
unfolding split
join_pending none (messages, last) = (messages, last)
join_pending (some pending) ([], last) = ([], some (pending ++ interpolate last))
join_pending (some pending) (first ∷ messages, last) = (split (pending ++ first) ++ messages, last)

-- `received.end_with?("\0")`
unfoldable pub ends_with_zero : Bytes → Bool
ends_with_zero [] = false
ends_with_zero (b ∷ []) = b == 0
ends_with_zero (b ∷ c ∷ bs) = ends_with_zero (c ∷ bs)

abbrev pub take_last : Bool → List Bytes × Option Bytes → List (Option Bytes) × Option Bytes
take_last true (messages, last) = (map some messages ++ last ∷ [], none)
take_last false (messages, last) = (map some messages, last)

-- The messages that one read completes, and what is pending after it.
unfoldable pub receive_chunk : Option Bytes → Bytes → List (Option Bytes) × Option Bytes
unfolding split all_and_last join_pending ends_with_zero
receive_chunk pending received =
    take_last (ends_with_zero received) (join_pending pending (all_and_last (split received)))

-- The loop waits for more, has returned, or was left by an exception.
pub data Ending : Type 0 where
  waiting returned failed : Ending

abbrev pub and_trace : RubyTrace → List RubyTrace × Ending → List RubyTrace × Ending
and_trace trace (traces, ending) = (trace ∷ traces, ending)

abbrev pub and_traces : List RubyTrace → List RubyTrace × Ending → List RubyTrace × Ending
and_traces before (traces, ending) = (before ++ traces, ending)

-- `@queue.push`; an exception leaves the loop.
abbrev pub push_trace :
    Result (RubyTrace × List Value) → List RubyTrace × Ending → List RubyTrace × Ending
push_trace (ok (trace, left)) rest = and_trace trace rest
push_trace raised rest = ([], failed)
push_trace out_of_fuel rest = ([], failed)

-- The loop reads on unless it has ended.
abbrev pub go_on : List RubyTrace × Ending → List RubyTrace × Ending → List RubyTrace × Ending
go_on (traces, waiting) rest = and_traces traces rest
go_on (traces, returned) rest = (traces, returned)
go_on (traces, failed) rest = (traces, failed)

-- "stop"
abbrev pub stop_bytes : Bytes
stop_bytes = 115 ∷ 116 ∷ 111 ∷ 112 ∷ []

unfoldable pub equals : Bytes → Bytes → Bool
equals [] [] = true
equals (a ∷ bs) (b ∷ cs) = if a == b then equals bs cs else false
equals _ _ = false

module _ (parse : Bytes → Option (List Value)) where
  -- The trace in each message, up to a last one, is pushed; `JSON.parse(nil)` raises.
  unfoldable pub take_messages : List (Option Bytes) → List RubyTrace × Ending
  unfolding shift_message equals
  take_messages [] = ([], waiting)
  take_messages (none ∷ messages) = ([], failed)
  take_messages (some message ∷ messages) =
      let rest = take_messages messages in
      if equals message stop_bytes
      then ([], returned)
      else push_trace (shift_message (parse message)) rest

  -- The loop of `worker_loop` over what each read gives, with the traces that it pushes. A read that
  -- gives nil is passed over, and is not among the chunks.
  unfoldable pub worker_loop : Option Bytes → List Bytes → List RubyTrace × Ending
  unfolding receive_chunk take_messages
  worker_loop pending [] = ([], waiting)
  worker_loop pending (received ∷ chunks) =
      let (messages, pending') = receive_chunk pending received in
      let rest = worker_loop pending' chunks in go_on (take_messages messages) rest
