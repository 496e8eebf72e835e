-- ===== src/Agent/Reading.antt =====
-- lib/racer/agent.rb, worker_loop: the messages of a connection, however its reads divide them.
use mathlib.Core.Path.{subst}
use racer_rb.Base.{
  ◌≡◌, refl, sym, ap, ◌∙◌, Bool, true, false, Option, none, some, List, [], ◌∷◌, ◌++◌, map,
  if◌then◌else◌, All,
}
use racer_rb.Json.{Value}
use racer_rb.Agent.Trace.{RubyTrace}
use racer_rb.Agent.Shift.{Result, ok, raised, out_of_fuel, shift_message}
use racer_rb.Agent.Stream.{
  Bytes, is_empty, Ending, waiting, returned, failed, push_trace, go_on, stop_bytes, equals,
  take_messages, worker_loop,
}
use racer_rb.Agent.Feed.{feed, IsPlain, AreWhole, to_pending, feed-IsPlain}
use racer_rb.Agent.Framing.{receive_chunk-feed, feed-append}

abbrev pub concat : List Bytes → Bytes
concat [] = []
concat (chunk ∷ chunks) = chunk ++ concat chunks

All-left : (P : Bytes → Type 0) (xs ys : List Bytes) → All P (xs ++ ys) → All P xs × All P ys
All-left P [] ys all = (tt, all)
All-left P (x ∷ xs) ys (p, all) = let (left, right) = All-left P xs ys all in ((p, left), right)

map-append :
    (xs ys : List Bytes) → map some (xs ++ ys) ≡ map {B = Option Bytes} some xs ++ map some ys
map-append [] ys = refl
map-append (x ∷ xs) ys = ap (λ rest. some x ∷ rest) (map-append xs ys)

module _ (parse : Bytes → Option (List Value)) where
  go_on-push_trace :
      (b : Bool) (o : Result (RubyTrace × List Value)) (q r : List RubyTrace × Ending)
      → (if b then ([], returned) else push_trace o (go_on q r))
        ≡ go_on (if b then ([], returned) else push_trace o q) r
  go_on-push_trace true o q r = refl
  go_on-push_trace false (ok (t, left)) (ts, waiting) r = refl
  go_on-push_trace false (ok (t, left)) (ts, returned) r = refl
  go_on-push_trace false (ok (t, left)) (ts, failed) r = refl
  go_on-push_trace false raised q r = refl
  go_on-push_trace false out_of_fuel q r = refl

  take_messages-append :
      (xs ys : List (Option Bytes))
      → take_messages parse (xs ++ ys) ≡ go_on (take_messages parse xs) (take_messages parse ys)
  unfolding take_messages
  take_messages-append [] ys = refl
  take_messages-append (none ∷ xs) ys = refl
  take_messages-append (some x ∷ xs) ys =
      ap
        (λ q.
          if equals x stop_bytes then ([], returned) else push_trace (shift_message (parse x)) q)
        (take_messages-append xs ys)
      ∙ go_on-push_trace (equals x stop_bytes) (shift_message (parse x)) (take_messages parse xs)
          (take_messages parse ys)

  -- Let no byte that is pending be a zero, let each read give at least one byte, and let no message in what
  -- the reads give together be empty. Then the agent pushes the traces that it makes of those messages in
  -- order, and ends as it ends on them, however the reads divide what they give together.
  pub worker_loop-feed :
      (acc : Bytes) (chunks : List Bytes)
      → IsPlain acc
      → All (λ chunk. is_empty chunk ≡ false) chunks
      → AreWhole (feed acc (concat chunks)).0
      → worker_loop parse (to_pending acc) chunks
        ≡ take_messages parse (map some (feed acc (concat chunks)).0)
  unfolding worker_loop take_messages
  worker_loop-feed acc [] plain filled whole = unfold feed in refl
  worker_loop-feed acc ([] ∷ chunks) plain (filled, all) whole = absurd (cc)
  worker_loop-feed acc ((b ∷ bs) ∷ chunks) plain (filled, all) whole =
      let chunk : Bytes = b ∷ bs in
      let e = feed-append acc chunk (concat chunks) in
      let (first, rest) =
        All-left (λ message. is_empty message ≡ false) (feed acc chunk).0
          (feed (feed acc chunk).1 (concat chunks)).0
          (subst (λ (q : List Bytes × Bytes). AreWhole q.0) e whole) in
      rw (receive_chunk-feed acc b bs plain first) (
        ap (go_on (take_messages parse (map some (feed acc chunk).0)))
          (worker_loop-feed (feed acc chunk).1 chunks (feed-IsPlain acc chunk plain).1 all rest)
        ∙ sym (take_messages-append (map some (feed acc chunk).0) _)
        ∙ ap (take_messages parse) (sym (map-append (feed acc chunk).0 _))
        ∙ ap (λ (q : List Bytes × Bytes). take_messages parse (map some q.0)) (sym e))
