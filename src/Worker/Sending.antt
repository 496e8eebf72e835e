-- ===== src/Worker/Sending.antt =====
-- ext/racer/worker.cc, init_worker: the loop over the queue. It runs beside the traced program; here it
-- takes the messages in order, on a state of which it changes the traces alone.
use racer_rb.Base.{ℕ, ◌+◌, Bool, Option, none, some, List, [], ◌∷◌, if◌then◌else◌}
use racer_rb.Traces.{ReturnTrace}
use racer_rb.Json.{JsonLib}
use racer_rb.Racer.State.{Message, trace_message, stop_message, M, pure, ◌>>=◌, ◌>>◌, read_trace}
use racer_rb.Racer.Free.{free_trace}
use racer_rb.Worker.Loop.{message_text}

module _ (J : JsonLib) where
  open J use {Text}

  abbrev pub with_text : Option Text → M Text
  with_text none s = none
  with_text (some text) s = some (text, s)

  -- `form_text g` forms the text of a trace whose blocks nest no deeper than `g`.
  abbrev pub form_text : ℕ → ReturnTrace → M Text
  form_text g trace s = with_text (message_text J s.heap g trace) s

  -- The texts that are sent, each without the zero that ends it as a C string and that `send` is given
  -- too: the bytes with it are `framed` in Agent.Framing and `session_bytes` in Protocol.Connection, which
  -- adds the last `stop` of flush_end. `send_ok n` says whether the `n`-th call of `send` succeeds. The thread
  -- ends at the last message, and where `send` fails, and waits where the queue is empty.
  unfoldable pub init_worker : (ℕ → Bool) → ℕ → ℕ → ℕ → List Message → M (List Text)
  unfolding message_text read_trace free_trace
  init_worker send_ok g f n [] = pure []
  init_worker send_ok g f n (stop_message ∷ messages) = pure []
  init_worker send_ok g f n (trace_message p ∷ messages) = do
    trace ← read_trace p
    text ← form_text g trace
    if send_ok n
        then (do
          free_trace f p
          texts ← init_worker send_ok g f (n + 1) messages
          pure (text ∷ texts))
        else pure []
