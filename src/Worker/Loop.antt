-- ===== src/Worker/Loop.antt =====
-- ext/racer/worker.cc, init_worker: the messages of the queue in the order in which they are popped.
use racer_rb.Base.{ℕ, Option, none, some}
use racer_rb.Traces.{ReturnTrace, Heap}
use racer_rb.Json.{JsonLib}
use racer_rb.Worker.Writer.{write_message}
use racer_rb.Worker.Sizes.{array_size}

module _ (J : JsonLib) where
  open J use {Array, Text, new_array_ext, to_json_string}

  abbrev to_text : Option Array → Option Text
  to_text none = none
  to_text (some a) = some (to_json_string a)

  abbrev sized : Option ℕ → (ℕ → Option Text) → Option Text
  sized none k = none
  sized (some n) k = k n

  -- The string that is sent for a trace.
  unfoldable pub message_text : Heap → ℕ → ReturnTrace → Option Text
  message_text h f trace =
      sized (array_size h f trace) λ size. to_text (write_message J h f trace (new_array_ext size))
