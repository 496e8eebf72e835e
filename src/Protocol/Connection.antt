-- ===== src/Protocol/Connection.antt =====
-- ext/racer/worker.cc and ext/racer/racer.cc, flush_end, with lib/racer/agent.rb: a whole connection.
use racer_rb.Base.{
  ℕ, ◌<◌, ◌≡◌, refl, ap, ◌∙◌, Bool, true, false, Option, none, some, List, [], ◌∷◌, ◌++◌, map, All,
  length,
}
use racer_rb.Traces.{Ptr}
use racer_rb.Json.{JsonLib, Value}
use racer_rb.Agent.Trace.{RubyTrace}
use racer_rb.Agent.Shift.{ok, shift_message, receive}
use racer_rb.Agent.Stream.{
  Bytes, is_empty, returned, stop_bytes, equals, take_messages, worker_loop,
}
use racer_rb.Agent.Feed.{feed, IsPlain, AreWhole}
use racer_rb.Agent.Framing.{framed, feed-framed}
use racer_rb.Agent.Reading.{concat, worker_loop-feed}
use racer_rb.Protocol.Tokens.{trace_tokens}
use racer_rb.Worker.Sending.{init_worker}
use racer_rb.Racer.State.{Message, stop_message, State}
use racer_rb.Racer.Ensures.{Ensures, Ensures-mono}
use racer_rb.Racer.Owned.{without_all}
use racer_rb.Protocol.Queued.{Queued, view, messages_of}
use racer_rb.Protocol.Sending.{AreReceived, AreQueued, init_worker-AllSent}

-- A message that is not empty, has no zero byte, is not the last one, and is read as the trace.
pub record IsMessageOf (parse : Bytes → Option (List Value)) (message : Bytes) (trace : RubyTrace)
    : Type 0 where
  pub filled : is_empty message ≡ false
  pub plain : IsPlain message
  pub not_last : equals message stop_bytes ≡ false
  pub parsed : shift_message (parse message) ≡ ok (trace, [])

abbrev pub AreMessagesOf : (Bytes → Option (List Value)) → List Bytes → List RubyTrace → Type 0
AreMessagesOf parse [] [] = Unit
AreMessagesOf parse [] (t ∷ ts) = ⊥
AreMessagesOf parse (m ∷ ms) [] = ⊥
AreMessagesOf parse (m ∷ ms) (t ∷ ts) = IsMessageOf parse m t × AreMessagesOf parse ms ts

-- What is sent in a session: each message, and the last one, with a zero after it.
abbrev pub session_bytes : List Bytes → Bytes
session_bytes ms = framed (ms ++ stop_bytes ∷ [])

module _ (parse : Bytes → Option (List Value)) where
  all_plain :
      (ms : List Bytes) (ts : List RubyTrace)
      → AreMessagesOf parse ms ts
      → All IsPlain (ms ++ stop_bytes ∷ [])
  all_plain [] [] are = (tt, tt)
  all_plain [] (t ∷ ts) are = absurd are
  all_plain (m ∷ ms) [] are = absurd are
  all_plain (m ∷ ms) (t ∷ ts) (is, are) = (is.plain, all_plain ms ts are)

  all_filled :
      (ms : List Bytes) (ts : List RubyTrace)
      → AreMessagesOf parse ms ts
      → AreWhole (ms ++ stop_bytes ∷ [])
  all_filled [] [] are = (refl, tt)
  all_filled [] (t ∷ ts) are = absurd are
  all_filled (m ∷ ms) [] are = absurd are
  all_filled (m ∷ ms) (t ∷ ts) (is, are) = (is.filled, all_filled ms ts are)

  take_messages-all :
      (ms : List Bytes) (ts : List RubyTrace)
      → AreMessagesOf parse ms ts
      → take_messages parse (map some (ms ++ stop_bytes ∷ [])) ≡ (ts, returned)
  unfolding take_messages equals
  take_messages-all [] [] are = refl
  take_messages-all [] (t ∷ ts) are = absurd are
  take_messages-all (m ∷ ms) [] are = absurd are
  take_messages-all (m ∷ ms) (t ∷ ts) (is, are) =
      rw (is.not_last, is.parsed, take_messages-all ms ts are) refl

  pub worker_loop-session :
      (ms : List Bytes) (ts : List RubyTrace) (chunks : List Bytes)
      → AreMessagesOf parse ms ts
      → All (λ chunk. is_empty chunk ≡ false) chunks
      → concat chunks ≡ session_bytes ms
      → worker_loop parse none chunks ≡ (ts, returned)
  worker_loop-session ms ts chunks are filled whole =
      let read : feed [] (concat chunks) ≡ (ms ++ stop_bytes ∷ [], []) =
        ap (feed []) whole ∙ feed-framed (ms ++ stop_bytes ∷ []) (all_plain ms ts are) in
      worker_loop-feed parse [] chunks tt filled (rw read (all_filled ms ts are))
      ∙ ap (λ (q : List Bytes × Bytes). take_messages parse (map some q.0)) read
      ∙ take_messages-all ms ts are

module _ (J : JsonLib) (bytes : JsonLib.Text J → Bytes) (parse : Bytes → Option (List Value)) where
  open J use {Text}

  -- As bytes a text is not empty, has no zero, is not the last message, and parses as it does.
  pub record IsWired (text : Text) : Type 0 where
    pub filled : is_empty (bytes text) ≡ false
    pub plain : IsPlain (bytes text)
    pub not_last : equals (bytes text) stop_bytes ≡ false
    pub parsed : parse (bytes text) ≡ J.parse text

  abbrev pub views : List Queued → List RubyTrace
  views [] = []
  views (q ∷ qs) = view q ∷ views qs

  -- The texts that parse to the values of a trace.
  abbrev pub WiresTexts : Queued → Type 0
  WiresTexts q = (text : Text) → J.parse text ≡ some (trace_tokens (view q)) → IsWired text

  abbrev pub all_bytes : List Text → List Bytes
  all_bytes [] = []
  all_bytes (text ∷ texts) = bytes text ∷ all_bytes texts

  received-AreMessagesOf :
      (texts : List Text) (queue : List Queued)
      → All WiresTexts queue
      → AreReceived J texts queue
      → AreMessagesOf parse (all_bytes texts) (views queue)
  unfolding receive
  received-AreMessagesOf [] [] wired are = tt
  received-AreMessagesOf [] (q ∷ qs) wired are = absurd are
  received-AreMessagesOf (text ∷ texts) [] wired are = absurd are
  received-AreMessagesOf (text ∷ texts) (q ∷ qs) (wires, wired) (parsed, received, are) =
      let is = wires text parsed in
      (
        record {
          filled = is.filled;
          plain = is.plain;
          not_last = is.not_last;
          parsed = rw (is.parsed) received;
        },
        received-AreMessagesOf texts qs wired are,
      )

  -- Let the traces of the queue own the traces at `os`, none of them twice, be well-formed, with block
  -- traces no deeper than the fuel, and be followed by the last message; let `send` succeed for each. Let
  -- each text that parses to the values of one of them be, as bytes, not empty, without a zero, other
  -- than `stop`, and parsed alike. Then the worker ends without undefined behaviour, it frees the traces
  -- at `os`, each once, and changes nothing else; and when its texts and then `stop`, each with a zero
  -- after it, come to the agent divided in any way into reads of at least one byte, the agent pushes
  -- exactly the views of the traces of the queue, in order, and returns.
  pub init_worker-worker_loop :
      (send_ok : ℕ → Bool) (f g : ℕ) (queue : List Queued) (os : List Ptr) (later : List Message)
      (s : State) (divide : Bytes → List Bytes)
      → AreQueued f g queue os s
      → ((i : ℕ) → i < length queue → send_ok i ≡ true)
      → All WiresTexts queue
      → ((bs : Bytes) → concat (divide bs) ≡ bs)
      → ((bs : Bytes) → All (λ chunk. is_empty chunk ≡ false) (divide bs))
      → Ensures
          (λ texts t.
            (worker_loop parse none (divide (session_bytes (all_bytes texts)))
              ≡ (views queue, returned))
            × (t ≡ record s { heap = without_all os s.heap }))
          (init_worker J send_ok g f 0 (messages_of queue ++ stop_message ∷ later) s)
  init_worker-worker_loop send_ok f g queue os later s divide are sent wired whole filled =
      Ensures-mono (init_worker-AllSent J send_ok f g queue os s are later sent) λ texts t all. (
        worker_loop-session parse (all_bytes texts) (views queue)
            (divide (session_bytes (all_bytes texts)))
            (received-AreMessagesOf texts queue wired all.received)
            (filled (session_bytes (all_bytes texts))) (whole (session_bytes (all_bytes texts))),
        all.state,
      )
