-- ===== src/Protocol/Sending.antt =====
-- ext/racer/worker.cc, init_worker: each trace of the queue is sent and freed.
use mathlib.Core.Path.{subst}
use racer_rb.Base.{
  ℕ, zero, suc, ◌+◌, ◌<◌, ◌≡◌, refl, sym, ap, ◌∙◌, Bool, true, false, some, List, [], ◌∷◌, ◌++◌,
  append-nil, All, has, arith, some_same, length,
}
use racer_rb.Traces.{Ptr, ReturnTrace, Heap}
use racer_rb.Json.{JsonLib}
use racer_rb.Agent.Shift.{ok, receive}
use racer_rb.Worker.Loop.{message_text}
use racer_rb.Worker.Sending.{init_worker}
use racer_rb.Protocol.Tokens.{trace_tokens}
use racer_rb.Protocol.RoundTrip.{message_text-parse, receive-tokens, receive-message_text}
use racer_rb.Racer.State.{Message, trace_message, stop_message, State, read_trace}
use racer_rb.Racer.Ensures.{Ensures, holds, Ensures-bind, Ensures-mono}
use racer_rb.Racer.Owned.{
  without_all, AreDistinct, children, Owns, nothing, trace_and, has-left, has-middle,
}
use racer_rb.Racer.Ownership.{Agrees, freed, free_trace-FreedFirst}
use racer_rb.Protocol.Queued.{Queued, view, addresses, messages_of, IsQueued, IsQueued-Owns}

module _ (J : JsonLib) where
  open J use {Text, parse}

  -- The texts parse to the values of the traces, and are read as the traces.
  abbrev pub AreReceived : List Text → List Queued → Type 0
  AreReceived [] [] = Unit
  AreReceived [] (q ∷ qs) = ⊥
  AreReceived (text ∷ texts) [] = ⊥
  AreReceived (text ∷ texts) (q ∷ qs) =
      (parse text ≡ some (trace_tokens (view q)))
      × (receive J text ≡ ok (view q, []))
      × AreReceived texts qs

  -- The texts sent are those of the queue and then some others.
  record Sends (Q : List Text → State → Type 0) (queue : List Queued) (texts : List Text)
      (t : State) : Type 0 where
    first : List Text
    later : List Text
    whole : texts ≡ first ++ later
    received : AreReceived first queue
    rest : Q later t

  module _ (send_ok : ℕ → Bool) (g : ℕ) where
    init_worker-Sends :
        (f : ℕ) (Q : List Text → State → Type 0) (h : Heap) (queue : List Queued) (os : List Ptr)
        (n : ℕ) (more : List Message) (s : State)
        → Owns h f (addresses queue) os
        → AreDistinct os
        → Agrees h s.heap os
        → All (IsQueued h g) queue
        → ((i : ℕ) → i < n + length queue → send_ok i ≡ true)
        → Ensures Q (init_worker J send_ok g f (n + length queue) more (freed os s))
        → Ensures (Sends Q queue) (init_worker J send_ok g f n (messages_of queue ++ more) s)
    unfolding init_worker freed has read_trace message_text
    init_worker-Sends f Q h [] _ n more s nothing distinct agrees queued sent done =
        let same : n + 0 ≡ n = omega arith in
        Ensures-mono (subst (λ m. Ensures Q (init_worker J send_ok g f m more s)) same done)
          λ texts t rest. record {
            first = [];
            later = texts;
            whole = refl;
            received = tt;
            rest = rest;
          }
    init_worker-Sends zero Q h (q ∷ queue) os n more s owns distinct agrees queued sent done =
        elim owns [ ]
    init_worker-Sends (suc f) Q h (q ∷ queue) _ n more s
          (trace_and {t = u} {ps = mine} {rs = rest} here owns others) distinct agrees (is, queued)
          sent done =
        let p = Queued.address q in
        let same : u ≡ Queued.trace q = some_same (h p) here is.here in
        let owns' = subst (λ (v : ReturnTrace). Owns h f (children v.block_param) mine) same owns in
        let there : s.heap p ≡ h p = agrees p (has-middle p mine rest) in
        let is' =
          IsQueued-Owns h s.heap f g q mine owns' (λ r e. agrees r (has-left r mine (p ∷ rest) e))
            there is in
        let (text, formed, parsed) =
          message_text-parse J s.heap q.block g q.trace is'.depth is'.sendable in
        let received = receive-tokens J text q.block q.trace is'.sendable.method_callee parsed in
        let free = free_trace-FreedFirst h f p u mine rest s here owns distinct agrees in
        let count : n + suc (length queue) ≡ (n + 1) + length queue = omega arith in
        let state : freed (mine ++ p ∷ rest) s ≡ freed rest (freed (mine ++ p ∷ []) s) =
          sym free.twice in
        let done' : Ensures Q (
            init_worker J send_ok g (suc f) ((n + 1) + length queue) more
              (freed rest (freed (mine ++ p ∷ []) s))) =
          subst
            (λ m.
              Ensures Q
                (init_worker J send_ok g (suc f) m more (freed rest (freed (mine ++ p ∷ []) s))))
            count
            (subst
              (λ t. Ensures Q (init_worker J send_ok g (suc f) (n + suc (length queue)) more t))
              state done) in
        let sends : send_ok n ≡ true = sent n (omega arith) in
        rw (init_worker, read_trace, is'.here)
          (rw (formed, sends, free.freed_first)
            (Ensures-bind _
              (init_worker-Sends (suc f) Q h queue rest (n + 1) more (freed (mine ++ p ∷ []) s)
                others free.distinct free.agrees queued (λ i lt. sent i (omega (arith, lt))) done')
              λ texts t sends. holds (record {
                first = text ∷ sends.first;
                later = sends.later;
                whole = ap (λ rest. text ∷ rest) sends.whole;
                received = (parsed, received, sends.received);
                rest = sends.rest;
              })))

-- The traces of the queue own those at `os`, none twice, and each can be sent.
pub record AreQueued (f g : ℕ) (queue : List Queued) (os : List Ptr) (s : State) : Type 0 where
  pub owns : Owns s.heap f (addresses queue) os
  pub distinct : AreDistinct os
  pub queued : All (IsQueued s.heap g) queue

-- Exactly the traces of the queue have been sent and freed.
pub record AllSent (J : JsonLib) (queue : List Queued) (os : List Ptr) (s : State)
    (texts : List (JsonLib.Text J)) (t : State) : Type 0 where
  pub received : AreReceived J texts queue
  pub state : t ≡ record s { heap = without_all os s.heap }

module _ (J : JsonLib) (send_ok : ℕ → Bool) (f g : ℕ) (queue : List Queued) (os : List Ptr)
    (s : State) (are : AreQueued f g queue os s) where
  -- The texts that come after those of the queue are none, and nothing changes after it.
  IsEnd : List (JsonLib.Text J) → State → Type 0
  unfolding freed
  IsEnd texts t = (texts ≡ []) × (t ≡ freed os s)

  end-AllSent :
      (texts : List (JsonLib.Text J)) (t : State)
      → Sends J IsEnd queue texts t
      → AllSent J queue os s texts t
  unfolding IsEnd freed
  end-AllSent texts t sends =
      let (none_later, state) = sends.rest in
      let e : texts ≡ sends.first =
        sends.whole ∙ ap (λ later. sends.first ++ later) none_later ∙ append-nil sends.first in
      record {
        received = subst (λ xs. AreReceived J xs queue) (sym e) sends.received;
        state = state;
      }

  pub init_worker-AllSent :
      (later : List Message)
      → ((i : ℕ) → i < length queue → send_ok i ≡ true)
      → Ensures
          (AllSent J queue os s)
          (init_worker J send_ok g f 0 (messages_of queue ++ stop_message ∷ later) s)
  unfolding init_worker IsEnd
  init_worker-AllSent later sent =
      Ensures-mono
        (init_worker-Sends J send_ok g f IsEnd s.heap queue os 0 (stop_message ∷ later) s are.owns
          are.distinct (λ q e. refl) are.queued (λ i lt. sent i (omega (arith, lt)))
          (holds (refl, refl)))
        end-AllSent

  failed_send :
      (q : Queued) (later : List Message) (n : ℕ)
      → IsQueued (without_all os s.heap) g q
      → send_ok n ≡ false
      → init_worker J send_ok g f n (trace_message (Queued.address q) ∷ later) (freed os s)
        ≡ some ([], freed os s)
  unfolding init_worker read_trace freed
  failed_send q later n is fails =
      let (text, formed, received) =
        receive-message_text J (without_all os s.heap) q.block g q.trace is.depth is.sendable in
      rw (init_worker, read_trace, is.here) (rw (formed, fails) refl)

  -- Let the traces of the queue own the traces at `os`, none of them twice, and be well-formed, with block
  -- traces no deeper than the fuel; let another well-formed trace come after them, and `send` succeed for
  -- those of the queue and then fail. Then the thread ends without undefined behaviour. The texts sent
  -- are one for each trace of the queue, which parses to the values of its view and is read as that; the
  -- traces at `os` are freed, each once, and the other trace stays allocated, as does all that follows.
  pub init_worker-failed :
      (q : Queued) (later : List Message)
      → IsQueued (without_all os s.heap) g q
      → ((i : ℕ) → i < length queue → send_ok i ≡ true)
      → send_ok (length queue) ≡ false
      → Ensures (AllSent J queue os s) (
          init_worker J send_ok g f 0
            (messages_of queue ++ trace_message (Queued.address q) ∷ later)
            s)
  unfolding IsEnd
  init_worker-failed q later is sent fails =
      let count : 0 + length queue ≡ length queue = omega arith in
      Ensures-mono
        (init_worker-Sends J send_ok g f IsEnd s.heap queue os 0 (trace_message q.address ∷ later) s
          are.owns are.distinct (λ r e. refl) are.queued (λ i lt. sent i (omega (arith, lt)))
          (rw (failed_send q later (0 + length queue) is (rw count fails)) (holds (refl, refl))))
        end-AllSent
