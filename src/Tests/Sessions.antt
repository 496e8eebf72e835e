-- ===== src/Tests/Sessions.antt =====
-- The end of a session, and a connection with one trace, and the theorems at them.
use mathlib.Core.Path.{subst}
use racer_rb.Base.{
  ◌≡◌, refl, sym, ap, true, false, Option, none, some, List, [], ◌∷◌, ◌==◌, if◌then◌else◌, All, has,
  some_same, arith,
}
use racer_rb.Traces.{unset_block, ReturnTrace}
use racer_rb.Json.{Value, plain_json}
use racer_rb.Racer.State.{trace_message, stop_message, connected, State, initial}
use racer_rb.Racer.Ensures.{Ensures}
use racer_rb.Racer.Free.{free_trace}
use racer_rb.Racer.Session.{flush_end}
use racer_rb.Racer.Owned.{Owns, nothing, trace_and, without_all}
use racer_rb.Racer.Ownership.{freed, free_trace-Owns}
use racer_rb.Racer.Returns.{IsMade}
use racer_rb.Racer.Stops.{AreOwned, Flushed, flush_end-Flushed}
use racer_rb.Agent.Trace.{no_block}
use racer_rb.Agent.Stream.{
  Bytes, is_empty, receive_chunk, returned, equals, take_messages, worker_loop,
}
use racer_rb.Agent.Feed.{feed}
use racer_rb.Agent.Framing.{receive_chunk-feed}
use racer_rb.Agent.Reading.{concat, worker_loop-feed}
use racer_rb.Worker.Sending.{init_worker}
use racer_rb.Protocol.Tokens.{block_param_depth, trace_tokens}
use racer_rb.Protocol.Views.{IsBlock}
use racer_rb.Protocol.Queued.{Queued, view, IsQueued}
use racer_rb.Protocol.Sending.{AreQueued, AllSent, init_worker-failed}
use racer_rb.Protocol.Connection.{session_bytes, all_bytes, init_worker-worker_loop}
use racer_rb.Tests.Samples.{heap, sample, block_call, called_block, sample-IsSendable}

-- A call of `each` that has not returned, whose block has had one call and is being called again.
abbrev tracked : ReturnTrace
tracked = record sample {
  block_param = some (record unset_block {
    tracepoint_id = 9;
    block_traces = 2 ∷ [];
    current_block_call_stack = none ∷ [];
  });
}

abbrev open_session : State
open_session = record initial {
  tp_call = some true;
  socket = connected;
  call_stacks = (1, 1 ∷ []) ∷ [];
  heap = λ p. if p == 1 then some tracked else heap p;
  block_tracepoints = λ tp. if tp == 9 then some (record { target = 1; enabled = true }) else none;
}

tracked-Owns : Owns open_session.heap 2 (1 ∷ []) (2 ∷ 1 ∷ [])
tracked-Owns =
    trace_and {t = tracked} {ps = 2 ∷ []} refl
      (trace_and {t = block_call} {ps = []} refl nothing nothing) nothing

open_session-AreOwned : AreOwned 2 (2 ∷ 1 ∷ []) open_session
unfolding has
open_session-AreOwned = record {
  owns = tracked-Owns;
  distinct = (refl, (refl, tt));
  made = (
    λ t e.
        subst (λ (u : ReturnTrace). IsMade open_session.block_tracepoints u.block_param)
          (some_same (some tracked) refl e) (λ set. refl),
    tt,
  );
}

free_trace-Owns_example : free_trace 2 1 open_session ≡ some (tt, freed (2 ∷ 1 ∷ []) open_session)
free_trace-Owns_example =
    free_trace-Owns open_session.heap 2 1 (2 ∷ 1 ∷ []) open_session tracked-Owns
      (unfold has in (refl, (refl, tt))) (λ q e. refl)

flush_end-Flushed_example :
    Ensures (λ _ t. Flushed 2 (2 ∷ 1 ∷ []) open_session t) (flush_end 2 open_session)
flush_end-Flushed_example = flush_end-Flushed 2 (2 ∷ 1 ∷ []) open_session refl open_session-AreOwned

-- A read that ends one message, has a whole one and begins another: "b\0cd\0e" after "a".
receive_chunk-feed_example :
    receive_chunk (some (97 ∷ [])) (98 ∷ 0 ∷ 99 ∷ 100 ∷ 0 ∷ 101 ∷ [])
    ≡ (some (97 ∷ 98 ∷ []) ∷ some (99 ∷ 100 ∷ []) ∷ [], some (101 ∷ []))
unfolding feed
receive_chunk-feed_example =
    receive_chunk-feed (97 ∷ []) 98 (0 ∷ 99 ∷ 100 ∷ 0 ∷ 101 ∷ []) tt (refl, (refl, tt))

abbrev blockless : ReturnTrace
blockless = record sample { block_param = none }

-- The sample trace in the queue, after its method has returned.
abbrev sent_session : State
sent_session = record initial {
  heap = λ p. if p == 1 then some sample else if p == 3 then some blockless else heap p;
}

abbrev queued : Queued
queued = record { address = 1; trace = sample; block = called_block }

queued-IsQueued : IsQueued sent_session.heap 3 queued
queued-IsQueued = record {
  here = refl;
  sendable = record {
    method_name = sample-IsSendable.method_name;
    return_type = sample-IsSendable.return_type;
    method_owner = sample-IsSendable.method_owner;
    method_callee = sample-IsSendable.method_callee;
    constant_updates = sample-IsSendable.constant_updates;
    params = sample-IsSendable.params;
    block_param = unfold IsBlock in sample-IsSendable.block_param;
  };
  depth = unfold block_param_depth in omega arith;
}

sent_session-AreQueued : AreQueued 2 3 (queued ∷ []) (2 ∷ 1 ∷ []) sent_session
unfolding has
sent_session-AreQueued = record {
  owns =
      trace_and {t = sample} {ps = 2 ∷ []} refl
        (trace_and {t = block_call} {ps = []} refl nothing nothing) nothing;
  distinct = (refl, (refl, tt));
  queued = (queued-IsQueued, tt);
}

-- Another trace in the queue, when the first one is freed.
abbrev unsent : Queued
unsent = record { address = 3; trace = blockless; block = no_block }

unsent-IsQueued : IsQueued (without_all (2 ∷ 1 ∷ []) sent_session.heap) 3 unsent
unfolding has
unsent-IsQueued = record {
  here = refl;
  sendable = record {
    method_name = sample-IsSendable.method_name;
    return_type = sample-IsSendable.return_type;
    method_owner = sample-IsSendable.method_owner;
    method_callee = sample-IsSendable.method_callee;
    constant_updates = sample-IsSendable.constant_updates;
    params = sample-IsSendable.params;
    block_param = unfold IsBlock in tt;
  };
  depth = unfold block_param_depth in omega arith;
}

-- A connection that gives one byte at each read.
abbrev bytewise : Bytes → List Bytes
bytewise [] = []
bytewise (b ∷ bs) = (b ∷ []) ∷ bytewise bs

concat-bytewise : (bs : Bytes) → concat (bytewise bs) ≡ bs
concat-bytewise [] = refl
concat-bytewise (b ∷ bs) = ap (λ rest. b ∷ rest) (concat-bytewise bs)

bytewise-filled : (bs : Bytes) → All (λ chunk. is_empty chunk ≡ false) (bytewise bs)
bytewise-filled [] = tt
bytewise-filled (b ∷ bs) = (refl, bytewise-filled bs)

-- The one text of the connection as bytes, "[]", and what they parse to.
abbrev as_bytes : List Value → Bytes
as_bytes text = 91 ∷ 93 ∷ []

abbrev parse_bytes : Bytes → Option (List Value)
parse_bytes bs = some (trace_tokens (view queued))

-- "a" is pending; the reads end it, and give a message that is cut in two.
worker_loop-feed_example :
    worker_loop parse_bytes (some (97 ∷ [])) ((0 ∷ 98 ∷ []) ∷ (99 ∷ 0 ∷ []) ∷ [])
    ≡ take_messages parse_bytes (some (97 ∷ []) ∷ some (98 ∷ 99 ∷ []) ∷ [])
unfolding feed
worker_loop-feed_example =
    worker_loop-feed parse_bytes (97 ∷ []) ((0 ∷ 98 ∷ []) ∷ (99 ∷ 0 ∷ []) ∷ []) tt
      (refl, (refl, tt)) (refl, (refl, tt))

init_worker-failed_example : Ensures (AllSent plain_json (queued ∷ []) (2 ∷ 1 ∷ []) sent_session) (
    init_worker plain_json
      (λ n. n == 0)
      3
      2
      0
      (trace_message 1 ∷ trace_message 3 ∷ stop_message ∷ [])
      sent_session)
init_worker-failed_example =
    init_worker-failed plain_json (λ n. n == 0) 2 3 (queued ∷ []) (2 ∷ 1 ∷ []) sent_session
      sent_session-AreQueued unsent (stop_message ∷ []) unsent-IsQueued (λ i lt. ground (arith, lt))
      (ground arith)

init_worker-worker_loop_example :
    Ensures
      (λ texts t.
        (worker_loop parse_bytes none
            (bytewise (session_bytes (all_bytes plain_json as_bytes parse_bytes texts)))
          ≡ (view queued ∷ [], returned))
        × (t ≡ record sent_session { heap = without_all (2 ∷ 1 ∷ []) sent_session.heap }))
      (init_worker plain_json (λ n. true) 3 2 0 (trace_message 1 ∷ stop_message ∷ []) sent_session)
unfolding equals
init_worker-worker_loop_example =
    init_worker-worker_loop plain_json as_bytes parse_bytes (λ n. true) 2 3 (queued ∷ [])
      (2 ∷ 1 ∷ []) [] sent_session bytewise sent_session-AreQueued (λ i lt. refl)
      (
        λ text parsed. record {
          filled = refl;
          plain = tt;
          not_last = ground arith;
          parsed = sym parsed;
        },
        tt,
      )
      concat-bytewise bytewise-filled
