-- ===== src/Racer/Returns.antt =====
-- ext/racer/racer.cc, process_return_event: what becomes of the trace on top of the stack.
use racer_rb.Base.{
  ℕ, ◌<◌, String, ◌≡◌, refl, sym, ap, ◌∙◌, true, false, Option, none, some, List, [], ◌∷◌, ◌++◌,
  ◌==◌, All, All-append, is_some, lookup, insert, arith, Bool-cases, inl, inr,
}
use mathlib.Core.Path.{subst}
use text.Mathlib.TextEquality.{eq_iff}
use racer_rb.Traces.{CString, ConstantInstance, Ptr, Constant, BlockParameter, ReturnTrace}
use racer_rb.Protocol.Views.{IsNamedConstant}
use racer_rb.Racer.State.{
  RubyValue, Vm, trace_message, BlockTracepoint, State, pure, update, read_trace, write_trace,
  disable_tracepoint,
}
use racer_rb.Racer.Calls.{
  ReturnEvent, strcmp_eq, disable_block, constants_at, take_constant_updates, send_trace,
  return_from, process_return_event,
}
use racer_rb.Racer.Ensures.{Ensures, holds, Ensures-bind, Ensures-if}
use racer_rb.Racer.Closed.{IsClosed, AreObjects}
use racer_rb.Racer.Known.{IsKnown, Ready, Kept}
use racer_rb.Racer.Types.{IsType, value_to_instance-IsType}

-- The stack has no trace on top, or one of another method.
abbrev pub IsUnmatched : ReturnEvent → State → Option (List Ptr) → Type 0
IsUnmatched e s none = Unit
IsUnmatched e s (some []) = Unit
IsUnmatched e s (some (top ∷ below)) =
    (trace : ReturnTrace) × (s.heap top ≡ some trace)
    × (strcmp_eq trace.method_name (some e.method_name) ≡ some false)

return_from_unmatched :
    (vm : Vm) (f levels : ℕ) (e : ReturnEvent) (s : State) (o : Option (List Ptr))
    → IsUnmatched e s o
    → return_from vm f levels e o s ≡ some (tt, s)
unfolding return_from read_trace
return_from_unmatched vm f levels e s none un = refl
return_from_unmatched vm f levels e s (some []) un = refl
return_from_unmatched vm f levels e s (some (top ∷ below)) (trace, here, other) =
    rw (return_from, read_trace, here, other) refl

-- A return where the fiber has no stack, an empty stack, or a trace of another method on top changes
-- nothing.
pub process_return_event_unmatched :
    (vm : Vm) (f levels : ℕ) (e : ReturnEvent) (s : State)
    → IsUnmatched e s (lookup e.fiber s.call_stacks)
    → process_return_event vm f levels e s ≡ some (tt, s)
unfolding process_return_event
process_return_event_unmatched vm f levels e s un =
    return_from_unmatched vm f levels e s (lookup e.fiber s.call_stacks) un

strcmp_eq_same : (s : CString) (t : String) → s ≡ some t → strcmp_eq s (some t) ≡ some true
strcmp_eq_same s t e = rw e (ap some ((eq_iff t t).1 refl))

-- A tracepoint that a block parameter has is one that was made.
abbrev pub IsMade : (ℕ → Option BlockTracepoint) → Option BlockParameter → Type 0
IsMade made none = Unit
IsMade made (some b) = (b.tracepoint_id == 0) ≡ false → is_some (made b.tracepoint_id) ≡ true

-- The tracepoints of one state are in the other.
abbrev pub AreMade : (ℕ → Option BlockTracepoint) → (ℕ → Option BlockTracepoint) → Type 0
AreMade m n = (tp : ℕ) → is_some (m tp) ≡ true → is_some (n tp) ≡ true

-- The tracepoint of a block parameter, if it has one, is not enabled.
abbrev pub IsDisabled : (ℕ → Option BlockTracepoint) → Option BlockParameter → Type 0
IsDisabled made none = Unit
IsDisabled made (some b) =
    (b.tracepoint_id == 0) ≡ false
    → (t : BlockTracepoint) × (made b.tracepoint_id ≡ some t) × (t.enabled ≡ false)

-- What the map has for some constants, in order.
abbrev pub AreFound : List (RubyValue × Constant) → List RubyValue → List Constant → Type 0
AreFound m [] [] = Unit
AreFound m [] (k ∷ ks) = ⊥
AreFound m (c ∷ cs) [] = ⊥
AreFound m (c ∷ cs) (k ∷ ks) = (lookup c m ≡ some k) × AreFound m cs ks

-- The constants that are pending are in the map, and have their names.
constants_at-Named :
    (m : List (RubyValue × Constant)) (cs : List RubyValue)
    → ((c : RubyValue) (k : Constant) → lookup c m ≡ some k → IsNamedConstant k)
    → All (λ c. is_some (lookup c m) ≡ true) cs
    → (ks : List Constant) × (constants_at m cs ≡ some ks)
      × All IsNamedConstant ks
      × AreFound m cs ks
unfolding constants_at
constants_at-Named m [] named pending = ([], refl, tt, tt)
constants_at-Named m (c ∷ cs) named (there, pending) =
    let (ks, e, all, found) = constants_at-Named m cs named pending in
    at_key (lookup c m) refl there ks e all found
  where
    at_key :
        (o : Option Constant)
        → lookup c m ≡ o
        → is_some o ≡ true
        → (ks : List Constant) → constants_at m cs ≡ some ks
        → All IsNamedConstant ks
        → AreFound m cs ks
        → (ls : List Constant) × (constants_at m (c ∷ cs) ≡ some ls)
          × All IsNamedConstant ls
          × AreFound m (c ∷ cs) ls
    at_key none e absent ks e' all found = absurd (cc)
    at_key (some k) e present ks e' all found =
        (k ∷ ks, rw (constants_at, e, e'), (named c k e, all), (e, found))

-- A tracepoint that was made is not enabled.
abbrev pub IsOff : (ℕ → Option BlockTracepoint) → ℕ → Type 0
IsOff made tp = (t : BlockTracepoint) × (made tp ≡ some t) × (t.enabled ≡ false)

-- The code differs from its start at most in the tracepoints, of which none is enabled, and that of the
-- block is disabled.
pub record Disabled (o : Option BlockParameter) (s t : State) : Type 0 where
  pub frame : t ≡ record s { block_tracepoints = t.block_tracepoints }
  pub off : IsDisabled t.block_tracepoints o
  pub made : AreMade s.block_tracepoints t.block_tracepoints
  pub stays : (tp : ℕ) → IsOff s.block_tracepoints tp → IsOff t.block_tracepoints tp

disable_tracepoint-Disabled :
    (b : BlockParameter) (s : State) (o : Option BlockTracepoint)
    → s.block_tracepoints b.tracepoint_id ≡ o
    → is_some o ≡ true
    → Ensures (λ _ t. Disabled (some b) s t) (disable_tracepoint b.tracepoint_id s)
unfolding disable_tracepoint
disable_tracepoint-Disabled b s none e made = absurd (cc)
disable_tracepoint-Disabled b s (some u) e made =
    rw (disable_tracepoint, e)
      (holds (record {
        frame = refl;
        off = λ set. (record u { enabled = false }, ground arith, refl);
        made = λ tp there. ground (arith, there);
        stays = λ tp (v, there, is). elim (Bool-cases (tp == b.tracepoint_id)) [
          | inl same ↦ (record u { enabled = false }, rw same refl, refl)
          | inr other ↦ (v, rw other there, is)
        ];
      }))

pub disable_block-Disabled :
    (o : Option BlockParameter) (s : State)
    → IsMade s.block_tracepoints o
    → Ensures (λ _ t. Disabled o s t) (disable_block o s)
unfolding disable_block
disable_block-Disabled none s made =
    holds (record { frame = refl; off = tt; made = λ tp e. e; stays = λ tp e. e })
disable_block-Disabled (some b) s made =
    Ensures-if (b.tracepoint_id == 0) (pure tt) (disable_tracepoint b.tracepoint_id) s
      (λ unset.
        holds
          (record { frame = refl; off = λ set. absurd (cc); made = λ tp e. e; stays = λ tp e. e }))
      (λ set. disable_tracepoint-Disabled b s (s.block_tracepoints b.tracepoint_id) refl (made set))

take_updates-Named :
    (s : State)
    → IsKnown s
    → Ensures
        (λ ks t.
          All IsNamedConstant ks
          × AreFound s.constant_map s.constant_updates ks
          × (t ≡ record s { constant_updates = [] }))
        (take_constant_updates s)
unfolding take_constant_updates
take_updates-Named s known =
    let (ks, e, all, found) =
      constants_at-Named s.constant_map s.constant_updates known.named known.pending in
    rw (take_constant_updates, e) (holds (all, found, refl))

-- Nothing but constants, traces, tracepoints and the queue changes.
abbrev pub ReturnFrame : State → State → Type 0
ReturnFrame s t = t ≡ record s {
  constant_map = t.constant_map;
  constant_updates = t.constant_updates;
  heap = t.heap;
  block_tracepoints = t.block_tracepoints;
  pushed = t.pushed;
}

abbrev return_frame : State → State → State
return_frame t r = record r {
  constant_map = t.constant_map;
  constant_updates = t.constant_updates;
  heap = t.heap;
  block_tracepoints = t.block_tracepoints;
  pushed = t.pushed;
}

-- The trace at `p` has a complete return type and is handed to the queue. Its constants are those that
-- it had and then, as the map has them at the end, those that were pending and those that the return type
-- has added to them; no constant is pending any more.
pub record Sent (classes : List RubyValue) (f : ℕ) (p : Ptr) (trace : ReturnTrace) (s t : State)
    : Type 0 where
  pub ready : Ready classes f t
  pub stacks : t.call_stacks ≡ s.call_stacks
  pub pushed : t.pushed ≡ s.pushed ++ trace_message p ∷ []
  pub taken : t.constant_updates ≡ []
  pub disabled : IsDisabled t.block_tracepoints trace.block_param
  pub made : AreMade s.block_tracepoints t.block_tracepoints
  pub frame : ReturnFrame s t
  pub others : (q : Ptr) → (q == p) ≡ false → t.heap q ≡ s.heap q
  pub sent : ReturnTrace
  pub here : t.heap p ≡ some sent
  pub same :
      sent
      ≡ record trace { return_type = sent.return_type; constant_updates = sent.constant_updates }
  pub return_type : IsType s.max_generic_depth 0 sent.return_type
  pub updates : All IsNamedConstant sent.constant_updates
  pub more : List RubyValue
  pub found : List Constant
  pub are_found : AreFound t.constant_map (s.constant_updates ++ more) found
  pub appended : sent.constant_updates ≡ trace.constant_updates ++ found

-- The state with the trace at `p` complete and in the queue.
abbrev queued : Ptr → ReturnTrace → State → ConstantInstance → List Constant → State
queued p trace v i ks = record v {
  heap =
      update v.heap p
        (some (record trace { return_type = i; constant_updates = trace.constant_updates ++ ks }));
  pushed = v.pushed ++ trace_message p ∷ [];
}

queued-Sent :
    (classes : List RubyValue) (f : ℕ) (p : Ptr) (trace : ReturnTrace) (s t : State)
    (m : ℕ → Option BlockTracepoint) (i : ConstantInstance) (ks : List Constant)
    → Kept classes f s t
    → IsDisabled m trace.block_param
    → AreMade t.block_tracepoints m
    → IsType s.max_generic_depth 0 i
    → All IsNamedConstant (trace.constant_updates ++ ks)
    → AreFound t.constant_map t.constant_updates ks
    → Sent classes f p trace s
        (queued p trace (record t { block_tracepoints = m; constant_updates = [] }) i ks)
queued-Sent classes f p trace s t m i ks kept off more typed all found = record {
  ready = record {
    known = record { named = kept.ready.known.named; pending = tt };
    fits = kept.ready.fits;
  };
  stacks = ap (λ r. r.call_stacks) kept.frame;
  pushed = ap (λ r. r.pushed ++ trace_message p ∷ []) kept.frame;
  taken = refl;
  disabled = off;
  made = λ tp there. more tp (rw (ap (λ r. r.block_tracepoints) kept.frame) there);
  frame =
      ap
        (return_frame
          (queued p trace (record t { block_tracepoints = m; constant_updates = [] }) i ks))
        kept.frame;
  others = λ q other. rw other (ap (λ r. r.heap q) kept.frame);
  sent = record trace { return_type = i; constant_updates = trace.constant_updates ++ ks };
  here = ground arith;
  same = refl;
  return_type = typed;
  updates = all;
  more = kept.more;
  found = ks;
  are_found = subst (λ cs. AreFound t.constant_map cs ks) kept.grows found;
  appended = refl;
}

module _ (vm : Vm) (classes : List RubyValue) (IsObject : RubyValue → Type 0) (f levels : ℕ)
    (closed : IsClosed vm classes) (objects : AreObjects vm classes IsObject) where
  send_trace-Sent :
      (p : Ptr) (trace : ReturnTrace) (e : ReturnEvent) (s : State)
      → IsObject e.return_value
      → Ready classes f s
      → s.max_generic_depth < levels
      → IsMade s.block_tracepoints trace.block_param
      → All IsNamedConstant trace.constant_updates
      → Ensures (λ _ t. Sent classes f p trace s t) (send_trace vm f levels p trace e s)
  unfolding send_trace write_trace
  send_trace-Sent p trace e s object ready enough made named =
      Ensures-bind _
        (value_to_instance-IsType vm classes IsObject f levels e.return_value 0 s closed objects
          object ready (omega arith) (omega (arith, enough)))
        λ i t (kept, typed).
          Ensures-bind _
            (disable_block-Disabled trace.block_param t (
              subst (λ m. IsMade m trace.block_param)
                (sym (ap (λ r. r.block_tracepoints) kept.frame)) made))
            λ _ u off.
              let known : IsKnown u =
                subst IsKnown (sym off.frame)
                  (record { named = kept.ready.known.named; pending = kept.ready.known.pending }) in
              Ensures-bind _ (take_updates-Named u known) λ ks v (all, found, taken).
                let whole =
                  taken ∙ ap {A = State} (λ r. record r { constant_updates = [] }) off.frame in
                let updates = All-append IsNamedConstant trace.constant_updates ks named all in
                holds (
                  subst (λ w. Sent classes f p trace s (queued p trace w i ks)) (sym whole)
                    (queued-Sent classes f p trace s t u.block_tracepoints i ks kept off.off
                      off.made typed updates
                      (subst (λ (w : State). AreFound w.constant_map w.constant_updates ks)
                        off.frame found)))

  pub process_return_event-Sent :
      (e : ReturnEvent) (s : State) (top : Ptr) (below : List Ptr) (trace : ReturnTrace)
      → IsObject e.return_value
      → Ready classes f s
      → s.max_generic_depth < levels
      → lookup e.fiber s.call_stacks ≡ some (top ∷ below)
      → s.heap top ≡ some trace
      → trace.method_name ≡ some e.method_name
      → IsMade s.block_tracepoints trace.block_param
      → All IsNamedConstant trace.constant_updates
      → Ensures
          (λ _.
            Sent classes f top trace
              (record s { call_stacks = insert e.fiber below s.call_stacks }))
          (process_return_event vm f levels e s)
  unfolding process_return_event return_from read_trace
  process_return_event-Sent e s top below trace object ready enough stack here name made named =
      let started : Ready classes f
          (record s { call_stacks = insert e.fiber below s.call_stacks }) =
        record {
          known = record { named = ready.known.named; pending = ready.known.pending };
          fits = ready.fits;
        } in
      rw (stack, return_from, read_trace, here, strcmp_eq_same trace.method_name e.method_name name)
        (send_trace-Sent top trace e _ object started enough made named)
