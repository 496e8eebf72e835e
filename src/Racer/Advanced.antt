-- ===== src/Racer/Advanced.antt =====
-- ext/racer/racer.cc: code that explores constants and makes tracepoints, and changes nothing else.
use racer_rb.Base.{ℕ, ◌≡◌, refl, ap, ◌∙◌, Option, none, some, List, []}
use racer_rb.Traces.{BlockParameter}
use racer_rb.Racer.State.{RubyValue, BlockTracepoint, State}
use racer_rb.Racer.Known.{Ready, Kept}
use racer_rb.Racer.Returns.{IsMade, AreMade}

pub IsMade-AreMade :
    (m n : ℕ → Option BlockTracepoint) (o : Option BlockParameter)
    → AreMade m n
    → IsMade m o
    → IsMade n o
IsMade-AreMade m n none more made = tt
IsMade-AreMade m n (some b) more made = λ set. more b.tracepoint_id (made set)

-- A block parameter that no block event has come to yet, with a tracepoint that was made, if any.
abbrev pub IsFresh : (ℕ → Option BlockTracepoint) → Option BlockParameter → Type 0
IsFresh m none = Unit
IsFresh m (some b) = (b.block_traces ≡ []) × (b.current_block_call_stack ≡ []) × IsMade m (some b)

pub IsFresh-AreMade :
    (m n : ℕ → Option BlockTracepoint) (o : Option BlockParameter)
    → AreMade m n
    → IsFresh m o
    → IsFresh n o
IsFresh-AreMade m n none more fresh = tt
IsFresh-AreMade m n (some b) more (traces, calls, made) =
    (traces, calls, IsMade-AreMade m n (some b) more made)

-- `t` differs from `s` at most in the constants and the tracepoints.
abbrev pub AdvancedFrame : State → State → Type 0
AdvancedFrame s t = t ≡ record s {
  constant_map = t.constant_map;
  constant_updates = t.constant_updates;
  block_tracepoints = t.block_tracepoints;
  next_tracepoint = t.next_tracepoint;
}

abbrev advance : State → State → State
advance u r = record r {
  constant_map = u.constant_map;
  constant_updates = u.constant_updates;
  block_tracepoints = u.block_tracepoints;
  next_tracepoint = u.next_tracepoint;
}

module _ (classes : List RubyValue) (f : ℕ) where
  pub record Advanced (s t : State) : Type 0 where
    pub ready : Ready classes f t
    pub frame : AdvancedFrame s t
    pub made : AreMade s.block_tracepoints t.block_tracepoints

module _ {classes : List RubyValue} {f : ℕ} where
  pub Advanced-refl : {s : State} → Ready classes f s → Advanced classes f s s
  Advanced-refl ready = record { ready = ready; frame = refl; made = λ tp e. e }

  pub Advanced-trans :
      {s t u : State} → Advanced classes f s t → Advanced classes f t u → Advanced classes f s u
  Advanced-trans {s} {t} {u} a b = record {
    ready = b.ready;
    frame = b.frame ∙ ap (advance u) a.frame;
    made = λ tp e. b.made tp (a.made tp e);
  }

  pub Kept-Advanced : {s t : State} → Kept classes f s t → Advanced classes f s t
  Kept-Advanced {s} {t} kept =
      let same : t.block_tracepoints ≡ s.block_tracepoints =
        ap (λ r. r.block_tracepoints) kept.frame in
      record { ready = kept.ready; frame = ap (advance t) kept.frame; made = λ tp e. rw same e }
