-- ===== src/Racer/Releases.antt =====
-- ext/racer/racer.cc, stop: what is done with the traces of one stack.
use mathlib.Core.Path.{subst}
use racer_rb.Base.{
  some_same, ℕ, zero, suc, ◌≡◌, refl, ap, ◌∙◌, Option, none, some, List, [], ◌∷◌, ◌++◌,
  append_assoc, All, has,
}
use racer_rb.Traces.{Ptr, BlockParameter, ReturnTrace, Heap}
use racer_rb.Racer.State.{BlockTracepoint, State, read_trace}
use racer_rb.Racer.Ensures.{Ensures, holds, Ensures-bind, Ensures-mono}
use racer_rb.Racer.Returns.{IsMade, AreMade, IsOff, IsDisabled, Disabled, disable_block-Disabled}
use racer_rb.Racer.Advanced.{IsMade-AreMade}
use racer_rb.Racer.Session.{stop_stack}
use racer_rb.Racer.Owned.{without_all, AreDistinct, Owns, nothing, trace_and, has-middle}
use racer_rb.Racer.Ownership.{Agrees, freed, without_all-twice, free_trace-FreedFirst}

-- The addresses on all stacks.
abbrev pub all_stacks : List (ℕ × List Ptr) → List Ptr
all_stacks [] = []
all_stacks ((fiber, stack) ∷ stacks) = stack ++ all_stacks stacks

-- The tracepoints of the traces' blocks were made; they are not enabled.
abbrev pub HaveMade : Heap → (ℕ → Option BlockTracepoint) → List Ptr → Type 0
HaveMade h made = All (λ q. (t : ReturnTrace) → h q ≡ some t → IsMade made t.block_param)

abbrev pub HaveDisabled : Heap → (ℕ → Option BlockTracepoint) → List Ptr → Type 0
HaveDisabled h made = All (λ q. (t : ReturnTrace) → h q ≡ some t → IsDisabled made t.block_param)

-- The traces at `ps` are freed and the tracepoints of those at `qs` disabled, and nothing else changes.
pub record Released (h : Heap) (qs ps : List Ptr) (s t : State) : Type 0 where
  pub heap : t.heap ≡ without_all ps s.heap
  pub disabled : HaveDisabled h t.block_tracepoints qs
  pub made : AreMade s.block_tracepoints t.block_tracepoints
  pub stays : (tp : ℕ) → IsOff s.block_tracepoints tp → IsOff t.block_tracepoints tp
  pub frame : t ≡ record s { heap = t.heap; block_tracepoints = t.block_tracepoints }

abbrev release : State → State → State
release t r = record r { heap = t.heap; block_tracepoints = t.block_tracepoints }

IsDisabled-stays :
    (m n : ℕ → Option BlockTracepoint) (o : Option BlockParameter)
    → ((tp : ℕ) → IsOff m tp → IsOff n tp)
    → IsDisabled m o
    → IsDisabled n o
IsDisabled-stays m n none stays off = tt
IsDisabled-stays m n (some b) stays off = λ set. stays b.tracepoint_id (off set)

HaveMade-AreMade :
    (h : Heap) (m n : ℕ → Option BlockTracepoint) (qs : List Ptr)
    → AreMade m n
    → HaveMade h m qs
    → HaveMade h n qs
HaveMade-AreMade h m n [] more made = tt
HaveMade-AreMade h m n (q ∷ qs) more (here, made) =
    (λ t e. IsMade-AreMade m n t.block_param more (here t e), HaveMade-AreMade h m n qs more made)

-- A trace's block and then the trace are dealt with, and then the rest of the stack.
Released-step :
    (h : Heap) (p : Ptr) (t : ReturnTrace) (qs ps rs : List Ptr) (s u v : State)
    → h p ≡ some t
    → Disabled t.block_param s u
    → Released h qs rs (freed (ps ++ p ∷ []) u) v
    → Released h (p ∷ qs) (ps ++ p ∷ rs) s v
unfolding freed
Released-step h p t qs ps rs s u v here off rest = record {
  heap =
      rest.heap
      ∙ without_all-twice (ps ++ p ∷ []) rs u.heap
      ∙ ap (λ xs. without_all xs u.heap) (append_assoc ps (p ∷ []) rs)
      ∙ ap (λ (r : State). without_all (ps ++ p ∷ rs) r.heap) off.frame;
  disabled = (
    λ t' e.
        subst (λ (r : ReturnTrace). IsDisabled v.block_tracepoints r.block_param)
          (some_same (h p) here e)
          (IsDisabled-stays u.block_tracepoints v.block_tracepoints t.block_param rest.stays
            off.off),
    rest.disabled,
  );
  made = λ tp e. rest.made tp (off.made tp e);
  stays = λ tp e. rest.stays tp (off.stays tp e);
  frame = rest.frame ∙ ap (release v) off.frame;
}

pub stop_stack-Released :
    (h : Heap) (f : ℕ) (qs ps : List Ptr) (s : State)
    → Owns h f qs ps
    → AreDistinct ps
    → Agrees h s.heap ps
    → HaveMade h s.block_tracepoints qs
    → Ensures (λ _ t. Released h qs ps s t) (stop_stack f qs s)
unfolding stop_stack freed has read_trace
stop_stack-Released h f [] _ s nothing distinct agrees made =
    holds (record { heap = refl; disabled = tt; made = λ tp e. e; stays = λ tp e. e; frame = refl })
stop_stack-Released h zero (p ∷ qs) ps s owns distinct agrees made = elim owns [ ]
stop_stack-Released h (suc f) (p ∷ qs) _ s (trace_and {t = t} {ps = ps} {rs = rs} here owns others)
      distinct agrees (made_here, made) =
    let here' : s.heap p ≡ some t = agrees p (has-middle p ps rs) ∙ here in
    rw (read_trace, here')
      (Ensures-bind _ (disable_block-Disabled t.block_param s (made_here t here)) λ _ u off.
        let same : u.heap ≡ s.heap = ap (λ (r : State). r.heap) off.frame in
        let free =
          free_trace-FreedFirst h f p t ps rs u here owns distinct
            (λ q e'. ap (λ k. k q) same ∙ agrees q e') in
        rw (free.freed_first) (
          Ensures-mono
            (stop_stack-Released h (suc f) qs rs (freed (ps ++ p ∷ []) u) others free.distinct
              free.agrees
              (HaveMade-AreMade h s.block_tracepoints u.block_tracepoints qs off.made made))
            λ _ v rest. Released-step h p t qs ps rs s u v here off rest))
