-- ===== src/Racer/Ownership.antt =====
-- ext/racer/traces.cc, free_trace: which traces a trace owns, and that freeing it frees just those.
use mathlib.Core.Path.{subst, fun_ext}
use racer_rb.Base.{
  ℕ, zero, suc, ◌≡◌, refl, sym, ap, ◌∙◌, Bool, true, false, Option, none, some, List, [], ◌∷◌, ◌++◌,
  ◌==◌, if◌then◌else◌, append_assoc, has, arith, Bool-cases, inl, inr,
}
use racer_rb.Traces.{Ptr, BlockParameter, ReturnTrace, Heap}
use racer_rb.Racer.State.{State, M, pure, and_then, ◌>>◌, read_trace, delete_trace}
use racer_rb.Racer.Free.{free_traces, free_calls, free_block_param, free_trace}
use racer_rb.Racer.Owned.{
  nothing, trace_and, without_all, AreDistinct, somes, children, Owns, has-append, has-left,
  has-right, AreDistinct-append,
}

pub and_then-cong :
    (o : Option (Unit {0} × State)) (k l : M (Unit {0}))
    → ((s : State) → k s ≡ l s)
    → and_then o (λ _. k) ≡ and_then o (λ _. l)
and_then-cong none k l same = refl
and_then-cong (some (u, s)) k l same = same s

pub and_then_assoc :
    (o : Option (Unit {0} × State)) (k l : M (Unit {0}))
    → and_then o (λ _. k >> l) ≡ and_then (and_then o (λ _. k)) (λ _. l)
and_then_assoc none k l = refl
and_then_assoc (some (u, s)) k l = refl

module _ (free : Ptr → M (Unit {0})) where
  free_traces-append :
      (xs ys : List Ptr) (s : State)
      → free_traces free (xs ++ ys) s ≡ (free_traces free xs >> free_traces free ys) s
  unfolding free_traces
  free_traces-append [] ys s = refl
  free_traces-append (x ∷ xs) ys s =
      and_then-cong (free x s) (free_traces free (xs ++ ys))
        (free_traces free xs >> free_traces free ys) (free_traces-append xs ys)
      ∙ and_then_assoc (free x s) (free_traces free xs) (free_traces free ys)

  free_calls-somes :
      (os : List (Option Ptr)) (s : State) → free_calls free os s ≡ free_traces free (somes os) s
  unfolding free_traces free_calls
  free_calls-somes [] s = refl
  free_calls-somes (none ∷ os) s = free_calls-somes os s
  free_calls-somes (some p ∷ os) s =
      and_then-cong (free p s) (free_calls free os) (free_traces free (somes os))
        (free_calls-somes os)

  free_block_param-children :
      (o : Option BlockParameter) (s : State)
      → free_block_param free o s ≡ free_traces free (children o) s
  unfolding free_block_param free_traces
  free_block_param-children none s = refl
  free_block_param-children (some b) s =
      and_then-cong (free_traces free b.block_traces s) (free_calls free b.current_block_call_stack)
        (free_traces free (somes b.current_block_call_stack))
        (free_calls-somes b.current_block_call_stack)
      ∙ sym (free_traces-append b.block_traces (somes b.current_block_call_stack) s)

-- The traces at `ps` are the same on both heaps.
abbrev pub Agrees : Heap → Heap → List Ptr → Type 0
Agrees h k ps = (q : Ptr) → has q ps ≡ true → k q ≡ h q

unfoldable pub freed : List Ptr → State → State
freed ps s = record s { heap = without_all ps s.heap }

without_all-append :
    (ps : List Ptr) (p : Ptr) (rs : List Ptr) (h : Heap)
    → without_all rs (λ q. if q == p then none else without_all ps h q)
      ≡ without_all (ps ++ p ∷ rs) h
unfolding has
without_all-append ps p rs h = fun_ext λ q. rw (has-append q ps (p ∷ rs)) (ground arith)

-- A trace whose own traces have been freed is freed.
free_trace-freed :
    (f : ℕ) (p : Ptr) (t : ReturnTrace) (ps : List Ptr) (s : State)
    → s.heap p ≡ some t
    → has p ps ≡ false
    → free_traces (free_trace f) (children t.block_param) s ≡ some (tt, freed ps s)
    → free_trace (suc f) p s
      ≡ some (tt, record s { heap = λ q. if q == p then none else without_all ps s.heap q })
unfolding free_trace read_trace delete_trace freed
free_trace-freed f p t ps s here new inner =
    rw (free_trace, read_trace, here)
      (rw (free_block_param-children (free_trace f) t.block_param s, inner)
        (rw (delete_trace, read_trace, new, here) refl))

pub free_traces-Owns :
    (h : Heap) (f : ℕ) (qs ps : List Ptr) (s : State)
    → Owns h f qs ps
    → AreDistinct ps
    → Agrees h s.heap ps
    → free_traces (free_trace f) qs s ≡ some (tt, freed ps s)
unfolding free_traces freed has
free_traces-Owns h f [] _ s nothing distinct agrees = refl
free_traces-Owns h zero (p ∷ qs) ps s owns distinct agrees = elim owns [ ]
free_traces-Owns h (suc f) (p ∷ qs) _ s (trace_and {t = t} {ps = ps} {rs = rs} here owns others)
      distinct agrees =
    let apart = AreDistinct-append ps (p ∷ rs) distinct in
    let (new, distinct') = apart.right in
    let in_whole = λ (q : Ptr). has-append q ps (p ∷ rs) in
    let here' : s.heap p ≡ some t = agrees p (rw in_whole (ground arith)) ∙ here in
    let inner =
      free_traces-Owns h f (children t.block_param) ps s owns apart.left
        (λ q e. agrees q (rw (in_whole q, e) refl)) in
    let new' : has p ps ≡ false = elim (Bool-cases (has p ps)) [
      | inl e ↦ absurd (ground (arith, apart.disjoint p e))
      | inr e ↦ e
    ] in
    let after = record s { heap = λ q. if q == p then none else without_all ps s.heap q } in
    let later : Agrees h after.heap rs = λ q e.
      let whole : has q (ps ++ p ∷ rs) ≡ true = rw (in_whole q) (ground (arith, e)) in
      let other : (q == p) ≡ false = elim (Bool-cases (q == p)) [
        | inl is ↦
            let same : q ≡ p = ground (arith, is) in absurd (ground (arith, new, rw same at e))
        | inr e' ↦ e'
      ] in
      let kept : has q ps ≡ false = elim (Bool-cases (has q ps)) [
        | inl e' ↦ absurd (ground (arith, e, apart.disjoint q e'))
        | inr e' ↦ e'
      ] in
      rw (other, kept) (agrees q whole) in
    rw (free_trace-freed f p t ps s here' new' inner) (
      free_traces-Owns h (suc f) qs rs after others distinct' later
      ∙ ap (λ k. some (tt, record s { heap = k })) (without_all-append ps p rs s.heap))

pub without_all-twice :
    (ps qs : List Ptr) (h : Heap) → without_all qs (without_all ps h) ≡ without_all (ps ++ qs) h
without_all-twice ps qs h = fun_ext λ q. rw (has-append q ps qs) (ground arith)

-- The code is a trace's free that has nothing left to do after it.
alone :
    (o : Option (Unit {0} × State)) (r : Option (Unit {0} × State))
    → and_then o (λ _. pure tt) ≡ r
    → o ≡ r
alone none r e = e
alone (some (tt, s)) r e = e

-- Let the trace at `p` own, with the block traces and the calls of blocks that it holds, and those that
-- they hold in turn, no deeper than the fuel, the traces at `ps`, none of them twice. Then freeing it
-- frees the traces at `ps`, each once, without undefined behaviour, and changes nothing else.
pub free_trace-Owns :
    (h : Heap) (f : ℕ) (p : Ptr) (ps : List Ptr) (s : State)
    → Owns h f (p ∷ []) ps
    → AreDistinct ps
    → Agrees h s.heap ps
    → free_trace f p s ≡ some (tt, freed ps s)
unfolding free_traces
free_trace-Owns h f p ps s owns distinct agrees =
    alone (free_trace f p s) (some (tt, freed ps s))
      (free_traces-Owns h f (p ∷ []) ps s owns distinct agrees)

-- The first trace of a list is freed: what the others own is as it was, and together all is freed.
pub record FreedFirst (h : Heap) (f : ℕ) (p : Ptr) (mine rest : List Ptr) (s : State) : Type 0 where
  pub freed_first : free_trace (suc f) p s ≡ some (tt, freed (mine ++ p ∷ []) s)
  pub distinct : AreDistinct rest
  pub agrees : Agrees h (State.heap (freed (mine ++ p ∷ []) s)) rest
  pub twice : freed rest (freed (mine ++ p ∷ []) s) ≡ freed (mine ++ p ∷ rest) s

other_side : (a b : Bool) → (a ≡ true → b ≡ false) → b ≡ true → a ≡ false
other_side true b apart e = absurd (ground (arith, e, apart refl))
other_side false b apart e = refl

pub free_trace-FreedFirst :
    (h : Heap) (f : ℕ) (p : Ptr) (t : ReturnTrace) (mine rest : List Ptr) (s : State)
    → h p ≡ some t
    → Owns h f (children t.block_param) mine
    → AreDistinct (mine ++ p ∷ rest)
    → Agrees h s.heap (mine ++ p ∷ rest)
    → FreedFirst h f p mine rest s
unfolding freed
free_trace-FreedFirst h f p t mine rest s here owns distinct agrees =
    let e : mine ++ p ∷ rest ≡ (mine ++ p ∷ []) ++ rest = sym (append_assoc mine (p ∷ []) rest) in
    let apart = AreDistinct-append (mine ++ p ∷ []) rest (subst AreDistinct e distinct) in
    let agrees' : Agrees h s.heap ((mine ++ p ∷ []) ++ rest) = subst (Agrees h s.heap) e agrees in
    record {
      freed_first =
          free_trace-Owns h (suc f) p (mine ++ p ∷ []) s (trace_and here owns nothing) apart.left
            (λ q e'. agrees' q (has-left q (mine ++ p ∷ []) rest e'));
      distinct = apart.right;
      agrees = λ q e'.
          rw (other_side (has q (mine ++ p ∷ [])) (has q rest) (apart.disjoint q) e')
            (agrees' q (has-right q (mine ++ p ∷ []) rest e'));
      twice =
          ap (λ k. record s { heap = k })
            (without_all-twice (mine ++ p ∷ []) rest s.heap
              ∙ ap (λ xs. without_all xs s.heap) (sym e));
    }
