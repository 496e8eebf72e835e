-- ===== src/Racer/Owned.antt =====
-- ext/racer/traces.cc, free_trace: which traces a trace owns.
use racer_rb.Base.{
  ℕ, suc, ◌≡◌, refl, true, false, ◌||◌, Option, none, some, List, [], ◌∷◌, ◌++◌, ◌==◌,
  if◌then◌else◌, has, arith, Bool-cases, inl, inr,
}
use racer_rb.Traces.{Ptr, BlockParameter, ReturnTrace, Heap}

-- The heap once the traces at `ps` are freed.
abbrev pub without_all : List Ptr → Heap → Heap
without_all ps h q = if has q ps then none else h q

abbrev pub AreDistinct : List Ptr → Type 0
AreDistinct [] = Unit
AreDistinct (p ∷ ps) = (has p ps ≡ false) × AreDistinct ps

abbrev pub somes : List (Option Ptr) → List Ptr
somes [] = []
somes (none ∷ os) = somes os
somes (some p ∷ os) = p ∷ somes os

-- The traces that a block parameter holds.
abbrev pub children : Option BlockParameter → List Ptr
children none = []
children (some b) = b.block_traces ++ somes b.current_block_call_stack

-- The traces at the first addresses are allocated, and with those that they hold, and those in turn
-- hold, no deeper than the fuel, they are at the second ones.
pub data Owns (h : Heap) : ℕ → List Ptr → List Ptr → Type 0 where
  nothing : {f : ℕ} → Owns h f [] []
  trace_and :
      {f : ℕ} {t : ReturnTrace} {p : Ptr} {ps qs rs : List Ptr}
      → h p ≡ some t
      → Owns h f (children t.block_param) ps
      → Owns h (suc f) qs rs
      → Owns h (suc f) (p ∷ qs) (ps ++ p ∷ rs)

pub has-append : (q : Ptr) (xs ys : List Ptr) → has q (xs ++ ys) ≡ (has q xs || has q ys)
unfolding has
has-append q [] ys = refl
has-append q (x ∷ xs) ys = ground (arith, has-append q xs ys)

-- The members of a list of which one is in the middle.
pub has-left : (q : Ptr) (xs ys : List Ptr) → has q xs ≡ true → has q (xs ++ ys) ≡ true
has-left q xs ys e = rw (has-append q xs ys, e) refl

pub has-right : (q : Ptr) (xs ys : List Ptr) → has q ys ≡ true → has q (xs ++ ys) ≡ true
has-right q xs ys e = rw (has-append q xs ys) (ground (arith, e))

pub has-middle : (p : Ptr) (xs ys : List Ptr) → has p (xs ++ p ∷ ys) ≡ true
unfolding has
has-middle p xs ys = has-right p xs (p ∷ ys) (ground arith)

pub has-after : (q p : Ptr) (xs ys : List Ptr) → has q ys ≡ true → has q (xs ++ p ∷ ys) ≡ true
unfolding has
has-after q p xs ys e = has-right q xs (p ∷ ys) (ground (arith, e))

-- What a list without repetition is made of.
pub record Apart (xs ys : List Ptr) : Type 0 where
  pub left : AreDistinct xs
  pub right : AreDistinct ys
  pub disjoint : (q : Ptr) → has q xs ≡ true → has q ys ≡ false

pub AreDistinct-append : (xs ys : List Ptr) → AreDistinct (xs ++ ys) → Apart xs ys
unfolding has
AreDistinct-append [] ys distinct = record {
  left = tt;
  right = distinct;
  disjoint = λ q e. absurd (cc);
}
AreDistinct-append (x ∷ xs) ys (new, distinct) =
    let apart = AreDistinct-append xs ys distinct in
    let new' = rw (has-append x xs ys) at new in
    record {
      left = (ground (arith, new'), apart.left);
      right = apart.right;
      disjoint = λ q e. elim (Bool-cases (x == q)) [
        | inl same ↦ let is : q ≡ x = ground (arith, same) in rw is (ground (arith, new'))
        | inr other ↦ apart.disjoint q (rw other at e)
      ];
    }
