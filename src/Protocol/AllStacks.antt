-- ===== src/Protocol/AllStacks.antt =====
-- ext/racer/racer.cc, stop: the stacks of all fibers, one after the other.
use mathlib.Core.Path.{subst}
use racer_rb.Base.{
  ℕ, ◌≡◌, refl, sym, true, false, Option, none, some, List, [], ◌∷◌, ◌++◌, ◌==◌, if◌then◌else◌, has,
  lookup, arith, Bool-cases, inl, inr,
}
use racer_rb.Traces.{Ptr}
use racer_rb.Racer.Owned.{AreDistinct, has-append}
use racer_rb.Racer.Releases.{all_stacks}
use racer_rb.Racer.Stacks.{stack_of}
use racer_rb.Protocol.Tidy.{keys_of}

-- Where an address on one of the stacks is.
pub record Found (m : List (ℕ × List Ptr)) (p : Ptr) : Type 0 where
  pub fiber : ℕ
  pub key : has fiber (keys_of m) ≡ true
  pub on : has p (stack_of (lookup fiber m)) ≡ true

no_key : (k : ℕ) (m : List (ℕ × List Ptr)) → has k (keys_of m) ≡ false → lookup k m ≡ none
unfolding has lookup
no_key k [] e = refl
no_key k ((j, b) ∷ m) e =
    let other : (j == k) ≡ false = ground (arith, e) in
    rw other (no_key k m (ground (arith, e, other)))

pub all_stacks-Found :
    (m : List (ℕ × List Ptr)) (p : Ptr)
    → AreDistinct (keys_of m)
    → has p (all_stacks m) ≡ true
    → Found m p
unfolding has lookup
all_stacks-Found [] p distinct e = absurd (cc)
all_stacks-Found ((j, stack) ∷ m) p (new, distinct) e = elim (Bool-cases (has p stack)) [
  | inl here ↦
      let same : (j == j) ≡ true = ground arith in
      record { fiber = j; key = ground arith; on = rw same here }
  | inr other ↦
      let later : has p (all_stacks m) ≡ true =
        ground (arith, other, rw (has-append p stack (all_stacks m)) at e) in
      let found = all_stacks-Found m p distinct later in
      let differs : (j == found.fiber) ≡ false = elim (Bool-cases (j == found.fiber)) [
        | inl same ↦
            let is : j ≡ found.fiber = ground (arith, same) in
            absurd (ground (arith, new, subst (λ k. has k (keys_of m) ≡ true) (sym is) found.key))
        | inr e' ↦ e'
      ] in
      record { fiber = found.fiber; key = ground (arith, found.key); on = rw differs found.on }
]

-- Two lists without a common member are without repetition together.
append-AreDistinct :
    (xs ys : List Ptr)
    → AreDistinct xs
    → AreDistinct ys
    → ((p : Ptr) → has p xs ≡ true → has p ys ≡ true → ⊥)
    → AreDistinct (xs ++ ys)
unfolding has
append-AreDistinct [] ys distinct distinct' apart = distinct'
append-AreDistinct (x ∷ xs) ys (new, distinct) distinct' apart =
    let absent : has x ys ≡ false = elim (Bool-cases (has x ys)) [
      | inl e ↦ absurd (apart x (ground arith) e)
      | inr e ↦ e
    ] in
    (
      rw (has-append x xs ys) (ground (arith, new, absent)),
      append-AreDistinct xs ys distinct distinct' λ p e e'. apart p (ground (arith, e)) e',
    )

-- The stacks of different fibers, each without repetition and none with a member of another.
pub all_stacks-AreDistinct :
    (m : List (ℕ × List Ptr))
    → AreDistinct (keys_of m)
    → ((k : ℕ) → AreDistinct (stack_of (lookup k m)))
    → ((k j : ℕ) (p : Ptr)
        → has p (stack_of (lookup k m)) ≡ true
        → has p (stack_of (lookup j m)) ≡ true
        → k ≡ j)
    → AreDistinct (all_stacks m)
unfolding has lookup
all_stacks-AreDistinct [] keys distinct apart = tt
all_stacks-AreDistinct ((i, stack) ∷ m) (new, keys) distinct apart =
    let same : (i == i) ≡ true = ground arith in
    let later : (k : ℕ) (p : Ptr)
        → has p (stack_of (lookup k m)) ≡ true
        → has p (stack_of (if i == k then some stack else lookup k m)) ≡ true =
      λ k p e. elim (Bool-cases (i == k)) [
        | inl at_k ↦
            let is : i ≡ k = ground (arith, at_k) in
            let gone = no_key k m (subst (λ j. has j (keys_of m) ≡ false) is new) in
            absurd (empty p (lookup k m) gone e)
        | inr other ↦ rw other e
      ] in
    let rest =
      all_stacks-AreDistinct m keys
        (λ k. elim (Bool-cases (i == k)) [
          | inl at_k ↦
              let is : i ≡ k = ground (arith, at_k) in
              let gone = no_key k m (subst (λ j. has j (keys_of m) ≡ false) is new) in rw gone tt
          | inr other ↦ let d = distinct k in rw other at d
        ])
        λ k j p e e'. apart k j p (later k p e) (later j p e') in
    append-AreDistinct stack (all_stacks m) (let d = distinct i in rw same at d) rest λ p e e'.
      let found = all_stacks-Found m p keys e' in
      let at_i : has p (stack_of (if i == i then some stack else lookup i m)) ≡ true = rw same e in
      let is : i ≡ found.fiber = apart i found.fiber p at_i (later found.fiber p found.on) in
      ground (arith, new, subst (λ k. has k (keys_of m) ≡ true) (sym is) found.key)
  where
    empty : (p : Ptr) (o : Option (List Ptr)) → o ≡ none → has p (stack_of o) ≡ true → ⊥
    empty p none e e' = unfold has in cc
    empty p (some ps) e e' = cc
