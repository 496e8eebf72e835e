-- ===== src/Racer/Ensures.antt =====
-- Postconditions of code that changes the state.
use racer_rb.Base.{Option, some, Bool, true, false, if◌then◌else◌, ◌≡◌, refl}
use racer_rb.Racer.State.{State, M, and_then}

-- The code gives a result and a new state, and `P` holds of them.
pub data Ensures {A : Type 0} (P : A → State → Type 0) : Option (A × State) → Type 0 where
  holds : {a : A} {s : State} → P a s → Ensures P (some (a, s))

module _ {A : Type 0} {P : A → State → Type 0} where
  pub Ensures-bind :
      {B : Type 0} {Q : B → State → Type 0} {r : Option (A × State)} (k : A → M B)
      → Ensures P r
      → ((a : A) (s : State) → P a s → Ensures Q (k a s))
      → Ensures Q (and_then r k)
  Ensures-bind k (holds p) next = next _ _ p

  pub Ensures-mono :
      {Q : A → State → Type 0} {r : Option (A × State)}
      → Ensures P r
      → ((a : A) (s : State) → P a s → Q a s)
      → Ensures Q r
  Ensures-mono (holds p) weaken = holds (weaken _ _ p)

  pub Ensures-if :
      (b : Bool) (m n : M A) (s : State)
      → (b ≡ true → Ensures P (m s))
      → (b ≡ false → Ensures P (n s))
      → Ensures P ((if b then m else n) s)
  Ensures-if true m n s hm hn = hm refl
  Ensures-if false m n s hm hn = hn refl

-- Two things that hold after the same code.
pub Ensures-both :
    {A : Type 0} {P Q : A → State → Type 0} {r : Option (A × State)}
    → Ensures P r
    → Ensures Q r
    → Ensures (λ a s. P a s × Q a s) r
Ensures-both (holds p) (holds q) = holds (p, q)

-- With the result and the state that the code does give.
pub Ensures-eq :
    {A : Type 0} {P : A → State → Type 0} {r : Option (A × State)}
    → Ensures P r
    → Ensures (λ a s. P a s × (r ≡ some (a, s))) r
Ensures-eq (holds p) = holds (p, refl)
