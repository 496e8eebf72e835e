-- ===== src/Racer/Known.antt =====
-- ext/racer/racer.cc, explore_constant: when constant_map and constant_updates are in order.
use mathlib.Core.Path.{subst}
use racer_rb.Base.{
  ℕ, ◌<◌, suc, ◌≡◌, refl, sym, ap, ◌∙◌, append_assoc, append-nil, Bool, true, false, Option, none,
  some, List, [], ◌∷◌, ◌++◌, ◌==◌, if◌then◌else◌, All, is_some, lookup, insert, lookup-insert,
  arith,
}
use racer_rb.Traces.{CString, Constant}
use racer_rb.Protocol.Views.{HasName, IsNamedConstant}
use racer_rb.Racer.State.{RubyValue, State, M, and_then}
use racer_rb.Racer.Constants.{Explore}
use racer_rb.Racer.Closed.{missing, missing-insert_le, missing-insert_lt, IsMember}
use racer_rb.Racer.Ensures.{Ensures, Ensures-bind, Ensures-mono}

-- Every constant in the map has its names set, and every constant to be sent is in the map.
pub record IsKnown (s : State) : Type 0 where
  pub named : (c : RubyValue) (k : Constant) → lookup c s.constant_map ≡ some k → IsNamedConstant k
  pub pending : All (λ c. is_some (lookup c s.constant_map) ≡ true) s.constant_updates

-- `t` differs from `s` at most in its constants.
abbrev pub Frame : State → State → Type 0
Frame s t = t ≡ record s { constant_map = t.constant_map; constant_updates = t.constant_updates }

abbrev with_constants_of : State → State → State
with_constants_of u r = record r {
  constant_map = u.constant_map;
  constant_updates = u.constant_updates;
}

Frame-trans : (s t u : State) → Frame s t → Frame t u → Frame s u
Frame-trans s t u e e' = e' ∙ ap (with_constants_of u) e

-- The constants are in order, and fewer than `f` of the classes are not in the map.
module _ (classes : List RubyValue) (f : ℕ) where
  pub record Ready (s : State) : Type 0 where
    pub known : IsKnown s
    pub fits : missing classes s.constant_map < f

  -- The constants are in order after code that began in `s`, those to be sent are still to be sent, and
  -- nothing else has changed.
  pub record Kept (s t : State) : Type 0 where
    pub ready : Ready t
    pub frame : Frame s t
    pub more : List RubyValue
    pub grows : t.constant_updates ≡ s.constant_updates ++ more

  -- An exploration that keeps the constants in order, and gives a name that is set.
  pub record Named (s : State) (r : CString × List RubyValue) (t : State) : Type 0 where
    pub kept : Kept s t
    pub named : HasName r.0

  abbrev pub IsSound : Explore → Type 0
  IsSound explore =
      (c : RubyValue) (s : State) → IsMember classes c → Ready s → Ensures (Named s) (explore c s)

module _ {classes : List RubyValue} {f : ℕ} where
  pub Kept-refl : {s : State} → Ready classes f s → Kept classes f s s
  Kept-refl {s} ready = record {
    ready = ready;
    frame = refl;
    more = [];
    grows = sym (append-nil s.constant_updates);
  }

  pub Kept-trans : {s t u : State} → Kept classes f s t → Kept classes f t u → Kept classes f s u
  Kept-trans {s} {t} {u} a b = record {
    ready = b.ready;
    frame = Frame-trans s t u a.frame b.frame;
    more = a.more ++ b.more;
    grows =
        b.grows ∙ ap (λ cs. cs ++ b.more) a.grows ∙ append_assoc s.constant_updates a.more b.more;
  }

  -- One more unit of fuel is no harm.
  pub Kept-suc : {s t : State} → Kept classes f s t → Kept classes (suc f) s t
  Kept-suc kept = record {
    ready = record { known = kept.ready.known; fits = omega (arith, kept.ready.fits) };
    frame = kept.frame;
    more = kept.more;
    grows = kept.grows;
  }

pub All-append_one :
    {A : Type 0} (P : A → Type 0) (xs : List A) {x : A} → All P xs → P x → All P (xs ++ x ∷ [])
All-append_one P [] h p = (p, tt)
All-append_one P (y ∷ xs) (q, h) p = (q, All-append_one P xs h p)

All-weaken :
    {A : Type 0} {P Q : A → Type 0} (xs : List A) → ((x : A) → P x → Q x) → All P xs → All Q xs
All-weaken [] w h = tt
All-weaken (x ∷ xs) w (p, h) = (w x p, All-weaken xs w h)

named_if :
    (b : Bool) {k l : Constant} {o : Option Constant}
    → (if b then some k else o) ≡ some l
    → IsNamedConstant k
    → (o ≡ some l → IsNamedConstant l)
    → IsNamedConstant l
named_if true e named old = subst IsNamedConstant (cc) named
named_if false e named old = old e

-- A named constant is put into the map.
pub put_constant-IsKnown :
    (c : RubyValue) (k : Constant) (s : State)
    → IsKnown s
    → IsNamedConstant k
    → IsKnown (record s { constant_map = insert c k s.constant_map })
put_constant-IsKnown c k s known named = record {
  named = λ j l e.
      let e' = rw (lookup-insert c j k s.constant_map) at e in
      named_if (c == j) e' named (known.named j l);
  pending =
      All-weaken s.constant_updates
        (λ j there. rw (lookup-insert c j k s.constant_map) (ground (arith, there))) known.pending;
}

-- A constant of the map is put in line to be sent.
push_update-IsKnown :
    (c : RubyValue) (k : Constant) (s : State)
    → IsKnown s
    → IsNamedConstant k
    → IsKnown (record s {
      constant_map = insert c k s.constant_map;
      constant_updates = s.constant_updates ++ c ∷ [];
    })
push_update-IsKnown c k s known named =
    let put = put_constant-IsKnown c k s known named in
    record {
      named = put.named;
      pending =
          All-append_one (λ j. is_some (lookup j (insert c k s.constant_map)) ≡ true)
            s.constant_updates put.pending (rw (lookup-insert c c k s.constant_map) (ground arith));
    }

module _ {classes : List RubyValue} {f : ℕ} where
  pub put_constant-Kept :
      (c : RubyValue) (k : Constant) (s : State)
      → Ready classes f s
      → IsNamedConstant k
      → Kept classes f s (record s { constant_map = insert c k s.constant_map })
  put_constant-Kept c k s ready named = record {
    ready = record {
      known = put_constant-IsKnown c k s ready.known named;
      fits = omega (arith, ready.fits, missing-insert_le classes c k s.constant_map);
    };
    frame = refl;
    more = [];
    grows = sym (append-nil s.constant_updates);
  }

  -- A constant that is put into the map for the first time saves a unit of fuel.
  pub put_new-Kept :
      (c : RubyValue) (k : Constant) (s : State)
      → IsMember classes c
      → lookup c s.constant_map ≡ none
      → Ready classes (suc f) s
      → IsNamedConstant k
      → Kept classes f s (record s { constant_map = insert c k s.constant_map })
  put_new-Kept c k s member new ready named = record {
    ready = record {
      known = put_constant-IsKnown c k s ready.known named;
      fits = omega (arith, ready.fits, missing-insert_lt classes c k s.constant_map member new);
    };
    frame = refl;
    more = [];
    grows = sym (append-nil s.constant_updates);
  }

  pub push_update-Kept :
      (c : RubyValue) (k : Constant) (s : State)
      → Ready classes f s
      → IsNamedConstant k
      → Kept classes f s (record s {
        constant_map = insert c k s.constant_map;
        constant_updates = s.constant_updates ++ c ∷ [];
      })
  push_update-Kept c k s ready named = record {
    ready = record {
      known = push_update-IsKnown c k s ready.known named;
      fits = omega (arith, ready.fits, missing-insert_le classes c k s.constant_map);
    };
    frame = refl;
    more = c ∷ [];
    grows = refl;
  }

  -- Code in sequence, each part of which keeps the constants in order.
  pub Kept-bind :
      {A B : Type 0} {P : A → Type 0} {Q : B → Type 0} {s : State} {r : Option (A × State)}
      (k : A → M B)
      → Ensures (λ a t. Kept classes f s t × P a) r
      → ((a : A) (t : State)
          → Ready classes f t
          → P a
          → Ensures (λ b u. Kept classes f t u × Q b) (k a t))
      → Ensures (λ b u. Kept classes f s u × Q b) (and_then r k)
  Kept-bind k first next = Ensures-bind k first λ a t (kept, p).
      Ensures-mono (next a t kept.ready p) λ b u (later, q). (Kept-trans kept later, q)
