-- ===== src/Agent/Feed.antt =====
-- lib/racer/agent.rb, worker_loop: a machine that reads one byte after the other.
use racer_rb.Base.{
  ℕ, zero, suc, ◌≡◌, refl, sym, ap, ◌∙◌, false, Option, none, some, List, [], ◌∷◌, ◌++◌,
  append_assoc, append-nil, All, arith,
}
use racer_rb.Agent.Stream.{Bytes, is_empty, pieces, ends_with_zero}

-- The machine: a zero ends a message, and any other byte goes to the message that is being read.
unfoldable pub feed : Bytes → Bytes → List Bytes × Bytes
feed acc [] = ([], acc)
feed acc (zero ∷ bs) = let (messages, rest) = feed [] bs in (acc ∷ messages, rest)
feed acc (suc b ∷ bs) = feed (acc ++ suc b ∷ []) bs

abbrev pub IsPlain : Bytes → Type 0
IsPlain [] = Unit
IsPlain (zero ∷ bs) = ⊥
IsPlain (suc b ∷ bs) = IsPlain bs

abbrev pub AreWhole : List Bytes → Type 0
AreWhole = All (λ message. is_empty message ≡ false)

-- What is pending; nothing is nil.
abbrev pub to_pending : Bytes → Option Bytes
to_pending [] = none
to_pending (b ∷ bs) = some (b ∷ bs)

pub pieces-feed : (acc bs : Bytes) → pieces acc bs ≡ (feed acc bs).0 ++ (feed acc bs).1 ∷ []
unfolding pieces feed
pieces-feed acc [] = refl
pieces-feed acc (zero ∷ bs) = ap (λ ps. acc ∷ ps) (pieces-feed [] bs)
pieces-feed acc (suc b ∷ bs) = pieces-feed (acc ++ suc b ∷ []) bs

is_empty-append_one : (acc : Bytes) (b : ℕ) → is_empty (acc ++ b ∷ []) ≡ false
is_empty-append_one [] b = refl
is_empty-append_one (a ∷ acc) b = refl

-- Bytes end with a zero if the machine has nothing of a message after them.
pub ends_with_zero-feed :
    (acc : Bytes) (b : ℕ) (bs : Bytes) → ends_with_zero (b ∷ bs) ≡ is_empty (feed acc (b ∷ bs)).1
unfolding ends_with_zero feed
ends_with_zero-feed acc zero [] = refl
ends_with_zero-feed acc (suc b) [] = rw (is_empty-append_one acc (suc b)) (ground arith)
ends_with_zero-feed acc zero (c ∷ bs) = ends_with_zero-feed [] c bs
ends_with_zero-feed acc (suc b) (c ∷ bs) = ends_with_zero-feed (acc ++ suc b ∷ []) c bs

-- What the machine has read goes before the first message of the rest.
abbrev pub before : Bytes → List Bytes × Bytes → List Bytes × Bytes
before acc ([], rest) = ([], acc ++ rest)
before acc (message ∷ messages, rest) = ((acc ++ message) ∷ messages, rest)

pub feed-before : (a b bs : Bytes) → feed (a ++ b) bs ≡ before a (feed b bs)
unfolding feed
feed-before a b [] = refl
feed-before a b (zero ∷ bs) = refl
feed-before a b (suc c ∷ bs) =
    ap (λ acc. feed acc bs) (append_assoc a b (suc c ∷ [])) ∙ feed-before a (b ++ suc c ∷ []) bs

IsPlain-append_one : (acc : Bytes) (b : ℕ) → IsPlain acc → IsPlain (acc ++ suc b ∷ [])
IsPlain-append_one [] b plain = tt
IsPlain-append_one (zero ∷ acc) b plain = absurd plain
IsPlain-append_one (suc a ∷ acc) b plain = IsPlain-append_one acc b plain

pub IsPlain-append : (a b : Bytes) → IsPlain a → IsPlain b → IsPlain (a ++ b)
IsPlain-append [] b plain plain' = plain'
IsPlain-append (zero ∷ a) b plain plain' = absurd plain
IsPlain-append (suc c ∷ a) b plain plain' = IsPlain-append a b plain plain'

-- No message has a zero in it.
pub feed-IsPlain :
    (acc bs : Bytes) → IsPlain acc → All IsPlain (feed acc bs).0 × IsPlain (feed acc bs).1
unfolding feed
feed-IsPlain acc [] plain = (tt, plain)
feed-IsPlain acc (zero ∷ bs) plain = let (all, rest) = feed-IsPlain [] bs tt in ((plain, all), rest)
feed-IsPlain acc (suc b ∷ bs) plain =
    feed-IsPlain (acc ++ suc b ∷ []) bs (IsPlain-append_one acc b plain)

pub feed-plain : (acc bs : Bytes) → IsPlain bs → feed acc bs ≡ ([], acc ++ bs)
unfolding feed
feed-plain acc [] plain = ap (λ bs. ([], bs)) (sym (append-nil acc))
feed-plain acc (zero ∷ bs) plain = absurd plain
feed-plain acc (suc b ∷ bs) plain =
    feed-plain (acc ++ suc b ∷ []) bs plain ∙ ap (λ bs. ([], bs)) (append_assoc acc (suc b ∷ []) bs)
