-- ===== src/Agent/Framing.antt =====
-- lib/racer/agent.rb, worker_loop: the cutting of what is read, beside a machine that reads one byte
-- after the other.
use mathlib.Core.Path.{subst}
use racer_rb.Base.{
  ℕ, zero, suc, ◌≡◌, refl, sym, ap, ◌∙◌, true, false, Option, none, some, List, [], ◌∷◌, ◌++◌, map,
  append_assoc, append-nil, All,
}
use racer_rb.Agent.Stream.{
  Bytes, is_empty, kept_piece, drop_empty, split, all_and_last, join_pending, take_last,
  receive_chunk,
}
use racer_rb.Agent.Feed.{
  feed, IsPlain, AreWhole, to_pending, pieces-feed, ends_with_zero-feed, before, feed-before,
  IsPlain-append, feed-IsPlain, feed-plain,
}

-- A list of pieces of which the last is not empty is kept.
drop_empty-append_one :
    (ps : List Bytes) (b : ℕ) (bs : Bytes) → drop_empty (ps ++ (b ∷ bs) ∷ []) ≡ ps ++ (b ∷ bs) ∷ []
unfolding drop_empty
drop_empty-append_one [] b bs = refl
drop_empty-append_one ([] ∷ []) b bs = refl
drop_empty-append_one ([] ∷ p ∷ ps) b bs = rw (drop_empty-append_one (p ∷ ps) b bs) refl
drop_empty-append_one ((c ∷ cs) ∷ ps) b bs =
    ap (λ rest. kept_piece (c ∷ cs) rest) (drop_empty-append_one ps b bs)

-- An empty piece at the end is dropped.
drop_empty-append_empty : (ps : List Bytes) → drop_empty (ps ++ [] ∷ []) ≡ drop_empty ps
unfolding drop_empty
drop_empty-append_empty [] = refl
drop_empty-append_empty (p ∷ ps) = ap (λ rest. kept_piece p rest) (drop_empty-append_empty ps)

drop_empty-AreWhole :
    (p : Bytes) (ps : List Bytes) → AreWhole ps → is_empty p ≡ false → drop_empty (p ∷ ps) ≡ p ∷ ps
unfolding drop_empty
drop_empty-AreWhole [] ps whole filled = absurd (cc)
drop_empty-AreWhole (b ∷ bs) [] whole filled = refl
drop_empty-AreWhole (b ∷ bs) (p ∷ ps) (filled', whole) filled =
    ap (λ rest. kept_piece (b ∷ bs) rest) (drop_empty-AreWhole p ps whole filled')

all_and_last-append_one : (ps : List Bytes) (p : Bytes) → all_and_last (ps ++ p ∷ []) ≡ (ps, some p)
unfolding all_and_last
all_and_last-append_one [] p = refl
all_and_last-append_one (q ∷ []) p = refl
all_and_last-append_one (q ∷ r ∷ ps) p =
    ap (λ (found : List Bytes × Option Bytes). (q ∷ found.0, found.1))
      (all_and_last-append_one (r ∷ ps) p)

-- Where the last message is complete, all are.
take_last-all_and_last :
    (p : Bytes) (ps : List Bytes)
    → take_last true (all_and_last (p ∷ ps)) ≡ (map some (p ∷ ps), none)
unfolding all_and_last
take_last-all_and_last p [] = refl
take_last-all_and_last p (q ∷ ps) =
    ap (λ (taken : List (Option Bytes) × Option Bytes). (some p ∷ taken.0, taken.1))
      (take_last-all_and_last q ps)

split-plain : (b : ℕ) (bs : Bytes) → IsPlain (b ∷ bs) → split (b ∷ bs) ≡ (b ∷ bs) ∷ []
unfolding split drop_empty
split-plain b bs plain = rw (pieces-feed [] (b ∷ bs), feed-plain [] (b ∷ bs) plain) refl

kept_piece-cons : (p q : Bytes) (ps : List Bytes) → kept_piece p (q ∷ ps) ≡ p ∷ q ∷ ps
kept_piece-cons [] q ps = refl
kept_piece-cons (b ∷ bs) q ps = refl

-- What one read comes to, by its parts.
cut : Bytes → List Bytes × Bytes → List (Option Bytes) × Option Bytes
unfolding drop_empty all_and_last join_pending
cut acc (messages, rest) =
    take_last (is_empty rest)
      (join_pending (to_pending acc) (all_and_last (drop_empty (messages ++ rest ∷ []))))

cut-before :
    (acc : Bytes) (ps : List Bytes) (r : Bytes)
    → IsPlain acc
    → All IsPlain ps
    → AreWhole (before acc (ps, r)).0
    → (ps ≡ [] → is_empty r ≡ true → ⊥)
    → cut acc (ps, r) ≡ (map some (before acc (ps, r)).0, to_pending (before acc (ps, r)).1)
unfolding cut drop_empty all_and_last join_pending
cut-before [] [] [] plain plain' whole some_left = absurd (some_left refl refl)
cut-before [] (p ∷ ps) [] plain plain' (filled, whole) some_left =
    rw (drop_empty-append_empty (p ∷ ps), drop_empty-AreWhole p ps whole filled)
      (take_last-all_and_last p ps)
cut-before [] [] (b ∷ bs) plain plain' whole some_left = refl
cut-before [] (p ∷ ps) (b ∷ bs) plain plain' whole some_left =
    rw (drop_empty-append_one (p ∷ ps) b bs, all_and_last-append_one (p ∷ ps) (b ∷ bs)) refl
cut-before (a ∷ acc) [] [] plain plain' whole some_left = absurd (some_left refl refl)
cut-before (a ∷ acc) ([] ∷ []) [] plain plain' whole some_left = refl
cut-before (a ∷ acc) ((b ∷ bs) ∷ []) [] plain plain' whole some_left = refl
cut-before (a ∷ acc) (p ∷ q ∷ ps) [] plain (plain', all) (filled, (filled', whole)) some_left =
    let kept : drop_empty (q ∷ ps ++ [] ∷ []) ≡ q ∷ ps =
      drop_empty-append_empty (q ∷ ps) ∙ drop_empty-AreWhole q ps whole filled' in
    let joined = split-plain a (acc ++ p) (IsPlain-append (a ∷ acc) p plain plain') in
    rw (kept, kept_piece-cons p q ps, joined)
      (ap (λ (taken : List (Option Bytes) × Option Bytes). (some (a ∷ acc ++ p) ∷ taken.0, taken.1))
        (take_last-all_and_last q ps))
cut-before (a ∷ acc) [] (b ∷ bs) plain plain' whole some_left = refl
cut-before (a ∷ acc) (p ∷ ps) (b ∷ bs) plain (plain', all) whole some_left =
    let joined = split-plain a (acc ++ p) (IsPlain-append (a ∷ acc) p plain plain') in
    rw (drop_empty-append_one (p ∷ ps) b bs, all_and_last-append_one (p ∷ ps) (b ∷ bs), joined) refl

-- What the machine has and reads is what it has read and has.
abbrev joined : List Bytes → Bytes → Bytes
joined [] rest = rest
joined (message ∷ messages) rest = message ++ zero ∷ joined messages rest

feed-joined : (acc bs : Bytes) → joined (feed acc bs).0 (feed acc bs).1 ≡ acc ++ bs
unfolding feed
feed-joined acc [] = sym (append-nil acc)
feed-joined acc (zero ∷ bs) = ap (λ rest. acc ++ zero ∷ rest) (feed-joined [] bs)
feed-joined acc (suc b ∷ bs) = feed-joined (acc ++ suc b ∷ []) bs ∙ append_assoc acc (suc b ∷ []) bs

nothing_read :
    (q : List Bytes × Bytes) (b : ℕ) (bs : Bytes)
    → joined q.0 q.1 ≡ b ∷ bs
    → q.0 ≡ []
    → is_empty q.1 ≡ true
    → ⊥
nothing_read ([], []) b bs e none_read empty = cc
nothing_read ([], r ∷ rs) b bs e none_read empty = cc
nothing_read (p ∷ ps, r) b bs e none_read empty = cc

-- Let no byte that is pending be a zero, let at least one byte be read, and let no message that the read
-- completes be empty. Then the agent completes with it, in order, the messages that a machine completes
-- which goes through it byte after byte and ends a message at each zero, and what is pending after it
-- is what the machine has of the next message, nil if that is nothing.
pub receive_chunk-feed :
    (acc : Bytes) (b : ℕ) (bs : Bytes)
    → IsPlain acc
    → AreWhole (feed acc (b ∷ bs)).0
    → receive_chunk (to_pending acc) (b ∷ bs)
      ≡ (map some (feed acc (b ∷ bs)).0, to_pending (feed acc (b ∷ bs)).1)
unfolding receive_chunk split cut drop_empty all_and_last join_pending
receive_chunk-feed acc b bs plain whole =
    let first = feed [] (b ∷ bs) in
    let whole_first : feed acc (b ∷ bs) ≡ before acc first =
      ap (λ a. feed a (b ∷ bs)) (sym (append-nil acc)) ∙ feed-before acc [] (b ∷ bs) in
    let cut_first : receive_chunk (to_pending acc) (b ∷ bs) ≡ cut acc first =
      rw (ends_with_zero-feed [] b bs, pieces-feed [] (b ∷ bs)) refl in
    let whole' : AreWhole (before acc first).0 =
      subst (λ (q : List Bytes × Bytes). AreWhole q.0) whole_first whole in
    cut_first
    ∙ cut-before acc first.0 first.1 plain (feed-IsPlain [] (b ∷ bs) tt).0 whole'
        (nothing_read first b bs (feed-joined [] (b ∷ bs)))
    ∙ ap (λ (q : List Bytes × Bytes). (map some q.0, to_pending q.1)) (sym whole_first)

pub feed-append :
    (acc bs cs : Bytes)
    → feed acc (bs ++ cs)
      ≡ ((feed acc bs).0 ++ (feed (feed acc bs).1 cs).0, (feed (feed acc bs).1 cs).1)
unfolding feed
feed-append acc [] cs = refl
feed-append acc (zero ∷ bs) cs =
    ap (λ (q : List Bytes × Bytes). (acc ∷ q.0, q.1)) (feed-append [] bs cs)
feed-append acc (suc b ∷ bs) cs = feed-append (acc ++ suc b ∷ []) bs cs

-- The messages as they are sent, each with a zero after it.
abbrev pub framed : List Bytes → Bytes
framed [] = []
framed (message ∷ messages) = message ++ zero ∷ framed messages

pub feed-framed :
    (messages : List Bytes) → All IsPlain messages → feed [] (framed messages) ≡ (messages, [])
unfolding feed
feed-framed [] plain = refl
feed-framed (message ∷ messages) (plain, all) =
    feed-append [] message (zero ∷ framed messages)
    ∙ rw (feed-plain [] message plain)
        (ap (λ (q : List Bytes × Bytes). (message ∷ q.0, q.1)) (feed-framed messages all))
