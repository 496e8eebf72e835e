-- ===== src/Protocol/Reading.antt =====
-- What it is for one of the agent's shift_ methods to read an object, and the reading of parts.
use racer_rb.Base.{ℕ, zero, suc, ◌≤◌, ◌≡◌, refl, List, [], ◌∷◌, ◌++◌, length, append_assoc, arith}
use racer_rb.Json.{Value, integer}
use racer_rb.Agent.Trace.{
  RubyInstance, RubyUnions, RubyInstances, ruby_instance, no_unions, union, no_instances,
  instance_of,
}
use racer_rb.Agent.Shift.{
  ok, Shift, pure, ◌>>=◌, shift, times, shift_count, shift_constant_instance, shift_values,
}
use racer_rb.Protocol.Tokens.{
  count_unions, count_instances, instance_tokens, unions_tokens, instances_tokens, values_tokens,
  instance_depth, unions_depth, instances_depth,
}

-- `p` takes exactly `ws` off the front, and gives `a`.
pub record Reads {A : Type 0} (p : Shift A) (ws : List Value) (a : A) : Type 0 where
  pub reads : (others : List Value) → p (ws ++ others) ≡ ok (a, others)

module _ {A B : Type 0} where
  pub Reads-bind :
      {p : Shift A} {ws us : List Value} {a : A} {b : B} (k : A → Shift B)
      → Reads p ws a
      → Reads (k a) us b
      → Reads (p >>= k) (ws ++ us) b
  Reads-bind {ws} {us} k hp hk = record {
    reads = λ others. rw (append_assoc ws us others, hp.reads (us ++ others)) (hk.reads others);
  }

  -- Where the last step takes nothing.
  pub Reads-last :
      {p : Shift A} {ws : List Value} {a : A} {b : B} (k : A → Shift B)
      → Reads p ws a
      → Reads (k a) [] b
      → Reads (p >>= k) ws b
  Reads-last k hp hk = record { reads = λ others. rw (hp.reads others) (hk.reads others) }

  pub Reads-times :
      {item : Shift A} {ws us : List Value} {a : A} {l : B} (empty : B) (cons : A → B → B) (n : ℕ)
      → Reads item ws a
      → Reads (times empty cons item n) us l
      → Reads (times empty cons item (suc n)) (ws ++ us) (cons a l)
  unfolding times
  Reads-times {ws} {us} empty cons n hi hl = record {
    reads = λ others. rw (append_assoc ws us others, hi.reads (us ++ others), hl.reads others);
  }

pub Reads-pure : {A : Type 0} (a : A) → Reads (pure a) [] a
Reads-pure a = record { reads = λ others. refl }

pub Reads-shift : (v : Value) → Reads shift (v ∷ []) v
unfolding shift
Reads-shift v = record { reads = λ others. refl }

pub Reads-shift_count : (n : ℕ) → Reads shift_count (integer n ∷ []) n
unfolding shift_count
Reads-shift_count n = record { reads = λ others. refl }

mutual
  unfolding times shift_constant_instance instance_tokens instance_depth

  pub Reads-instance :
      (i : RubyInstance) (f : ℕ)
      → instance_depth i ≤ f
      → Reads (shift_constant_instance f) (instance_tokens i) i
  Reads-instance (ruby_instance name singleton us) zero h = absurd (omega arith)
  Reads-instance (ruby_instance name singleton us) (suc f) h = Reads-bind _ (Reads-shift name) (
      Reads-bind _ (Reads-shift singleton) (
        Reads-bind _ (Reads-shift_count (count_unions us))
          (Reads-last _ (Reads-unions us f (omega arith)) (Reads-pure _))))

  Reads-unions :
      (us : RubyUnions) (f : ℕ)
      → unions_depth us ≤ f
      → Reads
          (times no_unions union
            (shift_count >>= times no_instances instance_of (shift_constant_instance f))
            (count_unions us))
          (unions_tokens us)
          us
  Reads-unions no_unions f h = record { reads = λ others. refl }
  Reads-unions (union is us) f h =
      Reads-times no_unions union (count_unions us)
        (Reads-bind _ (Reads-shift_count (count_instances is)) (Reads-instances is f (omega arith)))
        (Reads-unions us f (omega arith))

  Reads-instances :
      (is : RubyInstances) (f : ℕ)
      → instances_depth is ≤ f
      → Reads
          (times no_instances instance_of (shift_constant_instance f) (count_instances is))
          (instances_tokens is)
          is
  Reads-instances no_instances f h = record { reads = λ others. refl }
  Reads-instances (instance_of i is) f h =
      Reads-times no_instances instance_of (count_instances is) (Reads-instance i f (omega arith))
        (Reads-instances is f (omega arith))

Reads-times-shift : (vs : List Value) → Reads (times [] ◌∷◌ shift (length vs)) vs vs
unfolding times
Reads-times-shift [] = record { reads = λ others. refl }
Reads-times-shift (v ∷ vs) = Reads-times [] ◌∷◌ (length vs) (Reads-shift v) (Reads-times-shift vs)

pub Reads-shift_values : (vs : List Value) → Reads shift_values (values_tokens vs) vs
unfolding shift_values
Reads-shift_values vs = Reads-bind _ (Reads-shift_count (length vs)) (Reads-times-shift vs)
