-- ===== src/Racer/Types.antt =====
-- ext/racer/racer.cc, value_to_constant_instance and generic_arguments_by_value: the names, the
-- arguments and the depth of the types of values.
use mathlib.Core.Path.{subst}
use racer_rb.Base.{
  ℕ, zero, suc, ◌+◌, ◌≤◌, ◌<◌, ◌≡◌, refl, ap, ◌∙◌, Bool, true, false, List, [], ◌∷◌, ◌==◌,
  if◌then◌else◌, All, some, has, arith, Bool-cases, inl, inr,
}
use racer_rb.Traces.{ConstantInstance, Unions, constant_instance, no_unions, union}
use racer_rb.Protocol.Views.{
  IsComplete, AreUnions, AreInstances, unions_size, view_instance, view_instances, view_unions,
}
use racer_rb.Protocol.Tokens.{instance_depth, instances_depth, unions_depth}
use racer_rb.Racer.State.{RubyValue, Vm, State, M, pure, ◌>>=◌}
use racer_rb.Racer.Generics.{
  to_instances, Union, no_members, is_plain, add_member, Describe, class_to_constant_instance,
  array_loop, hash_loop, array_arguments, hash_arguments, generic_arguments_by_value,
  value_to_constant_instance,
}
use racer_rb.Racer.Ensures.{Ensures, holds, Ensures-bind, Ensures-mono, Ensures-if}
use racer_rb.Racer.Closed.{IsMember, IsClosed, AreObjects, is_singleton_type}
use racer_rb.Racer.Known.{Ready, Kept, Kept-refl, Kept-trans, All-append_one}
use racer_rb.Racer.Explored.{explore_constant-IsSound}

Kept-max_depth :
    {classes : List RubyValue} {f : ℕ} {s t : State}
    → Kept classes f s t
    → t.max_generic_depth ≡ s.max_generic_depth
Kept-max_depth kept = ap (λ r. r.max_generic_depth) kept.frame

-- A type that can be sent, and that stays within the maximal depth where it stands at depth `depth`.
pub record IsType (limit depth : ℕ) (i : ConstantInstance) : Type 0 where
  pub complete : IsComplete i
  pub depth_bound : instance_depth (view_instance i) + depth ≤ suc limit

-- The same of the arguments of a type at depth `depth`.
record AreArguments (limit depth : ℕ) (r : ℕ × Unions) : Type 0 where
  size : r.0 ≡ unions_size r.1
  complete : AreUnions r.1
  depth_bound : unions_depth (view_unions r.1) + depth ≤ limit

add_member-All :
    (P : ConstantInstance → Type 0) (klass : RubyValue) (i : ConstantInstance) (u : Union)
    → P i
    → All P u.members
    → All P (add_member klass i u).members
unfolding add_member
add_member-All P klass i u p all = elim (Bool-cases (is_plain i)) [
  | inl plain ↦ elim (Bool-cases (has klass u.types)) [
    | inl old ↦ rw (plain, old) all
    | inr new ↦ rw (plain, new) (All-append_one P u.members all p)
  ]
  | inr other ↦ rw other (All-append_one P u.members all p)
]

to_instances_complete :
    (limit depth : ℕ) (is : List ConstantInstance)
    → depth ≤ limit
    → All (IsType limit depth) is
    → AreInstances (to_instances is)
      × (instances_depth (view_instances (to_instances is)) + depth ≤ suc limit)
unfolding IsComplete view_instance instance_depth
to_instances_complete limit depth [] fits all = (tt, omega arith)
to_instances_complete limit depth (i ∷ is) fits (t, all) =
    let (complete, bound) = to_instances_complete limit depth is fits all in
    ((t.complete, complete), omega (arith, t.depth_bound))

module _ (classes : List RubyValue) (f : ℕ) (IsObject : RubyValue → Type 0) where
  abbrev Describes : ℕ → ℕ → Describe → Type 0
  Describes limit depth describe =
      (v : RubyValue) (s : State)
      → IsObject v
      → Ready classes f s
      → s.max_generic_depth ≡ limit
      → Ensures (λ i t. Kept classes f s t × IsType limit depth i) (describe v s)

  no_arguments :
      (limit depth : ℕ) {s : State}
      → depth ≤ limit
      → Ready classes f s
      → Ensures (λ r t. Kept classes f s t × AreArguments limit depth r) (some ((0, no_unions), s))
  unfolding IsComplete view_instance instance_depth
  no_arguments limit depth fits ready =
      holds {a = (0, no_unions)}
        (Kept-refl ready, record { size = refl; complete = tt; depth_bound = omega arith })

  -- The members of arrays and hashes of a value at depth `depth`, described one by one.
  module _ (vm : Vm) (limit depth : ℕ) (describe : Describe)
      (describes : Describes limit (depth + 1) describe) where
    abbrev Members : Union → Type 0
    Members u = All (IsType limit (depth + 1)) u.members

    array_loop-Kept :
        (items : List RubyValue) (u : Union) (s : State)
        → All IsObject items
        → Ready classes f s
        → s.max_generic_depth ≡ limit
        → Members u
        → Ensures (λ v t. Kept classes f s t × Members v) (array_loop vm describe items u s)
    unfolding array_loop
    array_loop-Kept [] u s objects ready e all = holds (Kept-refl ready, all)
    array_loop-Kept (item ∷ items) u s (object, objects) ready e all =
        Ensures-bind _ (describes item s object ready e) λ i t (kept, typed).
          Ensures-mono
            (array_loop-Kept items _ t objects kept.ready (Kept-max_depth kept ∙ e)
              (add_member-All (IsType limit (depth + 1)) (Vm.rb_obj_class vm item) i u typed all))
            λ v w (later, all'). (Kept-trans kept later, all')

    abbrev AreBoth : RubyValue × RubyValue → Type 0
    AreBoth pair = IsObject pair.0 × IsObject pair.1

    hash_loop-Kept :
        (pairs : List (RubyValue × RubyValue)) (keys values : Union) (s : State)
        → All AreBoth pairs
        → Ready classes f s
        → s.max_generic_depth ≡ limit
        → Members keys
        → Members values
        → Ensures
            (λ r t. Kept classes f s t × Members r.0 × Members r.1)
            (hash_loop vm describe pairs keys values s)
    unfolding hash_loop
    hash_loop-Kept [] keys values s objects ready e allk allv = holds (Kept-refl ready, allk, allv)
    hash_loop-Kept ((key, value) ∷ pairs) keys values s ((object, object'), objects) ready e allk
          allv =
        Ensures-bind _ (describes key s object ready e) λ k t (kept, typed).
          Ensures-bind _ (describes value t object' kept.ready (Kept-max_depth kept ∙ e))
            λ v w (kept', typed').
              Ensures-mono
                (hash_loop-Kept pairs _ _ w objects kept'.ready
                  (Kept-max_depth kept' ∙ Kept-max_depth kept ∙ e)
                  (add_member-All (IsType limit (depth + 1)) (Vm.rb_obj_class vm key) k keys typed
                    allk)
                  (add_member-All (IsType limit (depth + 1)) (Vm.rb_obj_class vm value) v values
                    typed' allv))
                λ r x (later, allk', allv').
                  (Kept-trans kept (Kept-trans kept' later), allk', allv')

    abbrev Typed : State → ℕ × Unions → State → Type 0
    Typed s r t = Kept classes f s t × AreArguments limit depth r

    array_arguments-Typed :
        (items : List RubyValue) (s : State)
        → All IsObject items
        → depth < limit
        → Ready classes f s
        → s.max_generic_depth ≡ limit
        → Ensures (Typed s) (array_arguments vm describe items s)
    unfolding array_arguments IsComplete view_instance instance_depth
    array_arguments-Typed [] s objects below ready e = no_arguments limit depth (omega arith) ready
    array_arguments-Typed (item ∷ items) s objects below ready e =
        Ensures-bind _ (array_loop-Kept (item ∷ items) no_members s objects ready e tt)
          λ u t (kept, all).
            let (complete, bound) =
              to_instances_complete limit (depth + 1) u.members (omega arith) all in
            holds {a = (1, union (to_instances u.members) no_unions)}
              (kept, record { size = refl; complete = (complete, tt); depth_bound = omega arith })

    hash_arguments-Typed :
        (pairs : List (RubyValue × RubyValue)) (s : State)
        → All AreBoth pairs
        → depth < limit
        → Ready classes f s
        → s.max_generic_depth ≡ limit
        → Ensures (Typed s) (hash_arguments vm describe pairs s)
    unfolding hash_arguments IsComplete view_instance instance_depth
    hash_arguments-Typed [] s objects below ready e = no_arguments limit depth (omega arith) ready
    hash_arguments-Typed (pair ∷ pairs) s objects below ready e =
        Ensures-bind _ (hash_loop-Kept (pair ∷ pairs) no_members no_members s objects ready e tt tt)
          λ r t (kept, all, all').
            let (complete, bound) =
              to_instances_complete limit (depth + 1) r.0.members (omega arith) all in
            let (complete', bound') =
              to_instances_complete limit (depth + 1) r.1.members (omega arith) all' in
            holds
              {a = (
                2,
                union (to_instances r.0.members) (union (to_instances r.1.members) no_unions),
              )}
              (
                kept,
                record {
                  size = refl;
                  complete = (complete, (complete', tt));
                  depth_bound = omega arith;
                },
              )

  -- Below the maximal depth the arguments are described, and at it they are left out.
  arguments-Typed :
      (vm : Vm) (limit depth : ℕ) (describe : Describe)
      → (depth < limit → Describes limit (depth + 1) describe)
      → (value klass : RubyValue) (s : State) → All IsObject (Vm.array_items vm value)
      → All
          (λ (pair : RubyValue × RubyValue). IsObject pair.0 × IsObject pair.1)
          (Vm.hash_pairs vm value)
      → depth ≤ limit
      → Ready classes f s
      → s.max_generic_depth ≡ limit
      → Ensures
          (λ r t. Kept classes f s t × AreArguments limit depth r)
          (generic_arguments_by_value vm describe value klass depth limit s)
  unfolding generic_arguments_by_value
  arguments-Typed vm limit depth describe describes value klass s items pairs fits ready e =
      let arrays = array_arguments vm describe (Vm.array_items vm value) in
      let hashes = hash_arguments vm describe (Vm.hash_pairs vm value) in
      let none_found : M (ℕ × Unions) = pure (0, no_unions) in
      let no_args = no_arguments limit depth fits ready in
      let is_hash = klass == Vm.rb_c_hash vm in
      Ensures-if (depth == limit) none_found
        (if klass == Vm.rb_c_array vm then arrays else if is_hash then hashes else none_found) s
        (λ _. no_args)
        λ other.
          let below : depth < limit = ground arith in
          Ensures-if (klass == Vm.rb_c_array vm) arrays (if is_hash then hashes else none_found) s
            (λ _.
              array_arguments-Typed vm limit depth describe (describes below) _ s items below ready
                e)
            λ _.
              Ensures-if is_hash hashes none_found s
                (λ _.
                  hash_arguments-Typed vm limit depth describe (describes below) _ s pairs below
                    ready e)
                (λ _. no_args)

class_to_instance-IsType :
    (vm : Vm) (classes : List RubyValue) (f limit depth : ℕ) (klass count : ℕ) (us : Unions)
    (singleton : Bool) (s : State)
    → IsClosed vm classes
    → IsMember classes klass
    → Ready classes f s
    → AreArguments limit depth (count, us)
    → Ensures
        (λ i t. Kept classes f s t × IsType limit depth i)
        (class_to_constant_instance vm f klass count us singleton s)
unfolding class_to_constant_instance IsComplete view_instance instance_depth
class_to_instance-IsType vm classes f limit depth klass count us singleton s closed member ready
      args =
    Ensures-bind _ (explore_constant-IsSound vm classes f klass s closed member ready) λ r t n.
      holds {a = constant_instance r.0 count us singleton} (
        n.kept,
        record {
          complete = (n.named, args.size, args.complete);
          depth_bound = omega (arith, args.depth_bound);
        },
      )

-- The type of a class without arguments.
pub plain_instance-IsComplete :
    (vm : Vm) (classes : List RubyValue) (f : ℕ) (klass : RubyValue) (singleton : Bool) (s : State)
    → IsClosed vm classes
    → IsMember classes klass
    → Ready classes f s
    → Ensures
        (λ i t. Kept classes f s t × IsComplete i)
        (class_to_constant_instance vm f klass 0 no_unions singleton s)
unfolding IsComplete view_instance instance_depth
plain_instance-IsComplete vm classes f klass singleton s closed member ready =
    Ensures-mono
      (class_to_instance-IsType vm classes f 0 0 klass 0 no_unions singleton s closed member ready
        (record { size = refl; complete = tt; depth_bound = omega arith }))
      λ i t (kept, typed). (kept, typed.complete)

-- Let `classes` be closed under what explorations come to, its members with names or names that can be
-- made, and let it hold the classes of some objects that are closed under being in an array or a hash.
-- Let the constants be in order, fewer than `f` of the classes be unexplored, and the depth at which
-- an object stands be at most the maximal depth and less than `levels` below it. Then the code makes a
-- type of that object without undefined behaviour; the type and all in it have names, and as many
-- arguments as they announce; it nests no deeper than the maximal depth allows; and the state is as
-- after explorations.
pub value_to_instance-IsType :
    (vm : Vm) (classes : List RubyValue) (IsObject : RubyValue → Type 0) (f levels : ℕ)
    (value : RubyValue) (depth : ℕ) (s : State)
    → IsClosed vm classes
    → AreObjects vm classes IsObject
    → IsObject value
    → Ready classes f s
    → depth ≤ s.max_generic_depth
    → s.max_generic_depth < depth + levels
    → Ensures
        (λ i t. Kept classes f s t × IsType s.max_generic_depth depth i)
        (value_to_constant_instance vm f levels value depth s)
unfolding value_to_constant_instance IsComplete view_instance instance_depth
value_to_instance-IsType vm classes IsObject f zero value depth s closed objects object ready fits
      enough =
    absurd (omega arith)
value_to_instance-IsType vm classes IsObject f (suc levels) value depth s closed objects object
      ready fits enough =
    let klass = Vm.rb_obj_class vm value in
    let limit = s.max_generic_depth in
    let describe = λ (item : RubyValue). value_to_constant_instance vm f levels item (depth + 1) in
    let member = objects.type_class value object in
    let describes =
      λ (below : depth < limit) (v : RubyValue) (t : State) (inside : IsObject v)
          (ready' : Ready classes f t) (e : t.max_generic_depth ≡ limit).
        Ensures-mono
          (value_to_instance-IsType vm classes IsObject f levels v (depth + 1) t closed objects
            inside ready' (omega (arith, e, below)) (omega (arith, e, enough)))
          λ i u (kept, typed). (kept, subst (λ n. IsType n (depth + 1) i) e typed) in
    Ensures-if (is_singleton_type vm value) (class_to_constant_instance vm f value 0 no_unions true)
      (generic_arguments_by_value vm describe value klass depth limit >>= λ r.
        class_to_constant_instance vm f klass r.0 r.1 false)
      s
      (λ is.
        class_to_instance-IsType vm classes f limit depth value 0 no_unions true s closed
          (rw is at member) ready
          (record { size = refl; complete = tt; depth_bound = omega arith }))
      (λ is.
        Ensures-bind _
          (arguments-Typed classes f IsObject vm limit depth describe describes value klass s
            (objects.items value object) (objects.pairs value object) fits ready refl)
          λ r t (kept, args).
            Ensures-mono
              (class_to_instance-IsType vm classes f limit depth klass r.0 r.1 false t closed
                (rw is at member) kept.ready args)
              λ i u (later, typed). (Kept-trans kept later, typed))
