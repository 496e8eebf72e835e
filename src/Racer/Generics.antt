-- ===== src/Racer/Generics.antt =====
-- ext/racer/racer.cc, class_to_constant_instance to value_to_constant_instance: the type of a value,
-- with the types of the items of arrays and hashes down to the maximal depth.
use racer_rb.Base.{
  ℕ, zero, suc, ◌+◌, Bool, true, false, not, ◌&&◌, ◌||◌, List, [], ◌∷◌, ◌++◌, ◌==◌, if◌then◌else◌,
  has, none,
}
use racer_rb.Traces.{
  ConstantInstance, Unions, Instances, constant_instance, no_unions, union, no_instances,
  instance_of,
}
use racer_rb.Racer.State.{RubyValue, Vm, M, pure, ◌>>=◌}
use racer_rb.Racer.Constants.{explore_constant}

abbrev pub to_instances : List ConstantInstance → Instances
to_instances [] = no_instances
to_instances (i ∷ is) = instance_of i (to_instances is)

-- The classes that are in the union already, and the union's members in the order of their coming.
pub record Union : Type 0 where
  pub types : List RubyValue
  pub members : List ConstantInstance

abbrev pub no_members : Union
no_members = record { types = []; members = [] }

-- A plain type is added once for each class, any other each time.
abbrev pub is_plain : ConstantInstance → Bool
is_plain (constant_instance name count us singleton) = (count == 0) && not singleton

unfoldable pub add_member : RubyValue → ConstantInstance → Union → Union
add_member klass i u =
    if is_plain i
    then (if has klass u.types
        then u
        else record { types = klass ∷ u.types; members = u.members ++ i ∷ [] })
    else record u { members = u.members ++ i ∷ [] }

-- How a member's type is found, one level further down.
abbrev pub Describe : Type 0
Describe = RubyValue → M ConstantInstance

module _ (vm : Vm) where
  open vm use {
    rb_c_class, rb_c_module, rb_c_array, rb_c_hash, rb_obj_class, array_items, hash_pairs,
  }

  unfoldable pub class_to_constant_instance : ℕ → RubyValue → ℕ → Unions → Bool → M ConstantInstance
  unfolding explore_constant
  class_to_constant_instance f klass count us singleton = do
    (name, _) ← explore_constant vm f klass
    pure (constant_instance name count us singleton)

  unfoldable pub array_loop : Describe → List RubyValue → Union → M Union
  unfolding add_member
  array_loop describe [] u = pure u
  array_loop describe (item ∷ items) u = do
    i ← describe item
    array_loop describe items (add_member (rb_obj_class item) i u)

  unfoldable pub hash_loop :
      Describe → List (RubyValue × RubyValue) → Union → Union → M (Union × Union)
  unfolding add_member
  hash_loop describe [] keys values = pure (keys, values)
  hash_loop describe ((key, value) ∷ pairs) keys values = do
    k ← describe key
    v ← describe value
    hash_loop describe pairs (add_member (rb_obj_class key) k keys)
        (add_member (rb_obj_class value) v values)

  unfoldable pub array_arguments : Describe → List RubyValue → M (ℕ × Unions)
  unfolding array_loop
  array_arguments describe [] = pure (0, no_unions)
  array_arguments describe (item ∷ items) = do
    u ← array_loop describe (item ∷ items) no_members
    pure (1, union (to_instances u.members) no_unions)

  unfoldable pub hash_arguments : Describe → List (RubyValue × RubyValue) → M (ℕ × Unions)
  unfolding hash_loop
  hash_arguments describe [] = pure (0, no_unions)
  hash_arguments describe (pair ∷ pairs) = do
    (keys, values) ← hash_loop describe (pair ∷ pairs) no_members no_members
    pure (2, union (to_instances keys.members) (union (to_instances values.members) no_unions))

  unfoldable pub generic_arguments_by_value :
      Describe → RubyValue → RubyValue → ℕ → ℕ → M (ℕ × Unions)
  unfolding array_arguments hash_arguments
  generic_arguments_by_value describe value klass depth limit =
      if depth == limit
      then pure (0, no_unions)
      else if klass == rb_c_array
      then array_arguments describe (array_items value)
      else if klass == rb_c_hash
      then hash_arguments describe (hash_pairs value)
      else pure (0, no_unions)

  -- `f` is the fuel of explorations, `levels` that of the nesting of values.
  unfoldable pub value_to_constant_instance : ℕ → ℕ → RubyValue → ℕ → M ConstantInstance
  unfolding class_to_constant_instance generic_arguments_by_value
  value_to_constant_instance f zero value depth s = none
  value_to_constant_instance f (suc levels) value depth s =
      (if (rb_obj_class value == rb_c_class) || (rb_obj_class value == rb_c_module)
          then class_to_constant_instance f value 0 no_unions true
          else do
            (count, us) ←
                generic_arguments_by_value
                  (λ item. value_to_constant_instance f levels item (depth + 1)) value
                  (rb_obj_class value) depth s.max_generic_depth
            class_to_constant_instance f (rb_obj_class value) count us false)
        s
