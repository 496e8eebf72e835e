-- ===== src/Racer/Constants.antt =====
-- ext/racer/racer.cc, class_type_by_constant to explore_constant: classes and modules are described
-- once each, with those that they inherit from, include, prepend and extend.
use Prim.Native.Char.{Char, code}
use Prim.Native.String
use racer_rb.Base.{
  ℕ, zero, suc, String, Bool, true, false, ◌&&◌, ◌||◌, Option, none, some, List, [], ◌∷◌, ◌++◌,
  ◌==◌, if◌then◌else◌, lookup, insert, has,
}
use racer_rb.Traces.{ClassType, module_type, class_type, CString, Constant}
use racer_rb.Racer.State.{RubyValue, t_class, t_module, Vm, M, pure, fail, ◌>>=◌, ◌>>◌, modify}

-- The parts of a name that `::` separates, found by strstr from the left.
abbrev cons_char : Char → List String → List String
cons_char c [] = String.◌∷◌ c String.[] ∷ []
cons_char c (part ∷ parts) = String.◌∷◌ c part ∷ parts

unfoldable pub segments : String → List String
segments String.[] = String.[] ∷ []
segments (String.◌∷◌ c String.[]) = String.◌∷◌ c String.[] ∷ []
segments (String.◌∷◌ c (String.◌∷◌ d name)) =
    if (code c == b':') && (code d == b':')
    then String.[] ∷ segments name
    else cons_char c (segments (String.◌∷◌ d name))

-- What the loops over the ancestors have found so far; `visited` is what goes to the caller's set.
pub record Found : Type 0 where
  pub superclass : Option CString
  pub included_modules : List CString
  pub prepended_modules : List CString
  pub extended_modules : List CString
  pub inner_constants : List RubyValue
  pub visited : List RubyValue

abbrev pub nothing_found : Found
nothing_found = record {
  superclass = none;
  included_modules = [];
  prepended_modules = [];
  extended_modules = [];
  inner_constants = [];
  visited = [];
}

-- An exploration gives the constant's name, and what it puts into the caller's set of visited
-- constants.
abbrev pub Explore : Type 0
Explore = RubyValue → M (CString × List RubyValue)

abbrev pub put_constant : RubyValue → Constant → M (Unit {0})
put_constant c constant = modify λ s. record s { constant_map = insert c constant s.constant_map }

abbrev pub or_unresolved : Option RubyValue → (RubyValue → M Bool) → M Bool
or_unresolved none go_on = pure false
or_unresolved (some v) go_on = go_on v

abbrev pub push_module : Bool → CString → Found → Found
push_module true name found = record found {
  prepended_modules = found.prepended_modules ++ name ∷ [];
}
push_module false name found = record found {
  included_modules = found.included_modules ++ name ∷ [];
}

abbrev pub push_extended : CString → Found → Found
push_extended name found = record found { extended_modules = found.extended_modules ++ name ∷ [] }

-- A constant that is known is not explored again, and adds nothing to the caller's set.
unfoldable pub known_or :
    Option Constant → M (CString × List RubyValue) → M (CString × List RubyValue)
known_or (some constant) explore = pure (constant.name, [])
known_or none explore = explore

module _ (vm : Vm) where
  open vm use {
    rb_c_object, rb_m_kernel, rb_c_module, rb_type, rb_mod_name, rb_class_superclasses,
    rb_class_path_cached, rb_mod_ancestors, rb_singleton_class, rb_const_get_at, rb_fix2str,
  }

  abbrev pub is_class : RubyValue → Bool
  is_class c = elim (rb_type c) [ t_class ↦ true | _ ↦ false ]

  abbrev pub is_module : RubyValue → Bool
  is_module c = elim (rb_type c) [ t_module ↦ true | _ ↦ false ]

  -- An object that is neither is taken for a module, with a warning.
  unfoldable pub class_type_by_constant : RubyValue → ClassType
  class_type_by_constant c = if is_class c then class_type else module_type

  -- The nearest superclass with a name; there is no name to add to where the chain ends before.
  unfoldable pub named_superclass : List RubyValue → Option String
  named_superclass [] = none
  named_superclass (klass ∷ later) = elim (rb_class_path_cached klass) [
    | none ↦ named_superclass later
    | some name ↦ some name
  ]

  unfoldable pub anonymous_name : RubyValue → Option String
  unfolding named_superclass
  anonymous_name c =
      if is_class c
      then elim (named_superclass (rb_class_superclasses c)) [
        | none ↦ none
        | some name ↦ some (String.◌++◌ name (rb_fix2str c))
      ]
      else some (String.◌++◌ "Module" (rb_fix2str c))

  -- explore_constant_namespace below rb_rescue2: false where a part of the name does not resolve.
  unfoldable pub explore_constant_namespace : Explore → List String → RubyValue → M Bool
  explore_constant_namespace explore [] space = pure true
  explore_constant_namespace explore (name ∷ []) space = pure true
  explore_constant_namespace explore (part ∷ next ∷ parts) space =
      or_unresolved (rb_const_get_at space part)
        λ v. explore v >>= λ _. explore_constant_namespace explore (next ∷ parts) v

  -- A module among the ancestors, unless a module found before it brought it along.
  unfoldable pub explore_ancestor :
      Explore → (CString → Found → Found) → RubyValue → Found → M Found
  explore_ancestor explore push a found = if has a found.inner_constants then pure found else do
    (name, visited) ← explore a
    pure (
        push name (record found {
          inner_constants = found.inner_constants ++ visited;
          visited = found.visited ++ a ∷ [];
        }))

  -- `self` is the constant and `stop` the ancestor to stop at.
  unfoldable pub ancestor_loop :
      Explore → (self stop : RubyValue) (class : Bool) → Bool → List RubyValue → Found → M Found
  unfolding explore_ancestor
  ancestor_loop explore self stop class prepended [] found = pure found
  ancestor_loop explore self stop class prepended (a ∷ later) found =
      if a == self
      then ancestor_loop explore self stop class false later found
      else if a == stop
      then pure found
      else if class && is_class a
      then (if prepended
          then ancestor_loop explore self stop class prepended later found
          else do (name, _) ← explore a; pure (record found { superclass = some name }))
      else do
        found' ← explore_ancestor explore (push_module prepended) a found
        ancestor_loop explore self stop class prepended later found'

  unfoldable pub singleton_loop :
      Explore → (singleton : RubyValue) → List RubyValue → Found → M Found
  unfolding explore_ancestor
  singleton_loop explore singleton [] found = pure found
  singleton_loop explore singleton (a ∷ later) found =
      if a == singleton
      then singleton_loop explore singleton later found
      else if (a == rb_singleton_class rb_c_object) || (a == rb_c_module)
      then pure found
      else if is_module a
      then (do
        found' ← explore_ancestor explore push_extended a found
        singleton_loop explore singleton later found')
      else singleton_loop explore singleton later found

  abbrev pub stop_object : RubyValue → RubyValue
  stop_object c = if c == rb_c_object then rb_m_kernel else rb_c_object

  abbrev pub unexplored : RubyValue → CString → Bool → Constant
  unexplored c name anonymous = record {
    name = name;
    anonymous = anonymous;
    type = class_type_by_constant c;
    superclass = none;
    included_modules = [];
    prepended_modules = [];
    extended_modules = [];
  }

  -- The name under which a constant goes whose namespace does not resolve.
  abbrev pub fallback_name : RubyValue → String
  fallback_name c = String.◌++◌ (if is_class c then "Class" else "Module") (rb_fix2str c)

  unfoldable pub name_anonymous : RubyValue → Option String → M (String × Bool)
  name_anonymous c none = fail
  name_anonymous c (some name) = put_constant c (unexplored c (some name) true) >> pure (name, true)

  abbrev pub name_resolved : RubyValue → String → Bool → M (String × Bool)
  name_resolved c name true = pure (name, false)
  name_resolved c name false =
      put_constant c (unexplored c (some (fallback_name c)) true) >> pure (fallback_name c, true)

  -- The constant is in the map, under its first name, while its namespace is explored.
  unfoldable pub explore_name : Explore → RubyValue → Option String → M (String × Bool)
  unfolding anonymous_name segments explore_constant_namespace name_anonymous
  explore_name explore c none = name_anonymous c (anonymous_name c)
  explore_name explore c (some name) = do
    put_constant c (unexplored c (some name) false)
    resolved ← explore_constant_namespace explore (segments name) rb_c_object
    name_resolved c name resolved

  abbrev pub explored : RubyValue → String × Bool → Found → Constant
  explored c (name, anonymous) found = record {
    name = some name;
    anonymous = anonymous;
    type = class_type_by_constant c;
    superclass = found.superclass;
    included_modules = found.included_modules;
    prepended_modules = found.prepended_modules;
    extended_modules = found.extended_modules;
  }

  -- The finished constant, which is put in line to be sent.
  unfoldable pub publish : RubyValue → String × Bool → Found → M (CString × List RubyValue)
  publish c (name, anonymous) found = do
    put_constant c (explored c (name, anonymous) found)
    modify (λ s. record s { constant_updates = s.constant_updates ++ c ∷ [] })
    pure (some name, found.visited ++ found.inner_constants)

  -- While the loops run, others read no more of the constant than its name.
  unfoldable pub explore_new : Explore → RubyValue → M (CString × List RubyValue)
  unfolding explore_name ancestor_loop singleton_loop publish
  explore_new explore c = do
    (name, anonymous) ← explore_name explore c (rb_mod_name c)
    found ←
        ancestor_loop explore c (stop_object c) (is_class c) true (rb_mod_ancestors c) nothing_found
    found' ←
        singleton_loop explore (rb_singleton_class c) (rb_mod_ancestors (rb_singleton_class c))
          found
    publish c (name, anonymous) found'

  -- One unit of fuel for each level of exploration.
  unfoldable pub explore_constant : ℕ → Explore
  unfolding known_or explore_new
  explore_constant zero c s = none
  explore_constant (suc f) c s =
      known_or (lookup c s.constant_map) (explore_new (explore_constant f) c) s
