-- ===== src/Racer/Closed.antt =====
-- ext/racer/racer.cc, explore_constant: the finitely many classes and modules that it can come to, and
-- those of them that are not yet explored.
use mathlib.Core.Path.{subst}
use racer_rb.Base.{
  ℕ, ◌+◌, ◌≤◌, ◌<◌, String, ◌≡◌, Bool, true, ◌||◌, Option, none, some, List, [], ◌∷◌, ◌==◌,
  if◌then◌else◌, All, is_some, lookup, insert, lookup-insert, has, arith, Bool-cases, inl, inr,
}
use racer_rb.Traces.{Constant}
use racer_rb.Racer.State.{RubyValue, Vm}
use racer_rb.Racer.Constants.{segments, anonymous_name, is_module}

-- How many of the classes are not in the map.
unfoldable pub missing : List RubyValue → List (RubyValue × Constant) → ℕ
missing [] m = 0
missing (c ∷ cs) m = (if is_some (lookup c m) then 0 else 1) + missing cs m

pub missing-insert_le :
    (cs : List RubyValue) (c : RubyValue) (k : Constant) (m : List (RubyValue × Constant))
    → missing cs (insert c k m) ≤ missing cs m
unfolding missing
missing-insert_le [] c k m = omega arith
missing-insert_le (j ∷ cs) c k m =
    rw (lookup-insert c j k m) (ground (arith, missing-insert_le cs c k m))

pub missing-insert_lt :
    (cs : List RubyValue) (c : RubyValue) (k : Constant) (m : List (RubyValue × Constant))
    → has c cs ≡ true
    → lookup c m ≡ none
    → missing cs (insert c k m) < missing cs m
unfolding missing has
missing-insert_lt [] c k m member new = absurd (cc)
missing-insert_lt (j ∷ cs) c k m member new =
    rw (lookup-insert c j k m) (elim (Bool-cases (c == j)) [
      | inl same ↦
          let none_here : lookup j m ≡ none = subst (λ x. lookup x m ≡ none) (ground arith) new in
          rw (same, none_here) (omega (arith, missing-insert_le cs c k m))
      | inr other ↦
          let later : has c cs ≡ true = ground (arith, member, other) in
          rw other (omega (arith, missing-insert_lt cs c k m later new))
    ])

abbrev pub IsMember : List RubyValue → RubyValue → Type 0
IsMember classes c = has c classes ≡ true

module _ (vm : Vm) where
  open vm use {rb_c_object, rb_mod_name, rb_mod_ancestors, rb_singleton_class, rb_const_get_at}

  -- The objects that the parts of a name resolve to.
  unfoldable pub spaces : List String → RubyValue → List RubyValue
  spaces [] space = []
  spaces (name ∷ []) space = []
  spaces (part ∷ next ∷ parts) space = elim (rb_const_get_at space part) [
    | none ↦ []
    | some v ↦ v ∷ spaces (next ∷ parts) v
  ]

  abbrev pub name_spaces : Option String → List RubyValue
  name_spaces none = []
  name_spaces (some name) = spaces (segments name) rb_c_object

  -- The object has a name, or one can be made for it.
  abbrev pub can_be_named : RubyValue → Option String → Bool
  can_be_named c none = is_some (anonymous_name vm c)
  can_be_named c (some name) = true

  module _ (classes : List RubyValue) where
    -- What the exploration of one class comes to is among the classes, and the class gets a name.
    pub record IsClosedAt (c : RubyValue) : Type 0 where
      pub namespace : All (IsMember classes) (name_spaces (rb_mod_name c))
      pub ancestors : All (IsMember classes) (rb_mod_ancestors c)
      pub extended :
          All
            (λ a. is_module vm a ≡ true → IsMember classes a)
            (rb_mod_ancestors (rb_singleton_class c))
      pub named : can_be_named c (rb_mod_name c) ≡ true

    abbrev pub IsClosed : Type 0
    IsClosed = All IsClosedAt classes

-- The class that a value's type names: its own class, or itself where it is a class or a module.
abbrev pub is_singleton_type : Vm → RubyValue → Bool
is_singleton_type vm v =
    (Vm.rb_obj_class vm v == Vm.rb_c_class vm) || (Vm.rb_obj_class vm v == Vm.rb_c_module vm)

abbrev pub type_class : Vm → RubyValue → RubyValue
type_class vm v = if is_singleton_type vm v then v else Vm.rb_obj_class vm v

-- Some objects, whose classes are among `classes`, with the items of the arrays and the keys and values
-- of the hashes among them.
pub record AreObjects (vm : Vm) (classes : List RubyValue) (IsObject : RubyValue → Type 0)
    : Type 0 where
  pub type_class : (v : RubyValue) → IsObject v → IsMember classes (type_class vm v)
  pub items : (v : RubyValue) → IsObject v → All IsObject (Vm.array_items vm v)
  pub pairs :
      (v : RubyValue)
      → IsObject v
      → All
          (λ (pair : RubyValue × RubyValue). IsObject pair.0 × IsObject pair.1)
          (Vm.hash_pairs vm v)

pub All-at :
    (P : RubyValue → Type 0) (cs : List RubyValue) (c : RubyValue)
    → All P cs
    → has c cs ≡ true
    → P c
unfolding has
All-at P [] c all member = absurd (cc)
All-at P (j ∷ cs) c (p, all) member = elim (Bool-cases (j == c)) [
  | inl same ↦ subst P (ground arith) p
  | inr other ↦ All-at P cs c all (rw other at member)
]
