-- ===== src/Tests/Machine.antt =====
-- Objects of a small Ruby program, what the Ruby VM answers about them, and what it takes to explore
-- them.
use text.Mathlib.Text.{◌==◌ as str_eq}
use racer_rb.Base.{
  ◌+◌, ◌≡◌, refl, true, false, none, some, List, [], ◌∷◌, ◌==◌, ◌||◌, if◌then◌else◌, arith, lookup,
  has, All, is_some, Option, String,
}
use racer_rb.Racer.State.{RubyValue, Vm, t_class, t_module, t_other, initial}
use racer_rb.Racer.Known.{Ready}
use racer_rb.Racer.Closed.{
  missing, spaces, name_spaces, can_be_named, IsMember, IsClosed, IsClosedAt, AreObjects,
  type_class, All-at,
}
use racer_rb.Racer.Constants.{segments, is_module}

-- Objects by number: 1 Object, 4 Class, 5 Array, 6 Hash, 7 String, 12 and 13 modules of which 12 includes 13,
-- 14 and 15 classes that include 12, 20 an array of the strings 21 and 22, 23 an array of that array.
-- Singleton classes are 100 above.
abbrev pub vm : Vm
vm = record {
  rb_c_object = 1;
  rb_m_kernel = 2;
  rb_c_module = 3;
  rb_c_class = 4;
  rb_c_array = 5;
  rb_c_hash = 6;
  rb_type = λ v.
      if (v == 12) || (v == 13)
      then t_module
      else if (v == 20) || (v == 21) || (v == 22) || (v == 23)
      then t_other
      else t_class;
  rb_obj_class = λ v. if (v == 20) || (v == 23) then 5 else if (v == 21) || (v == 22) then 7 else 4;
  rb_mod_name = λ v. some (
      if v == 12
      then "M"
      else if v == 13
      then "N"
      else if v == 14
      then "A"
      else if v == 15
      then "B"
      else if v == 5
      then "Array"
      else if v == 6
      then "Hash"
      else "String");
  rb_class_superclasses = λ _. [];
  rb_class_path_cached = λ _. none;
  rb_mod_ancestors = λ v.
      if v == 12
      then 12 ∷ 13 ∷ []
      else if (v == 14) || (v == 15)
      then v ∷ 12 ∷ 13 ∷ 1 ∷ []
      else v ∷ 1 ∷ [];
  rb_singleton_class = λ v. v + 100;
  rb_class_attached_object = λ v. v;
  is_singleton = λ _. false;
  rb_const_get_at = λ _ _. none;
  rb_fix2str = λ _. "";
  array_items = λ v. if v == 20 then 21 ∷ 22 ∷ [] else if v == 23 then 20 ∷ [] else [];
  hash_pairs = λ _. [];
  can_target = λ _. true;
  public_method_defined = λ _ _. true;
  private_method_defined = λ _ _. false;
  method_defined = λ _ _. true;
  is_regexp = λ v. (v == 30) || (v == 31);
  regexp_matches = λ matcher path. str_eq path (if matcher == 31 then "lib.rb" else "app.rb");
  rb_str_hash = λ _. 0;
  rb_equal = λ a b. elim a [
    | none ↦ elim b [ none ↦ true | some _ ↦ false ]
    | some v ↦ elim b [ none ↦ false | some w ↦ v == w ]
  ];
}

-- The classes that the explorations below come to, and the objects that the array 23 holds.
abbrev pub classes : List RubyValue
classes = 1 ∷ 5 ∷ 6 ∷ 7 ∷ 12 ∷ 13 ∷ 14 ∷ []

abbrev pub objects : List RubyValue
objects = 20 ∷ 21 ∷ 22 ∷ 23 ∷ []

-- A class without a namespace that its singleton class adds no module to.
plain_class :
    (c : RubyValue)
    → All (IsMember classes) (name_spaces vm (Vm.rb_mod_name vm c))
    → All (IsMember classes) (Vm.rb_mod_ancestors vm c)
    → All
        (λ a. is_module vm a ≡ true → IsMember classes a)
        (Vm.rb_mod_ancestors vm (Vm.rb_singleton_class vm c))
    → is_some (Vm.rb_mod_name vm c) ≡ true
    → IsClosedAt vm classes c
plain_class c namespace ancestors extended named = record {
  namespace = namespace;
  ancestors = ancestors;
  extended = extended;
  named = named_at (Vm.rb_mod_name vm c) named;
}
  where
    named_at : (o : Option String) → is_some o ≡ true → can_be_named vm c o ≡ true
    named_at none e = absurd (cc)
    named_at (some name) e = refl

pub classes-IsClosed : IsClosed vm classes
unfolding has spaces segments
classes-IsClosed = (
  plain_class 1 tt (refl, (refl, tt)) ((λ e. cc), ((λ e. cc), tt)) refl,
  (
    plain_class 5 tt (refl, (refl, tt)) ((λ e. cc), ((λ e. cc), tt)) refl,
    (
      plain_class 6 tt (refl, (refl, tt)) ((λ e. cc), ((λ e. cc), tt)) refl,
      (
        plain_class 7 tt (refl, (refl, tt)) ((λ e. cc), ((λ e. cc), tt)) refl,
        (
          plain_class 12 tt (refl, (refl, tt)) ((λ e. cc), ((λ e. cc), tt)) refl,
          (
            plain_class 13 tt (refl, (refl, tt)) ((λ e. cc), ((λ e. cc), tt)) refl,
            (
              plain_class 14 tt (refl, (refl, (refl, (refl, tt)))) ((λ e. cc), ((λ e. cc), tt))
                  refl,
              tt,
            ),
          ),
        ),
      ),
    ),
  ),
)

pub objects-AreObjects : AreObjects vm classes (λ v. has v objects ≡ true)
unfolding has
objects-AreObjects = record {
  type_class = λ v.
      All-at (λ u. IsMember classes (type_class vm u)) objects v (refl, (refl, (refl, (refl, tt))));
  items = λ v.
      All-at (λ u. All (λ i. has i objects ≡ true) (Vm.array_items vm u)) objects v
        ((refl, (refl, tt)), (tt, (tt, ((refl, tt), tt))));
  pairs = λ v object. tt;
}

pub initial-Ready : Ready classes 8 initial
unfolding lookup missing
initial-Ready = record { known = record { named = λ c k e. cc; pending = tt }; fits = omega arith }
