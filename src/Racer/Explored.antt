-- ===== src/Racer/Explored.antt =====
-- ext/racer/racer.cc, explore_constant: each part of an exploration, from the namespace to the
-- publication of the constant.
use racer_rb.Base.{
  ℕ, zero, suc, String, ◌≡◌, refl, Bool, true, false, ◌&&◌, ◌||◌, Option, none, some, List, [], ◌∷◌,
  ◌==◌, if◌then◌else◌, All, is_some, lookup, has, arith,
}
use racer_rb.Traces.{CString, Constant}
use racer_rb.Protocol.Views.{HasName, IsNamedConstant}
use racer_rb.Racer.State.{RubyValue, Vm, State, M, pure, ◌>>=◌}
use racer_rb.Racer.Constants.{
  Found, nothing_found, Explore, segments, anonymous_name, explore_constant_namespace,
  explore_ancestor, ancestor_loop, singleton_loop, explore_name, explore_new, publish, known_or,
  explore_constant, name_anonymous, push_module, push_extended, unexplored, explored, is_class,
  is_module, anonymous_name, name_resolved,
}
use racer_rb.Racer.Closed.{
  IsMember, IsClosed, IsClosedAt, All-at, spaces, name_spaces, can_be_named,
}
use racer_rb.Racer.Known.{
  Ready, Kept, Named, IsSound, Kept-refl, Kept-trans, Kept-suc, Kept-bind, put_constant-Kept,
  put_new-Kept, push_update-Kept,
}
use racer_rb.Racer.Ensures.{Ensures, holds, Ensures-bind, Ensures-mono, Ensures-if}
use racer_rb.Racer.Found.{
  IsNamedFound, or_unresolved-Ensures, push_module-Named, push_extended-Named, superclass-Named,
}

module _ (vm : Vm) (classes : List RubyValue) (f : ℕ) {explore : Explore}
    (sound : IsSound classes f explore) where
  namespace-Kept :
      (parts : List String) (space : RubyValue) (s : State)
      → All (IsMember classes) (spaces vm parts space)
      → Ready classes f s
      → Ensures (λ _. Kept classes f s) (explore_constant_namespace vm explore parts space s)
  unfolding explore_constant_namespace spaces
  namespace-Kept [] space s members ready = holds (Kept-refl ready)
  namespace-Kept (part ∷ []) space s members ready = holds (Kept-refl ready)
  namespace-Kept (part ∷ next ∷ parts) space s members ready =
      or_unresolved-Ensures (Vm.rb_const_get_at vm space part) _ s (Kept-refl ready) λ v e.
        let (member, later) = rw (All, e) at members in
        Ensures-bind _ (sound v s member ready) λ r t n.
          Ensures-mono (namespace-Kept (next ∷ parts) v t later n.kept.ready)
            λ b u kept. Kept-trans n.kept kept

  ancestor-Kept :
      (push : CString → Found → Found) (a : RubyValue) (found : Found) (s : State)
      → IsMember classes a
      → Ready classes f s
      → IsNamedFound found
      → ((name : CString) (g : Found) → HasName name → IsNamedFound g → IsNamedFound (push name g))
      → Ensures
          (λ g t. Kept classes f s t × IsNamedFound g)
          (explore_ancestor vm explore push a found s)
  unfolding explore_ancestor
  ancestor-Kept push a found s member ready named pushed =
      Ensures-if (has a found.inner_constants) _ _ s (λ old. holds (Kept-refl ready, named))
        λ new. Ensures-bind _ (sound a s member ready) λ r t n. holds (
          n.kept,
          pushed _ _ n.named (record {
            superclass = named.superclass;
            included_modules = named.included_modules;
            prepended_modules = named.prepended_modules;
            extended_modules = named.extended_modules;
          }),
        )

  ancestor_loop-Kept :
      (self stop : RubyValue) (class prepended : Bool) (ancestors : List RubyValue) (found : Found)
      (s : State)
      → All (IsMember classes) ancestors
      → Ready classes f s
      → IsNamedFound found
      → Ensures
          (λ g t. Kept classes f s t × IsNamedFound g)
          (ancestor_loop vm explore self stop class prepended ancestors found s)
  unfolding ancestor_loop
  ancestor_loop-Kept self stop class prepended [] found s members ready named =
      holds (Kept-refl ready, named)
  ancestor_loop-Kept self stop class prepended (a ∷ later) found s (member, members) ready named =
      let go =
        λ (b : Bool). ancestor_loop-Kept self stop class b later found s members ready named in
      let skip = ancestor_loop vm explore self stop class prepended later found in
      let superclass : M Found = explore a >>= λ r. pure (record found { superclass = some r.0 }) in
      Ensures-if (a == self) _ _ s (λ _. go false)
        λ _.
          Ensures-if (a == stop) _ _ s (λ _. holds (Kept-refl ready, named))
            λ _.
              Ensures-if (class && is_class vm a) (if prepended then skip else superclass)
                (explore_ancestor vm explore (push_module prepended) a found
                  >>= ancestor_loop vm explore self stop class prepended later)
                s
                (λ _.
                  Ensures-if prepended skip superclass s (λ _. go prepended)
                    λ _.
                      Ensures-bind _ (sound a s member ready)
                        λ r t n. holds (n.kept, superclass-Named r.0 found n.named named))
                (λ _.
                  Kept-bind _
                    (ancestor-Kept _ a found s member ready named (push_module-Named prepended))
                    λ g t ready' named'.
                      ancestor_loop-Kept self stop class prepended later g t members ready' named')

  singleton_loop-Kept :
      (singleton : RubyValue) (ancestors : List RubyValue) (found : Found) (s : State)
      → All (λ a. is_module vm a ≡ true → IsMember classes a) ancestors
      → Ready classes f s
      → IsNamedFound found
      → Ensures
          (λ g t. Kept classes f s t × IsNamedFound g)
          (singleton_loop vm explore singleton ancestors found s)
  unfolding singleton_loop
  singleton_loop-Kept singleton [] found s members ready named = holds (Kept-refl ready, named)
  singleton_loop-Kept singleton (a ∷ later) found s (member, members) ready named =
      let go = singleton_loop-Kept singleton later found s members ready named in
      let skip = singleton_loop vm explore singleton later found in
      let extend : M Found =
        explore_ancestor vm explore push_extended a found
        >>= singleton_loop vm explore singleton later in
      Ensures-if (a == singleton) _ _ s (λ _. go)
        λ _.
          Ensures-if
            ((a == Vm.rb_singleton_class vm (Vm.rb_c_object vm)) || (a == Vm.rb_c_module vm))
            (pure found) (if is_module vm a then extend else skip) s
            (λ _. holds (Kept-refl ready, named))
            λ _.
              Ensures-if (is_module vm a) extend skip s
                (λ is.
                  Kept-bind _
                    (ancestor-Kept _ a found s (member is) ready named push_extended-Named)
                    λ g t ready' named'.
                      singleton_loop-Kept singleton later g t members ready' named')
                (λ _. go)

  unexplored-Named :
      (c : RubyValue) (name : String) (anonymous : Bool)
      → IsNamedConstant (unexplored vm c (some name) anonymous)
  unexplored-Named c name anonymous = record {
    name = tt;
    superclass = tt;
    included_modules = tt;
    prepended_modules = tt;
    extended_modules = tt;
  }

  explored-Named :
      (c : RubyValue) (n : String × Bool) (found : Found)
      → IsNamedFound found
      → IsNamedConstant (explored vm c n found)
  explored-Named c n found named = record {
    name = tt;
    superclass = named.superclass;
    included_modules = named.included_modules;
    prepended_modules = named.prepended_modules;
    extended_modules = named.extended_modules;
  }

  name_anonymous-Kept :
      (c : RubyValue) (o : Option String) (s : State)
      → IsMember classes c
      → lookup c s.constant_map ≡ none
      → is_some o ≡ true
      → Ready classes (suc f) s
      → Ensures (λ _ t. Kept classes f s t) (name_anonymous vm c o s)
  unfolding name_anonymous
  name_anonymous-Kept c none s member new has_name ready = absurd (cc)
  name_anonymous-Kept c (some name) s member new has_name ready =
      holds (put_new-Kept c _ s member new ready (unexplored-Named c name true))

  name_resolved-Kept :
      (c : RubyValue) (name : String) (b : Bool) (s : State)
      → Ready classes f s
      → Ensures (λ _ t. Kept classes f s t) (name_resolved vm c name b s)
  name_resolved-Kept c name true s ready = holds (Kept-refl ready)
  name_resolved-Kept c name false s ready =
      holds (put_constant-Kept c _ s ready (unexplored-Named c _ true))

  -- The constant is in the map before another is explored, which saves a unit of fuel.
  explore_name-Kept :
      (c : RubyValue) (o : Option String) (s : State)
      → IsMember classes c
      → lookup c s.constant_map ≡ none
      → All (IsMember classes) (name_spaces vm o)
      → can_be_named vm c o ≡ true
      → Ready classes (suc f) s
      → Ensures (λ _ t. Kept classes f s t) (explore_name vm explore c o s)
  unfolding explore_name
  explore_name-Kept c none s member new members can ready =
      name_anonymous-Kept c (anonymous_name vm c) s member new can ready
  explore_name-Kept c (some name) s member new members can ready =
      let put = put_new-Kept c _ s member new ready (unexplored-Named c name false) in
      Ensures-bind _ (namespace-Kept (segments name) (Vm.rb_c_object vm) _ members put.ready)
        λ b t kept.
          Ensures-mono (name_resolved-Kept c name b t kept.ready)
            λ n u later. Kept-trans put (Kept-trans kept later)

  publish-Named :
      (c : RubyValue) (n : String × Bool) (g : Found) (s : State)
      → Ready classes f s
      → IsNamedFound g
      → Ensures (Named classes f s) (publish vm c n g s)
  unfolding publish
  publish-Named c n g s ready named =
      holds
        (record { kept = push_update-Kept c _ s ready (explored-Named c n g named); named = tt })

  explore_new-Named :
      (c : RubyValue) (s : State)
      → IsMember classes c
      → IsClosedAt vm classes c
      → lookup c s.constant_map ≡ none
      → Ready classes (suc f) s
      → Ensures (Named classes f s) (explore_new vm explore c s)
  unfolding explore_new
  explore_new-Named c s member closed new ready =
      let singleton = Vm.rb_singleton_class vm c in
      let naming =
        explore_name-Kept c (Vm.rb_mod_name vm c) s member new closed.namespace closed.named
          ready in
      Ensures-bind _ naming λ n t kept.
        Ensures-bind _
          (ancestor_loop-Kept c _ _ true (Vm.rb_mod_ancestors vm c) nothing_found t closed.ancestors
            kept.ready
            (record {
              superclass = tt;
              included_modules = tt;
              prepended_modules = tt;
              extended_modules = tt;
            }))
          λ g u (kept', named).
            Ensures-bind (publish vm c n)
              (singleton_loop-Kept singleton (Vm.rb_mod_ancestors vm singleton) g u closed.extended
                kept'.ready named)
              λ g' v (kept'', named').
                Ensures-mono (publish-Named c n g' v kept''.ready named') λ r w done. record {
                  kept = Kept-trans kept (Kept-trans kept' (Kept-trans kept'' done.kept));
                  named = done.named;
                }

known_or-Named :
    (classes : List RubyValue) (f : ℕ) (o : Option Constant) (m : M (CString × List RubyValue))
    (s : State)
    → Ready classes f s
    → ((k : Constant) → o ≡ some k → IsNamedConstant k)
    → (o ≡ none → Ensures (Named classes f s) (m s))
    → Ensures (Named classes f s) (known_or o m s)
unfolding known_or
known_or-Named classes f none m s ready named new = new refl
known_or-Named classes f (some k) m s ready named new =
    holds (record { kept = Kept-refl ready; named = (named k refl).name })

-- Let `classes` be closed under what explorations come to, its members with names or names that can be
-- made; let the constants be in order, and fewer than `f` of the classes be unexplored. Then exploring
-- one of the classes with the fuel `f` ends, without undefined behaviour, with a name that is set; the
-- constants are in order again, that is, those in the map have their names set, and those to be sent
-- are in the map; fewer than `f` of the classes are unexplored; and nothing but the constants changes.
pub explore_constant-IsSound :
    (vm : Vm) (classes : List RubyValue) (f : ℕ) (c : RubyValue) (s : State)
    → IsClosed vm classes
    → IsMember classes c
    → Ready classes f s
    → Ensures (Named classes f s) (explore_constant vm f c s)
unfolding explore_constant
explore_constant-IsSound vm classes zero c s closed member ready =
    absurd (omega (arith, ready.fits))
explore_constant-IsSound vm classes (suc f) c s closed member ready =
    known_or-Named classes (suc f) (lookup c s.constant_map) _ s ready (ready.known.named c) λ new.
      Ensures-mono
        (explore_new-Named vm classes f
          (λ d t inside below. explore_constant-IsSound vm classes f d t closed inside below) c s
          member (All-at (IsClosedAt vm classes) classes c closed member) new ready)
        λ r t n. record { kept = Kept-suc n.kept; named = n.named }
