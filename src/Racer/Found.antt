-- ===== src/Racer/Found.antt =====
-- ext/racer/racer.cc, explore_constant: what the loops over the ancestors have found so far.
use racer_rb.Base.{◌≡◌, refl, Bool, true, false, Option, none, some, All}
use racer_rb.Traces.{CString}
use racer_rb.Protocol.Views.{HasName, HasSuperclassName}
use racer_rb.Racer.State.{RubyValue, State, M}
use racer_rb.Racer.Constants.{Found, or_unresolved, push_module, push_extended}
use racer_rb.Racer.Known.{All-append_one}
use racer_rb.Racer.Ensures.{Ensures, holds}

pub record IsNamedFound (found : Found) : Type 0 where
  pub superclass : HasSuperclassName found.superclass
  pub included_modules : All HasName found.included_modules
  pub prepended_modules : All HasName found.prepended_modules
  pub extended_modules : All HasName found.extended_modules

pub or_unresolved-Ensures :
    {P : Bool → State → Type 0} (o : Option RubyValue) (go_on : RubyValue → M Bool) (s : State)
    → P false s
    → ((v : RubyValue) → o ≡ some v → Ensures P (go_on v s))
    → Ensures P (or_unresolved o go_on s)
or_unresolved-Ensures none go_on s stays goes = holds stays
or_unresolved-Ensures (some v) go_on s stays goes = goes v refl

pub push_module-Named :
    (prepended : Bool) (name : CString) (g : Found)
    → HasName name
    → IsNamedFound g
    → IsNamedFound (push_module prepended name g)
push_module-Named true name g h named = record {
  superclass = named.superclass;
  included_modules = named.included_modules;
  prepended_modules = All-append_one HasName g.prepended_modules named.prepended_modules h;
  extended_modules = named.extended_modules;
}
push_module-Named false name g h named = record {
  superclass = named.superclass;
  included_modules = All-append_one HasName g.included_modules named.included_modules h;
  prepended_modules = named.prepended_modules;
  extended_modules = named.extended_modules;
}

pub push_extended-Named :
    (name : CString) (g : Found)
    → HasName name
    → IsNamedFound g
    → IsNamedFound (push_extended name g)
push_extended-Named name g h named = record {
  superclass = named.superclass;
  included_modules = named.included_modules;
  prepended_modules = named.prepended_modules;
  extended_modules = All-append_one HasName g.extended_modules named.extended_modules h;
}

pub superclass-Named :
    (name : CString) (g : Found)
    → HasName name
    → IsNamedFound g
    → IsNamedFound (record g { superclass = some name })
superclass-Named name g h named = record {
  superclass = h;
  included_modules = named.included_modules;
  prepended_modules = named.prepended_modules;
  extended_modules = named.extended_modules;
}
