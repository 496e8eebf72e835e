-- ===== src/Tests/Starting.antt =====
-- The start of the extension on sample data, with answers kept of another regular expression.
use racer_rb.Base.{String, ◌≡◌, refl, sym, ap, ◌∙◌, true, false, none, some, [], ◌∷◌, lookup, arith}
use racer_rb.Racer.State.{Vm, State, initial, pure, ◌>>=◌}
use racer_rb.Racer.Ensures.{Ensures}
use racer_rb.Racer.Session.{agent, start}
use racer_rb.Racer.Paths.{should_process_event}
use racer_rb.Racer.Starts.{start-is_traced}
use racer_rb.Racer.StartStates.{EqualMatchAlike, CacheIsRight, Started}
use racer_rb.Tests.Machine.{vm}

-- The one path in use.
abbrev IsApp : String → Type 0
IsApp path = path ≡ "app.rb"

-- The regular expression 30 matches the path, and this is kept.
abbrev cached : State
cached = record initial { path_matcher = some 30; matched_paths = (0, true) ∷ [] }

cached-CacheIsRight : CacheIsRight vm IsApp cached
unfolding lookup
cached-CacheIsRight path b used e = rw used e

vm-EqualMatchAlike : EqualMatchAlike vm IsApp
vm-EqualMatchAlike none none path used same = refl
vm-EqualMatchAlike none (some w) path used same = absurd (cc)
vm-EqualMatchAlike (some v) none path used same = absurd (cc)
vm-EqualMatchAlike (some v) (some w) path used same =
    let is : v ≡ w = ground (arith, same) in ap (λ m. some (Vm.regexp_matches vm m path)) is

-- The regular expression 31 does not match it.
start-is_traced_example :
    Ensures
      (λ (r, b) t. Started vm IsApp agent (some 31) (some 2) cached r t × (b ≡ false))
      ((start vm agent (some 31) (some 2) >>= λ r.
          should_process_event vm (some "app.rb") none >>= λ b. pure (r, b))
        cached)
start-is_traced_example =
    start-is_traced vm IsApp agent (some 31) (some 2) (some "app.rb") none cached
      (λ p q e e' same. e ∙ sym e') vm-EqualMatchAlike refl tt cached-CacheIsRight
