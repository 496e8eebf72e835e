-- ===== src/Racer/Shapes.antt =====
-- ext/racer/racer.cc, assign_parameters: what is recorded of the parameters of a method.
use racer_rb.Base.{
  String, ◌≡◌, refl, ap, Bool, true, false, ◌||◌, Option, none, some, List, [], ◌∷◌, ◌++◌, map,
  is_some, All,
}
use racer_rb.Traces.{
  ParamType, required, optional, rest, keyword_required, keyword_optional, keyword_rest, CString,
  Parameter, ReturnTrace,
}
use racer_rb.Protocol.Views.{IsCompleteParam}
use racer_rb.Racer.State.{State}
use racer_rb.Racer.Parameters.{
  ParamId, req_param, opt_param, rest_param, keyreq_param, key_param, keyrest_param, block_param_id,
  RubyArgument,
}
use racer_rb.Racer.Advanced.{IsFresh}

-- The name and the kind of a parameter.
abbrev pub shape : Parameter → CString × ParamType
shape p = (p.name, p.param_type)

-- What is to be recorded of one parameter by its kind in Ruby's Method#parameters: nothing for a block,
-- for a kind that is not known, and for one without a name that takes nothing apart.
abbrev pub named_shape : ParamId → String → List (CString × ParamType)
named_shape req_param name = (some name, required) ∷ []
named_shape opt_param name = (some name, optional) ∷ []
named_shape rest_param name = (some name, rest) ∷ []
named_shape keyreq_param name = (some name, keyword_required) ∷ []
named_shape key_param name = (some name, keyword_optional) ∷ []
named_shape keyrest_param name = (some name, keyword_rest) ∷ []
named_shape id name = []

abbrev pub unnamed_shape : ParamId → List (CString × ParamType)
unnamed_shape req_param = (none, required) ∷ []
unnamed_shape id = []

abbrev pub argument_shape : ParamId → Option String → List (CString × ParamType)
argument_shape id none = unnamed_shape id
argument_shape id (some name) = named_shape id name

abbrev pub shapes : List RubyArgument → List (CString × ParamType)
shapes [] = []
shapes (a ∷ later) = argument_shape a.id a.name ++ shapes later

abbrev pub is_block : ParamId → Option String → Bool
is_block id none = false
is_block block_param_id (some name) = true
is_block id (some name) = false

-- Whether the method names a block parameter.
abbrev pub names_block : List RubyArgument → Bool
names_block [] = false
names_block (a ∷ later) = is_block a.id a.name || names_block later

-- `r` is `trace` with parameters of the shapes `ss` and a fresh block, `r.1` telling whether there is one.
pub record Assigned (trace : ReturnTrace) (ss : List (CString × ParamType)) (b : Bool)
    (r : ReturnTrace × Bool) (t : State) : Type 0 where
  pub same : r.0 ≡ record trace { params = r.0.params; block_param = r.0.block_param }
  pub complete : All IsCompleteParam r.0.params
  pub shapes : map shape r.0.params ≡ ss
  pub fresh : IsFresh t.block_tracepoints r.0.block_param
  pub has : is_some r.0.block_param ≡ b
  pub flag : r.1 ≡ b

pub or_false : (b : Bool) → (b || false) ≡ b
or_false true = refl
or_false false = refl

pub or_assoc : (a b c : Bool) → (a || b || c) ≡ (a || (b || c))
or_assoc true b c = refl
or_assoc false b c = refl

pub or_true : (b : Bool) → (b || true) ≡ true
or_true true = refl
or_true false = refl

pub map-append :
    {A B : Type 0} (g : A → B) (xs ys : List A) → map g (xs ++ ys) ≡ map g xs ++ map g ys
map-append g [] ys = refl
map-append g (x ∷ xs) ys = ap (λ zs. g x ∷ zs) (map-append g xs ys)
