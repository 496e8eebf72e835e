-- ===== src/Json.antt =====
-- json-c, which ext/racer/worker.cc builds its messages with, and Ruby's JSON.parse, which
-- lib/racer/agent.rb reads them with. Neither is in this repository: both are a parameter.
use racer_rb.Base.{ℕ, String, ◌≡◌, refl, Bool, Option, some, List, [], ◌∷◌, ◌++◌}

-- The Ruby values that a flat JSON array of scalars parses to.
pub data Value : Type 0 where
  nil : Value
  boolean : Bool → Value
  integer : ℕ → Value
  string : String → Value

-- The functions of json-c that the worker calls, with `contents` for the array as JSON, and the
-- parser that the agent calls. An array grows as items are added, whatever its first capacity.
pub record JsonLib : Type 1 where
  pub Object : Type 0
  pub Array : Type 0
  pub Text : Type 0
  pub new_string : String → Object
  pub new_boolean : Bool → Object
  pub new_int : ℕ → Object
  pub new_int64 : ℕ → Object
  pub new_uint64 : ℕ → Object
  pub new_null : Object
  -- The capacity is given by its bits.
  pub new_array_ext : ℕ → Array
  pub array_add : Array → Object → Array
  pub to_json_string : Array → Text
  pub parse : Text → Option (List Value)
  pub value : Object → Value
  pub contents : Array → List Value
  pub value-new_string : (s : String) → value (new_string s) ≡ string s
  pub value-new_boolean : (b : Bool) → value (new_boolean b) ≡ boolean b
  pub value-new_int : (n : ℕ) → value (new_int n) ≡ integer n
  pub value-new_int64 : (n : ℕ) → value (new_int64 n) ≡ integer n
  pub value-new_uint64 : (n : ℕ) → value (new_uint64 n) ≡ integer n
  pub value-new_null : value new_null ≡ nil
  pub contents-new_array_ext : (n : ℕ) → contents (new_array_ext n) ≡ []
  pub contents-array_add :
      (a : Array) (o : Object) → contents (array_add a o) ≡ contents a ++ value o ∷ []
  pub parse-to_json_string : (a : Array) → parse (to_json_string a) ≡ some (contents a)

-- Values that are their own JSON, and an array that is the list of its items.
abbrev pub plain_json : JsonLib
plain_json = record {
  Object = Value;
  Array = List Value;
  Text = List Value;
  new_string = string;
  new_boolean = boolean;
  new_int = integer;
  new_int64 = integer;
  new_uint64 = integer;
  new_null = nil;
  new_array_ext = λ _. [];
  array_add = λ a o. a ++ o ∷ [];
  to_json_string = λ a. a;
  parse = some;
  value = λ o. o;
  contents = λ a. a;
  value-new_string = λ _. refl;
  value-new_boolean = λ _. refl;
  value-new_int = λ _. refl;
  value-new_int64 = λ _. refl;
  value-new_uint64 = λ _. refl;
  value-new_null = refl;
  contents-new_array_ext = λ _. refl;
  contents-array_add = λ _ _. refl;
  parse-to_json_string = λ _. refl;
}
