-- ===== src/Protocol/Sizes.antt =====
-- ext/racer/worker.cc: the size that the worker computes for type instances and constants, against the values that it adds.
use racer_rb.Base.{
  ℕ, zero, suc, ◌+◌, ◌≡◌, refl, ◌∙◌, some, List, [], ◌∷◌, ◌++◌, length, length-append, length-map,
  map, arith, ap,
}
use racer_rb.Traces.{Constant, ConstantInstance, Unions, Instances, constant_instance}
use racer_rb.Json.{Value, integer}
use racer_rb.Worker.Sizes.{
  to_int, size_loop, size_of_constant, size_of_constant_instance, size_of_unions, size_of_instances,
}
use racer_rb.Protocol.Tokens.{
  instance_tokens, unions_tokens, instances_tokens, constant_tokens, constants_tokens, name_value,
}
use racer_rb.Protocol.Views.{
  view_instance, view_unions, view_instances, IsComplete, AreUnions, AreInstances, unions_size,
  view_constant,
}

pub length_values : (xs ys : List Value) → length (xs ++ ys) ≡ length xs + length ys
length_values = length-append

int_add : (a b : ℕ) → to_int (to_int a + to_int b) ≡ to_int (a + b)
int_add a b = omega arith

regroup : (base n inner : ℕ) → base + suc n + inner ≡ base + 1 + inner + n
regroup base n inner = omega arith

mutual
  unfolding size_of_constant_instance view_instance IsComplete instance_tokens

  size_of_instance-length :
      (i : ConstantInstance)
      → IsComplete i
      → size_of_constant_instance i ≡ some (to_int (length (instance_tokens (view_instance i))))
  size_of_instance-length (constant_instance name count us singleton) (named, size, parts) =
      size_of_unions-length us 3 count size parts ∙ ap some (omega arith)

  size_of_unions-length :
      (us : Unions) (base n : ℕ)
      → n ≡ unions_size us
      → AreUnions us
      → size_of_unions us n (to_int (base + n))
        ≡ some (to_int (base + length (unions_tokens (view_unions us))))
  size_of_unions-length Unions.no_unions base zero e parts = refl
  size_of_unions-length Unions.no_unions base (suc n) e parts = absurd (omega arith)
  size_of_unions-length (Unions.union is us) base zero e parts = absurd (omega arith)
  size_of_unions-length (Unions.union is us) base (suc n) e (members, parts) =
      let inner = length (instances_tokens (view_instances is)) in
      rw (size_of_instances-length is (base + suc n) members) (
        rw (regroup base n inner) (
          size_of_unions-length us (base + 1 + inner) n (omega arith) parts
          ∙ ap some (
              omega (
                arith,
                length_values (instances_tokens (view_instances is))
                    (unions_tokens (view_unions us)),
              ))))

  size_of_instances-length :
      (is : Instances) (base : ℕ)
      → AreInstances is
      → size_of_instances is (to_int base)
        ≡ some (to_int (base + length (instances_tokens (view_instances is))))
  size_of_instances-length Instances.no_instances base parts = ap some (omega arith)
  size_of_instances-length (Instances.instance_of i is) base (first, parts) =
      rw (size_of_instance-length i first) (
        rw (int_add base (length (instance_tokens (view_instance i)))) (
          size_of_instances-length is (base + length (instance_tokens (view_instance i))) parts
          ∙ ap some (
              omega (
                arith,
                length_values (instance_tokens (view_instance i))
                    (instances_tokens (view_instances is)),
              ))))

-- ext/racer/worker.cc: with sums that wrap around at 32 bits, the worker computes a size for each complete
-- type instance, and it is the number of the values that the instance takes in a message, in 32 bits.
pub size_of_constant_instance-length :
    (i : ConstantInstance)
    → IsComplete i
    → size_of_constant_instance i ≡ some (to_int (length (instance_tokens (view_instance i))))
size_of_constant_instance-length = size_of_instance-length

size_of_constant-length :
    (c : Constant) → size_of_constant c ≡ to_int (length (constant_tokens (view_constant c)))
unfolding size_of_constant constant_tokens
size_of_constant-length c = ap to_int (
    omega (
      arith,
      length-map name_value c.included_modules,
      length-map name_value c.prepended_modules,
      length-map name_value c.extended_modules,
      length_values (map name_value c.included_modules) (
          integer (length (map name_value c.prepended_modules))
          ∷ (map name_value c.prepended_modules
              ++ integer (length (map name_value c.extended_modules))
                ∷ map name_value c.extended_modules)),
      length_values (map name_value c.prepended_modules) (
          integer (length (map name_value c.extended_modules)) ∷ map name_value c.extended_modules),
    ))

pub size_of_constants-length :
    (cs : List Constant) (base : ℕ)
    → size_loop to_int (λ c. some (size_of_constant c)) cs (to_int base)
      ≡ some (to_int (base + length (constants_tokens (map view_constant cs))))
unfolding size_loop constants_tokens
size_of_constants-length [] base = ap some (omega arith)
size_of_constants-length (c ∷ cs) base =
    let here = length (constant_tokens (view_constant c)) in
    rw (size_of_constant-length c, int_add base here)
      (size_of_constants-length cs (base + here)
        ∙ ap some (
            omega (
              arith,
              length_values (constant_tokens (view_constant c))
                  (constants_tokens (map view_constant cs)),
            )))
