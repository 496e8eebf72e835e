-- ===== src/Worker/Sizes.antt =====
-- ext/racer/worker.cc, the size_of_ functions: the capacity that the worker asks json-c for. Sums are
-- of ints, here as bit patterns that wrap around at 32 bits. C++ leaves the overflow of an int undefined;
-- these sums go on with the wrapped bits there, and do not say whether an int has overflown. `none` is
-- the reading of a union that is not there, as in the writers.
use racer_rb.Base.{
  ℕ, zero, suc, ◌+◌, ◌*◌, ◌%◌, ◌^◌, Option, none, some, List, [], ◌∷◌, length, ltb, if◌then◌else◌,
  ◌-◌,
}
use racer_rb.Traces.{
  Ptr, Constant, ConstantInstance, Unions, Instances, constant_instance, no_unions, union,
  no_instances, instance_of, BlockParameter, ReturnTrace, Heap,
}

abbrev pub to_int : ℕ → ℕ
to_int n = n % 2 ^ 32

abbrev pub to_long : ℕ → ℕ
to_long n = n % 2 ^ 64

-- An int as a long: the sign bit fills the upper half.
abbrev pub sign_extend : ℕ → ℕ
sign_extend n = if ltb n (2 ^ 31) then n else n + (2 ^ 64 - 2 ^ 32)

abbrev pub size_then : Option ℕ → (ℕ → Option ℕ) → Option ℕ
size_then none k = none
size_then (some n) k = k n

-- `size += item` for each item of a loop.
unfoldable pub size_loop {ℓ} : {A : Type ℓ} → (ℕ → ℕ) → (A → Option ℕ) → List A → ℕ → Option ℕ
size_loop narrow item [] size = some size
size_loop narrow item (x ∷ xs) size =
    size_then (item x) λ n. size_loop narrow item xs (narrow (size + n))

unfoldable pub size_of_constant : Constant → ℕ
size_of_constant c =
    to_int (7 + length c.included_modules + length c.prepended_modules + length c.extended_modules)

unfoldable pub size_of_constant_updates : List Constant → Option ℕ
unfolding size_of_constant size_loop
size_of_constant_updates cs = size_loop to_int (λ c. some (size_of_constant c)) cs 1

unfoldable mutual
  pub size_of_constant_instance : ConstantInstance → Option ℕ
  size_of_constant_instance (constant_instance name count us singleton) =
      size_of_unions us count (to_int (3 + count))

  pub size_of_unions : Unions → ℕ → ℕ → Option ℕ
  size_of_unions no_unions zero size = some size
  size_of_unions no_unions (suc n) size = none
  size_of_unions (union is us) zero size = some size
  size_of_unions (union is us) (suc n) size =
      size_then (size_of_instances is size) (size_of_unions us n)

  pub size_of_instances : Instances → ℕ → Option ℕ
  size_of_instances no_instances size = some size
  size_of_instances (instance_of i is) size =
      size_then (size_of_constant_instance i) λ n. size_of_instances is (to_int (size + n))

-- The size of the parameters is summed as a long, and returned as an int.
unfoldable pub size_of_block : (Ptr → Option ℕ) → Option BlockParameter → ℕ → Option ℕ
unfolding size_loop
size_of_block size_of_trace none size = some size
size_of_block size_of_trace (some b) size =
    size_loop to_long (λ p. size_then (size_of_trace p) λ n. some (sign_extend n)) b.block_traces
      (to_long (size + 2))

unfoldable pub size_of_params_with : (Ptr → Option ℕ) → ReturnTrace → Option ℕ
unfolding size_of_block
size_of_params_with size_of_trace trace =
    size_then
      (size_of_block size_of_trace trace.block_param (to_long (2 + length trace.params * 3)))
      λ n. some (to_int n)

unfoldable pub size_at : Option ReturnTrace → (ReturnTrace → Option ℕ) → Option ℕ
size_at none size = none
size_at (some trace) size = size trace

module _ (h : Heap) where
  unfoldable pub size_of_block_trace : ℕ → Ptr → Option ℕ
  unfolding size_at size_of_params_with
  size_of_block_trace zero p = none
  size_of_block_trace (suc f) p = size_at (h p) λ trace.
      size_then (size_of_params_with (size_of_block_trace f) trace) λ n. some (to_int (2 + n))

  unfoldable pub size_of_params : ℕ → ReturnTrace → Option ℕ
  unfolding size_of_params_with size_of_block_trace
  size_of_params f = size_of_params_with (size_of_block_trace f)

  abbrev pub size_of_callee : Option ConstantInstance → Option ℕ
  size_of_callee none = some 1
  size_of_callee (some i) = size_of_constant_instance i

  -- `array_size` of init_worker.
  unfoldable pub array_size : ℕ → ReturnTrace → Option ℕ
  unfolding size_of_params size_of_constant_updates size_of_constant_instance
  array_size f trace = size_then (size_of_constant_instance trace.return_type) λ r.
      size_then (size_of_constant_instance trace.method_owner) λ o.
        size_then (size_of_params f trace) λ p.
          size_then (size_of_constant_updates trace.constant_updates) λ u.
            size_then (size_of_callee trace.method_callee)
              λ c. some (to_int (to_int (2 + r + o + p + u) + c))
