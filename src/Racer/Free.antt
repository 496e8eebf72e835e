-- ===== src/Racer/Free.antt =====
-- ext/racer/traces.cc: a trace is freed with the block traces that it owns. Names and argument arrays
-- are values in the model, so what free_constant_instance and free_param give back is not part of it.
use racer_rb.Base.{ℕ, zero, suc, Option, none, some, List, [], ◌∷◌}
use racer_rb.Traces.{Ptr, BlockParameter}
use racer_rb.Racer.State.{M, pure, fail, ◌>>=◌, ◌>>◌, read_trace, delete_trace}

-- The loop over `block_traces`.
unfoldable pub free_traces : (Ptr → M (Unit {0})) → List Ptr → M (Unit {0})
free_traces free [] = pure tt
free_traces free (p ∷ ps) = free p >> free_traces free ps

-- The loop over `current_block_call_stack`, which skips null pointers.
unfoldable pub free_calls : (Ptr → M (Unit {0})) → List (Option Ptr) → M (Unit {0})
free_calls free [] = pure tt
free_calls free (none ∷ ps) = free_calls free ps
free_calls free (some p ∷ ps) = free p >> free_calls free ps

unfoldable pub free_block_param : (Ptr → M (Unit {0})) → Option BlockParameter → M (Unit {0})
unfolding free_traces free_calls
free_block_param free none = pure tt
free_block_param free (some b) =
    free_traces free b.block_traces >> free_calls free b.current_block_call_stack

-- Blocks nest through the heap, so a level of nesting costs a unit of fuel.
unfoldable pub free_trace : ℕ → Ptr → M (Unit {0})
unfolding free_block_param read_trace delete_trace
free_trace zero p = fail
free_trace (suc f) p = do
  trace ← read_trace p
  free_block_param (free_trace f) trace.block_param
  delete_trace p
