-- ===== src/Racer/Blocks.antt =====
-- ext/racer/racer.cc, process_block_call_event and process_block_return_event: the first call of the
-- block of a traced method.
use racer_rb.Base.{ℕ, Bool, Option, none, some, List, [], ◌∷◌, ◌++◌}
use racer_rb.Traces.{Ptr, BlockParameter, ReturnTrace, unset_trace}
use racer_rb.Racer.State.{RubyValue, Vm, M, pure, ◌>>=◌, ◌>>◌, new_trace, write_trace, read_trace}
use racer_rb.Racer.Generics.{value_to_constant_instance}
use racer_rb.Racer.Parameters.{RubyArgument, assign_parameters}

pub record BlockCall : Type 0 where
  pub self : RubyValue
  pub parameters : List RubyArgument
  pub block_given : Bool

abbrev pub with_block : BlockParameter → ReturnTrace → ReturnTrace
with_block b trace = record trace { block_param = some b }

module _ (vm : Vm) (f levels : ℕ) where
  -- A trace for a call on an empty stack; a call inside of it is a null pointer.
  unfoldable pub new_block_call : List (Option Ptr) → BlockCall → M (Option Ptr)
  unfolding new_trace write_trace assign_parameters value_to_constant_instance
  new_block_call (call ∷ calls) e = pure none
  new_block_call [] e = do
    q ← new_trace unset_trace
    trace ← assign_parameters vm f levels q e.parameters e.block_given unset_trace
    self_type ← value_to_constant_instance vm f levels e.self 0
    write_trace q (record trace { block_self_type = some self_type })
    pure (some q)

  -- Once a block trace is complete, no other call is looked at.
  unfoldable pub call_block : Ptr → ReturnTrace → BlockCall → Option BlockParameter → M (Unit {0})
  unfolding new_block_call write_trace
  call_block p last_trace e none = pure tt
  call_block p last_trace e (some b) = elim b.block_traces [
    | done ∷ others ↦ pure tt
    | [] ↦ do
      call ← new_block_call b.current_block_call_stack e
      write_trace p (
          with_block (record b { current_block_call_stack = call ∷ b.current_block_call_stack })
            last_trace)
  ]

  -- `p` is the trace that the tracepoint was given as data.
  unfoldable pub process_block_call_event : Ptr → BlockCall → M (Unit {0})
  unfolding read_trace call_block
  process_block_call_event p e = do
    last_trace ← read_trace p
    call_block p last_trace e last_trace.block_param

  -- The call that returns is off the stack; that of an inner block leaves no trace.
  unfoldable pub finish_block_call :
      Ptr → ReturnTrace → BlockParameter → Option Ptr → RubyValue → M (Unit {0})
  unfolding read_trace write_trace value_to_constant_instance
  finish_block_call p last_trace b none value = write_trace p (with_block b last_trace)
  finish_block_call p last_trace b (some q) value = do
    write_trace p (with_block b last_trace)
    block_call ← read_trace q
    return_type ← value_to_constant_instance vm f levels value 0
    write_trace q (record block_call { return_type = return_type })
    write_trace p (with_block (record b { block_traces = b.block_traces ++ q ∷ [] }) last_trace)

  unfoldable pub return_from_block :
      Ptr → ReturnTrace → RubyValue → Option BlockParameter → M (Unit {0})
  unfolding finish_block_call
  return_from_block p last_trace value none = pure tt
  return_from_block p last_trace value (some b) = elim b.block_traces [
    | done ∷ others ↦ pure tt
    | [] ↦ elim b.current_block_call_stack [
      | [] ↦ pure tt
      | call ∷ calls ↦
          finish_block_call p last_trace (record b { current_block_call_stack = calls }) call value
    ]
  ]

  unfoldable pub process_block_return_event : Ptr → RubyValue → M (Unit {0})
  unfolding read_trace return_from_block
  process_block_return_event p value = do
    last_trace ← read_trace p
    return_from_block p last_trace value last_trace.block_param
