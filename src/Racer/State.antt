-- ===== src/Racer/State.antt =====
-- ext/racer/racer.cc: the static variables, what the extension asks of the Ruby VM, and code that
-- changes the former.
use racer_rb.Base.{ℕ, ◌+◌, String, Bool, false, Option, none, some, List, [], ◌==◌, if◌then◌else◌}
use racer_rb.Traces.{Ptr, Constant, ReturnTrace, Heap}

-- A Ruby object, and the number of a string's hash, an interned name, a fiber or a tracepoint.
abbrev pub RubyValue : Type 0
RubyValue = ℕ

pub data RubyType : Type 0 where
  t_class t_module t_other : RubyType

-- The functions of Ruby's C API that racer.cc calls on objects. `none` is nil or a raised NameError.
-- `rb_class_superclasses` is what repeated calls of rb_class_superclass give until nil.
pub record Vm : Type 0 where
  pub rb_c_object : RubyValue
  pub rb_m_kernel : RubyValue
  pub rb_c_module : RubyValue
  pub rb_c_class : RubyValue
  pub rb_c_array : RubyValue
  pub rb_c_hash : RubyValue
  pub rb_type : RubyValue → RubyType
  pub rb_obj_class : RubyValue → RubyValue
  pub rb_mod_name : RubyValue → Option String
  pub rb_class_superclasses : RubyValue → List RubyValue
  pub rb_class_path_cached : RubyValue → Option String
  pub rb_mod_ancestors : RubyValue → List RubyValue
  pub rb_singleton_class : RubyValue → RubyValue
  pub rb_class_attached_object : RubyValue → RubyValue
  pub is_singleton : RubyValue → Bool
  pub rb_const_get_at : RubyValue → String → Option RubyValue
  pub rb_fix2str : RubyValue → String
  pub array_items : RubyValue → List RubyValue
  pub hash_pairs : RubyValue → List (RubyValue × RubyValue)
  pub can_target : RubyValue → Bool
  pub public_method_defined : RubyValue → String → Bool
  pub private_method_defined : RubyValue → String → Bool
  pub method_defined : RubyValue → String → Bool
  pub is_regexp : RubyValue → Bool
  pub regexp_matches : RubyValue → String → Bool
  pub rb_str_hash : String → ℕ
  pub rb_equal : Option RubyValue → Option RubyValue → Bool

pub data Socket : Type 0 where
  no_socket : Socket
  connected : Socket
  closed : Socket

pub data Message : Type 0 where
  trace_message : Ptr → Message
  stop_message : Message

-- A tracepoint on a block: the trace that it is given as data, and whether it is enabled.
pub record BlockTracepoint : Type 0 where
  pub target : Ptr
  pub enabled : Bool

-- The statics of racer.cc, the allocated traces, the tracepoints that were made, and the messages
-- handed to tiny_queue_push, in order. A stack's last element, its top, stands first. `tp_call` is
-- none for nil and else says whether the tracepoint is enabled.
pub record State : Type 0 where
  pub tp_call : Option Bool
  pub socket : Socket
  pub path_matcher : Option RubyValue
  pub max_generic_depth : ℕ
  pub call_stacks : List (ℕ × List Ptr)
  pub constant_map : List (RubyValue × Constant)
  pub constant_updates : List RubyValue
  pub matched_paths : List (ℕ × Bool)
  pub heap : Heap
  pub next_trace : Ptr
  pub block_tracepoints : ℕ → Option BlockTracepoint
  pub next_tracepoint : ℕ
  pub pushed : List Message

-- The statics as they are initialised.
abbrev pub initial : State
initial = record {
  tp_call = none;
  socket = no_socket;
  path_matcher = none;
  max_generic_depth = 1;
  call_stacks = [];
  constant_map = [];
  constant_updates = [];
  matched_paths = [];
  heap = λ _. none;
  next_trace = 1;
  block_tracepoints = λ _. none;
  next_tracepoint = 1;
  pushed = [];
}

-- `none` is undefined behaviour, an exception that leaves the extension, or an end of the fuel. The
-- TypeErrors of `start` are results instead.
abbrev pub M : Type 0 → Type 0
M A = State → Option (A × State)

abbrev pub pure : {A : Type 0} → A → M A
pure a s = some (a, s)

abbrev pub fail : {A : Type 0} → M A
fail s = none

module _ {A B : Type 0} where
  abbrev pub and_then : Option (A × State) → (A → M B) → Option (B × State)
  and_then none k = none
  and_then (some (a, s)) k = k a s

  infixl 5 ◌>>=◌
  abbrev pub ◌>>=◌ : M A → (A → M B) → M B
  m >>= k = λ s. and_then (m s) k

infixl 5 ◌>>◌
abbrev pub ◌>>◌ : {B : Type 0} → M (Unit {0}) → M B → M B
m >> k = m >>= λ _. k

abbrev pub get : M State
get s = some (s, s)

abbrev pub modify : (State → State) → M (Unit {0})
modify f s = some (tt, f s)

abbrev pub update {ℓ} : {A : Type ℓ} → (ℕ → A) → ℕ → A → ℕ → A
update f k a j = if j == k then a else f j

-- `new ReturnTrace`, and `delete` of one.
unfoldable pub new_trace : ReturnTrace → M Ptr
new_trace trace s = some (
  s.next_trace,
  record s { heap = update s.heap s.next_trace (some trace); next_trace = s.next_trace + 1 },
)

unfoldable pub write_trace : Ptr → ReturnTrace → M (Unit {0})
write_trace p trace s = some (tt, record s { heap = update s.heap p (some trace) })

-- `trace->…`: a pointer that leads nowhere is undefined behaviour.
unfoldable pub read_trace : Ptr → M ReturnTrace
read_trace p s = elim (s.heap p) [ none ↦ none | some trace ↦ some (trace, s) ]

-- `free`, which must not meet a trace twice.
unfoldable pub delete_trace : Ptr → M (Unit {0})
unfolding read_trace
delete_trace p = do _ ← read_trace p; modify λ s. record s { heap = update s.heap p none }

-- `rb_tracepoint_disable`, on a tracepoint that was made.
unfoldable pub disable_tracepoint : ℕ → M (Unit {0})
disable_tracepoint tp s = elim (s.block_tracepoints tp) [
  | none ↦ none
  | some t ↦ some (
    tt,
    record s {
      block_tracepoints = update s.block_tracepoints tp (some (record t { enabled = false }));
    },
  )
]
