-- ===== src/Vm/Memory.antt =====
-- Reads of heap objects through a word, as the macros of value.h do them, and what the runtime
-- takes from outside: `malloc`, `realloc`, memory that nobody initialised, and float arithmetic.
use bonzai.Base.{ℕ, Bool, Option, none, some, List, ◌==◌, if◌then◌else◌}
use bonzai.Word.{get_ptr}
use bonzai.Vm.{Cmd, Heap, HeapValue, Event, Payload, as_string, as_ptr, as_event, as_frame, Frame}

-- `*p`; NULL and an address that holds no object are no memory to read.
unfoldable pub load : Heap → ℕ → Option HeapValue
load h p = if p == 0 then none else h p

-- `*GET_PTR(v)`
unfoldable pub deref : Heap → ℕ → Option HeapValue
unfolding load
deref h v = load h (get_ptr v)

-- the union's members, each readable where it was stored
abbrev pub string_of : Payload → Option (List ℕ)
string_of (as_string s) = some s
string_of _ = none

abbrev pub array_of : Payload → Option (List ℕ)
array_of (as_ptr xs) = some xs
array_of _ = none

abbrev pub event_of : Payload → Option Event
event_of (as_event e) = some e
event_of _ = none

abbrev pub frame_of : Payload → Option Frame
frame_of (as_frame f) = some f
frame_of _ = none

-- What the runtime calls and does not define. `malloc` gives an address, 0 if there is no memory;
-- `realloc` copies an array into a larger one, whose further elements hold anything; `stale_next`
-- is what `->next` reads from an object that was just freed, if that read is survived; `junk` is
-- what a field holds that nobody has set; `c_stack` is how deep a C function can recurse;
-- `get_proc_address` looks a name up in a loaded library, and `native` is the function at the
-- address found.
pub record Env : Type 0 where
  pub malloc : Heap → ℕ
  pub realloc : List ℕ → ℕ → Option (List ℕ)
  pub stale_next : HeapValue → Option ℕ
  pub junk : ℕ
  pub c_stack : ℕ
  pub float_add : ℕ → ℕ → ℕ
  pub float_sub : ℕ → ℕ → ℕ
  pub float_mul : ℕ → ℕ → ℕ
  pub float_div : ℕ → ℕ → ℕ
  pub float_eq : ℕ → ℕ → Bool
  pub float_lt : ℕ → ℕ → Bool
  pub get_proc_address : ℕ → List ℕ → Option ℕ
  pub native : ℕ → List ℕ → ℕ → Cmd ℕ
