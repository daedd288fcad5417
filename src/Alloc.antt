-- ===== src/Alloc.antt =====
-- Allocation of heap objects: `allocate`, `force_sweep` and the `MAKE_*` functions of
-- runtime/src/value.c.
pub mod Fresh
pub mod Keeps
pub mod Blank
pub mod Settled
pub mod Consistent
use bonzai.Base.{
  ℕ, zero, suc, ◌+◌, ◌%◌, ◌^◌, true, false, Option, none, some, List, [], ◌∷◌, ◌==◌, if◌then◌else◌,
  length, replicate,
}
use mathlib.Core.Option
use bonzai.Word.{make_ptr}
use bonzai.Vm.{
  ValueType, type_string, type_list, type_mutable, type_event, type_frame, type_event_on, Heap,
  HeapValue, Payload, Event, Frame, as_string, as_ptr, as_event, as_event_on, as_frame, Module, Cmd,
  pure, get, modify, or_crash, ◌>>=◌, ◌>>◌, update, uninitialised,
}
use bonzai.Vm.Memory.{load, Env}
use bonzai.Gc.{gc, option_then, free_array}

-- `malloc` of a `HeapValue` whose fields are then set; at NULL the first store has no object.
pub allocate_object : Env → ValueType → Cmd ℕ
allocate_object env t m =
    let p = env.malloc m.heap in
    let o : HeapValue = record {
      type = t;
      size = env.junk;
      is_marked = false;
      next = m.first_object;
      payload = uninitialised;
    } in
    or_crash (if p == 0 then none else some p) (record m {
      heap = update m.heap p (some o);
      first_object = p;
      num_objects = (m.num_objects + 1) % 2 ^ 32;
    })

pub allocate : Env → ValueType → Cmd ℕ
unfolding allocate_object
allocate env t = do
  m ← get (λ m. m)
  if m.num_objects == m.max_objects then gc env else pure tt
  allocate_object env t

-- stores to `v->length` and to the union
pub fill : ℕ → ℕ → Payload → Cmd ℕ
fill p n x = do
  o ← (λ m. or_crash (load m.heap p) m)
  modify (λ m. record m { heap = update m.heap p (some (record o { size = n; payload = x })) })
  pure (make_ptr p)

-- A string is the bytes before its NUL, so `strlen` is their number.
pub make_string : Env → List ℕ → Cmd ℕ
unfolding fill
make_string env x = do p ← allocate env type_string; fill p (length x) (as_string x)

pub make_list : Env → List ℕ → ℕ → Cmd ℕ
unfolding fill
make_list env x len = do p ← allocate env type_list; fill p len (as_ptr x)

pub make_mutable : Env → ℕ → Cmd ℕ
unfolding fill
make_mutable env x = do p ← allocate env type_mutable; fill p 1 (as_ptr (x ∷ []))

pub make_event : Env → ℕ → ℕ → Cmd ℕ
unfolding fill
make_event env ons_count ipc = do
  p ← allocate env type_event
  fill p env.junk (
      as_event (record {
        ons_count = ons_count;
        ons = replicate 256 env.junk;
        ipc = ipc;
        actor = env.junk;
      }))

pub make_event_frame : Env → ℕ → ℕ → ℕ → ℕ → ℕ → Cmd ℕ
unfolding fill
make_event_frame env ip sp bp ons_count function_ipc = do
  p ← allocate env type_frame
  fill p env.junk (
      as_frame (record {
        instruction_pointer = ip;
        stack_pointer = sp;
        base_ptr = bp;
        ons_count = ons_count;
        function_ipc = function_ipc;
      }))

-- `function_ipc` of a plain frame is never set.
pub make_frame : Env → ℕ → ℕ → ℕ → Cmd ℕ
unfolding fill
make_frame env ip sp bp = do
  p ← allocate env type_frame
  fill p env.junk (
      as_frame (record {
        instruction_pointer = ip;
        stack_pointer = sp;
        base_ptr = bp;
        ons_count = 0;
        function_ipc = env.junk;
      }))

pub make_event_on : Env → ℕ → ℕ → Cmd ℕ
unfolding fill
make_event_on env id func = do p ← allocate env type_event_on; fill p env.junk (as_event_on id func)

-- The loop of `force_sweep`, for at most `fuel` objects; `next` is read before the object is freed.
pub force_sweep_loop : ℕ → ℕ → Heap → Option Heap
force_sweep_loop zero p h = none
force_sweep_loop (suc fuel) p h =
    let loop = force_sweep_loop fuel in
    if p == 0
    then some h
    else option_then (load h p) λ o. option_then (free_array o) λ _. loop o.next (update h p none)

pub force_sweep : Cmd (Unit {0})
unfolding force_sweep_loop
force_sweep = do
  h ← (λ m. or_crash (force_sweep_loop (suc m.num_objects) m.first_object m.heap) m)
  modify (λ m. record m { heap = h; first_object = 0; num_objects = 0 })
