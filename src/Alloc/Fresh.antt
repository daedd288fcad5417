-- ===== src/Alloc/Fresh.antt =====
-- `allocate` and `MAKE_FRAME` of runtime/src/value.c while no collection is due.
use bonzai.Base.{ℕ, ◌+◌, ◌%◌, ◌^◌, ◌≡◌, ◌≢◌, refl, false, Option, some, arith}
use bonzai.Word.{make_ptr}
use bonzai.Vm.{
  ValueType, type_frame, HeapValue, Payload, Frame, as_frame, Module, ok, update, uninitialised,
}
use bonzai.Vm.Memory.{Env, load}
use bonzai.Alloc.{allocate, allocate_object, fill, make_frame}

-- `malloc` has memory, and no collection is due.
pub record Room (env : Env) (p : ℕ) (m : Module) : Type 0 where
  pub below : m.num_objects ≢ m.max_objects
  pub address : env.malloc m.heap ≡ p
  pub there : p ≢ 0

-- a new object at `p`, in front of the others
abbrev pub with_object : Env → ValueType → Payload → ℕ → Module → Module
with_object env t x p m = record m {
  heap = update m.heap p (
      some (record {
        type = t;
        size = env.junk;
        is_marked = false;
        next = m.first_object;
        payload = x;
      }));
  first_object = p;
  num_objects = (m.num_objects + 1) % 2 ^ 32;
}

pub allocate-ok :
    (env : Env) (t : ValueType) (p : ℕ) (m : Module)
    → Room env p m
    → allocate env t m ≡ ok p (with_object env t uninitialised p m)
unfolding allocate allocate_object
allocate-ok env t p m r = ground (arith, r.below, r.address, r.there)

abbrev pub plain_frame : Env → ℕ → ℕ → ℕ → Frame
plain_frame env ip sp bp = record {
  instruction_pointer = ip;
  stack_pointer = sp;
  base_ptr = bp;
  ons_count = 0;
  function_ipc = env.junk;
}

abbrev pub frame_object : Env → ℕ → Frame → HeapValue
frame_object env n fr = record {
  type = type_frame;
  size = env.junk;
  is_marked = false;
  next = n;
  payload = as_frame fr;
}

abbrev pub with_frame : Env → ℕ → Frame → Module → Module
with_frame env p fr m =
    let made : Module = with_object env type_frame uninitialised p m in
    record made { heap = update made.heap p (some (frame_object env m.first_object fr)) }

pub load-update :
    (h : ℕ → Option HeapValue) (p : ℕ) (o : HeapValue)
    → p ≢ 0
    → load (update h p (some o)) p ≡ some o
unfolding load
load-update h p o ne = ground arith

pub make_frame-ok :
    (env : Env) (ip sp bp p : ℕ) (m : Module)
    → Room env p m
    → make_frame env ip sp bp m ≡ ok (make_ptr p) (with_frame env p (plain_frame env ip sp bp) m)
unfolding make_frame fill
make_frame-ok env ip sp bp p m r =
    let made : Module = with_object env type_frame uninitialised p m in
    let o : HeapValue = record {
      type = type_frame;
      size = env.junk;
      is_marked = false;
      next = m.first_object;
      payload = uninitialised;
    } in
    rw (allocate-ok env type_frame p m r, load-update m.heap p o r.there) refl
